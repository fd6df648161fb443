-- ===== src/Shared/Decimal.antt =====
-- `%d` for numbers that are not negative, and its inverse.
use Prim.Native.Nat.{ℕ, zero, suc, ◌+◌, ◌*◌, ◌/◌, ◌%◌, ◌-◌, ◌<◌}
use mathlib.Core.List.{[], ◌∷◌, ◌++◌}
use mathlib.Core.Path.{◌≡◌, refl, ap, sym, ◌∙◌}
use native.Mathlib.Omega.{arith}
use remote_hands.Shared.Tests.{ltb, if◌then◌else◌}
use remote_hands.Shared.Bytes.{Text}

digits : ℕ → ℕ → Text
digits zero n = []
digits (suc fuel) n =
    let more : Text = digits fuel (n / 10) ++ (48 + n % 10) ∷ [] in
    if ltb n 10 then (48 + n) ∷ [] else more

-- A number has fewer digits than its successor, so the fuel is enough (`read_digits-digits`).
unfoldable pub decimal : ℕ → Text
unfolding digits
decimal n = digits (suc n) n

read_digits : ℕ → Text → ℕ
read_digits n [] = n
read_digits n (c ∷ s) = read_digits (n * 10 + (c - 48)) s

read_digits-append : (n : ℕ) (s t : Text) → read_digits n (s ++ t) ≡ read_digits (read_digits n s) t
unfolding read_digits
read_digits-append n [] t = refl
read_digits-append n (c ∷ s) t = read_digits-append (n * 10 + (c - 48)) s t

read_digits-digits : (fuel n : ℕ) → n < fuel → read_digits 0 (digits fuel n) ≡ n
unfolding read_digits digits
read_digits-digits zero n h = absurd (omega arith)
read_digits-digits (suc fuel) n h = ground (
  arith,
  read_digits-digits fuel (n / 10),
  read_digits-append 0 (digits fuel (n / 10)) ((48 + n % 10) ∷ []),
)

-- Two numbers are printed alike only if they are equal.
pub decimal-injective : (m n : ℕ) → decimal m ≡ decimal n → m ≡ n
unfolding decimal
decimal-injective m n e =
    sym (read_digits-digits (suc m) m (omega arith))
    ∙ ap (read_digits 0) e
    ∙ read_digits-digits (suc n) n (omega arith)
