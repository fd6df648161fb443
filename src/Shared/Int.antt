-- ===== src/Shared/Int.antt =====
-- Signed numbers over the native ℕ: `int32` and `int64` parameters, which the program only compares.
use Prim.Native.Nat.{ℕ, ◌%◌, ◌-◌, ◌<◌}
use mathlib.Core.Path.{◌≡◌}
use native.Mathlib.Omega.{arith}
use mathlib.Core.Bool.{Bool, true, false}
use remote_hands.Shared.Tests.{ltb, if◌then◌else◌}

-- `negsuc n` is -(n + 1).
pub data ℤ : Type 0 where
  pos : ℕ → ℤ
  negsuc : ℕ → ℤ

-- `n > 0`.
abbrev pub is_positive : ℤ → Bool
is_positive (pos n) = ltb 0 n
is_positive (negsuc n) = false

-- `int(n)` where the program has tested `n > 0`.
abbrev pub to_ℕ : ℤ → ℕ
to_ℕ (pos n) = n
to_ℕ (negsuc n) = 0

-- `int32(n)` of an `int`: the low 32 bits as a signed number.
abbrev pub int32 : ℕ → ℤ
int32 n = let w : ℕ = n % 4294967296 in if ltb w 2147483648 then pos w else negsuc (4294967295 - w)

pub int32-small : (n : ℕ) → n < 2147483648 → int32 n ≡ pos n
int32-small n h = ground arith

-- `n < int(z)` and `n > int(z)`, for n that is not negative.
abbrev pub lt_ℤ : ℕ → ℤ → Bool
lt_ℤ n (pos m) = ltb n m
lt_ℤ n (negsuc m) = false

abbrev pub gt_ℤ : ℕ → ℤ → Bool
gt_ℤ n (pos m) = ltb m n
gt_ℤ n (negsuc m) = true
