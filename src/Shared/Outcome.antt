-- ===== src/Shared/Outcome.antt =====
-- Errors as values: a Go result `(v, err)`, of which one half counts.
use Prim.Native.String.{String}
use mathlib.Core.Path.{◌≡◌, refl}
use mathlib.Core.Logic.{◌⊎◌, inl, inr}

pub data Result {ℓ κ} (E : Type ℓ) (A : Type κ) : Type (ℓ ⊔ κ) where
  ok : A → Result E A
  err : E → Result E A

infixl 5 ◌>>=◌
infixl 5 ◌>>◌
abbrev pub ◌>>=◌ {ℓ κ μ} :
    {E : Type ℓ} {A : Type κ} {B : Type μ} → Result E A → (A → Result E B) → Result E B
ok a >>= f = f a
err e >>= f = err e

abbrev pub ◌>>◌ {ℓ κ} : {E : Type ℓ} {B : Type κ} → Result E (Unit {0}) → Result E B → Result E B
m >> k = m >>= λ _. k

-- `connect.Code`, as far as the program uses it.
pub data Code : Type 0 where
  invalid_argument not_found permission_denied failed_precondition internal unauthenticated : Code

-- `connect_error` is `connect.NewError`, `plain` is `fmt.Errorf`. The text is the format string;
-- its arguments and a wrapped cause are left out. `path_traversal` is `ErrPathTraversal`.
pub data Error : Type 0 where
  path_traversal : Error
  connect_error : Code → String → Error
  plain : String → Error

-- What the operating system answers when a call fails, as far as `os.IsNotExist` and
-- `os.IsPermission` tell it.
pub data OsError : Type 0 where
  not_exist permission other : OsError

-- An external call's failure becomes the program's.
abbrev pub map_err {ℓ κ μ} :
    {E : Type ℓ} {F : Type κ} {A : Type μ} → Result E A → (E → F) → Result F A
map_err (ok a) f = ok a
map_err (err e) f = err (f e)

pub Result-cases {ℓ κ} :
    {E : Type ℓ} {A : Type κ} (r : Result E A) → ((a : A) × (r ≡ ok a)) ⊎ ((e : E) × (r ≡ err e))
Result-cases (ok a) = inl (a, refl)
Result-cases (err e) = inr (e, refl)

module _ {ℓ κ μ} {E : Type ℓ} {A : Type κ} {B : Type μ} where
  -- The steps behind a success: the value that the first one gave, and what was made of it.
  pub >>=-eq-ok :
      (first : Result E A) (next : A → Result E B) {end : B}
      → (first >>= next) ≡ ok end
      → (given : A) × (first ≡ ok given) × (next given ≡ ok end)
  >>=-eq-ok (err e) next h = cc
  >>=-eq-ok (ok given) next h = (given, refl, h)
