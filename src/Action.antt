-- ===== src/Action.antt =====
-- Steps that change a state and may fail. The state comes back behind a failure too.
use remote_hands.Shared.{
  Bool, true, false, Result, ok, err, Error, if◌then◌else◌, inl, inr, ◌≡◌, ap, Result-cases,
}

abbrev pub Action {ℓ κ} : Type ℓ → Type κ → Type (ℓ ⊔ κ)
Action S A = S → Result Error A × S

module _ {ℓ κ} {S : Type ℓ} {A : Type κ} where
  abbrev pub pure : A → Action S A
  pure a s = (ok a, s)

  abbrev pub fail : Error → Action S A
  fail e s = (err e, s)

  abbrev pub gets : (S → A) → Action S A
  gets f s = (ok (f s), s)

infixl 5 ◌>>=◌
unfoldable pub ◌>>=◌ {ℓ κ μ} :
    {S : Type ℓ} {A : Type κ} {B : Type μ} → Action S A → (A → Action S B) → Action S B
◌>>=◌ first next s = let (r, s1) = first s in elim r [ err e ↦ (err e, s1) | ok a ↦ next a s1 ]

infixl 5 ◌>>◌
abbrev pub ◌>>◌ {ℓ κ} : {S : Type ℓ} {B : Type κ} → Action S (Unit {0}) → Action S B → Action S B
first >> next = first >>= λ _. next

module _ {ℓ} {S : Type ℓ} where
  abbrev pub modify : (S → S) → Action S (Unit {0})
  modify f s = (ok tt, f s)

-- A predicate on states that an action keeps, whether it fails or not.
pub record Keeps {ℓ κ μ} {S : Type ℓ} {A : Type κ} (P : S → Type μ) (m : Action S A)
    : Type (ℓ ⊔ μ) where
  pub keeps : (s : S) → P s → P (m s).1

module _ {ℓ κ μ} {S : Type ℓ} {A : Type κ} (P : S → Type μ) where
  pub pure-Keeps : (a : A) → Keeps P (pure {S = S} a)
  pure-Keeps a = record { keeps = λ s p. p }

  pub fail-Keeps : (e : Error) → Keeps P (fail {S = S} {A = A} e)
  fail-Keeps e = record { keeps = λ s p. p }

  pub if-Keeps :
      (b : Bool) {m n : Action S A} → Keeps P m → Keeps P n → Keeps P (if b then m else n)
  if-Keeps true hm hn = hm
  if-Keeps false hm hn = hn

  pub bind-Keeps {ι} :
      {B : Type ι} {m : Action S A} {f : A → Action S B}
      → Keeps P m
      → ((a : A) → Keeps P (f a))
      → Keeps P (m >>= f)
  unfolding ◌>>=◌
  bind-Keeps {m} {f} hm hf = record {
    keeps = λ s p. elim (Result-cases (m s).0) [
      | inl (a, r) ↦ rw (r, ◌>>=◌) (Keeps.keeps (hf a) (m s).1 (Keeps.keeps hm s p))
      | inr (e, r) ↦ rw (r, ◌>>=◌) (Keeps.keeps hm s p)
    ];
  }

-- A first action that keeps `H`, where `R` is wanted behind the whole.
pub bind_behind {ℓ κ ι μ ν} :
    {S : Type ℓ} {A : Type κ} {B : Type ι} {H : S → Type μ} {m : Action S A} (R : S → Type ν)
    (f : A → Action S B)
    → Keeps H m
    → ((s : S) → H s → R s)
    → ((a : A) (s : S) → H s → R (f a s).1)
    → (s : S) → H s
    → R ((m >>= f) s).1
unfolding ◌>>=◌
bind_behind {m} R f hm leave go s h = elim (Result-cases (m s).0) [
  | inl (a, r) ↦ rw (r, ◌>>=◌) (go a (m s).1 (Keeps.keeps hm s h))
  | inr (e, r) ↦ rw (r, ◌>>=◌) (leave (m s).1 (Keeps.keeps hm s h))
]

-- What stands behind a success.
pub bind-eq-ok {ℓ κ ι} :
    {S : Type ℓ} {A : Type κ} {B : Type ι} (m : Action S A) (f : A → Action S B) (s : S) {b : B}
    {s2 : S}
    → (m >>= f) s ≡ (ok b, s2)
    → (a : A) × (s1 : S) × (m s ≡ (ok a, s1)) × (f a s1 ≡ (ok b, s2))
unfolding ◌>>=◌
bind-eq-ok m f s e = elim (Result-cases (m s).0) [
  | inl (a, r) ↦ (a, (m s).1, ap (λ x. (x, (m s).1)) r, rw (r, ◌>>=◌) at e)
  | inr (x, r) ↦ cc (rw (r, ◌>>=◌) at e)
]

pub bind-ok {ℓ κ ι} :
    {S : Type ℓ} {A : Type κ} {B : Type ι} (m : Action S A) (f : A → Action S B) (s : S) {a : A}
    {s1 : S}
    → m s ≡ (ok a, s1)
    → (m >>= f) s ≡ f a s1
unfolding ◌>>=◌
bind-ok {S} {B} m f s e =
    λ i. elim (e i).0 as (λ _. Result Error B × S) [ err x ↦ (err x, (e i).1) | ok a ↦ f a (e i).1 ]

pub bind-err {ℓ κ ι} :
    {S : Type ℓ} {A : Type κ} {B : Type ι} (m : Action S A) (f : A → Action S B) (s : S) {x : Error}
    {s1 : S}
    → m s ≡ (err x, s1)
    → (m >>= f) s ≡ (err x, s1)
unfolding ◌>>=◌
bind-err {S} {B} m f s e =
    λ i. elim (e i).0 as (λ _. Result Error B × S) [ err x ↦ (err x, (e i).1) | ok a ↦ f a (e i).1 ]
