-- ===== src/Shared/Dict.antt =====
-- Go maps as association lists in which a key stands once. Iteration goes in list order.
use mathlib.Core.Path.{◌≡◌}
use mathlib.Core.Option.{Option, none, some}
use mathlib.Core.List.{List, [], ◌∷◌}
use native.Mathlib.Omega.{arith}
use remote_hands.Shared.Tests.{Eq, ◌==◌, if◌then◌else◌}

abbrev pub Map {ℓ κ} : Type ℓ → Type κ → Type (ℓ ⊔ κ)
Map K V = List (K × V)

module _ {ℓ κ} {K : Type ℓ} {V : Type κ} ⦃e : Eq K⦄ where
  -- `v, ok := m[k]`
  unfoldable pub lookup : K → Map K V → Option V
  lookup key [] = none
  lookup key ((at, held) ∷ rest) = if key == at then some held else lookup key rest

  -- `m[k] = v`
  unfoldable pub insert : K → V → Map K V → Map K V
  insert key value [] = (key, value) ∷ []
  insert key value ((at, held) ∷ rest) =
      let later = insert key value rest in
      if key == at then (key, value) ∷ rest else (at, held) ∷ later

  -- `delete(m, k)`
  unfoldable pub erase : K → Map K V → Map K V
  erase key [] = []
  erase key ((at, held) ∷ rest) =
      let later = erase key rest in if key == at then later else (at, held) ∷ later

  -- A write is seen under its key and under no other.
  pub lookup-insert :
      (written key : K) (value : V) (m : Map K V)
      → lookup key (insert written value m) ≡ (if written == key then some value else lookup key m)
  unfolding lookup insert
  lookup-insert written key value [] =
      ground (arith, e.same_iff written key, e.same_iff key written)
  lookup-insert written key value ((at, held) ∷ rest) = ground (
    arith,
    e.same_iff written key,
    e.same_iff written at,
    e.same_iff key at,
    e.same_iff key written,
    lookup-insert written key value rest,
  )

  -- A deleted key is gone, and no other.
  pub lookup-erase :
      (gone key : K) (m : Map K V)
      → lookup key (erase gone m) ≡ (if gone == key then none else lookup key m)
  unfolding lookup erase
  lookup-erase gone key [] = ground arith
  lookup-erase gone key ((at, held) ∷ rest) = ground (
    arith,
    e.same_iff gone key,
    e.same_iff gone at,
    e.same_iff key at,
    lookup-erase gone key rest,
  )
