-- ===== src/Shared/Splits.antt =====
-- `strings.Split` and `strings.Join` undo one another.
use mathlib.Core.List.{List, [], ◌∷◌, ◌++◌, append-nil, append_assoc}
use Prim.Native.Nat.{ℕ}
use mathlib.Core.Path.{◌≡◌, ap, ◌∙◌}
use mathlib.Core.Logic.{◌≢◌}
use native.Mathlib.Omega.{arith}
use remote_hands.Shared.Tests.{nat_eq, Bool-cases}
use remote_hands.Shared.Lists.{All, All-append}
use remote_hands.Shared.Bytes.{Text, split, split_from, join}
use mathlib.Core.Logic.{inl, inr}

-- The byte does not occur.
abbrev pub Lacks : ℕ → Text → Type 0
Lacks sep = All (λ c. c ≢ sep)

module _ (sep : ℕ) where
  pub split_from-append :
      (p cur rest : Text)
      → Lacks sep p
      → split_from sep cur (p ++ rest) ≡ split_from sep (cur ++ p) rest
  unfolding split_from
  split_from-append [] cur rest h = rw append-nil
  split_from-append (c ∷ p) cur rest h =
      ground (arith, split_from-append p (cur ++ c ∷ []) rest, append_assoc cur (c ∷ []) p)

  pub split_from-sep : (cur s : Text) → split_from sep cur (sep ∷ s) ≡ cur ∷ split_from sep [] s
  unfolding split_from
  split_from-sep cur s = ground arith

  pub split_from_end : (p cur : Text) → Lacks sep p → split_from sep cur p ≡ (cur ++ p) ∷ []
  unfolding split_from
  split_from_end [] cur h = rw append-nil
  split_from_end (c ∷ p) cur h =
      ground (arith, split_from_end p (cur ++ c ∷ []), append_assoc cur (c ∷ []) p)

  -- No part of a split holds the separator.
  pub split_from-Lacks : (s cur : Text) → Lacks sep cur → All (Lacks sep) (split_from sep cur s)
  unfolding split_from
  split_from-Lacks [] cur h = (h, tt)
  split_from-Lacks (c ∷ s) cur h = elim (Bool-cases (nat_eq c sep)) [
    | inl e ↦ rw e (h, split_from-Lacks s [] tt)
    | inr e ↦ rw e (split_from-Lacks s (cur ++ c ∷ []) (All-append _ cur (c ∷ []) h (ground arith)))
  ]

  -- Splitting a join gives the parts back, if there is one and none holds the separator.
  pub split-join :
      (p : Text) (ps : List Text)
      → All (Lacks sep) (p ∷ ps)
      → split sep (join sep (p ∷ ps)) ≡ p ∷ ps
  unfolding split join
  split-join p [] h = split_from_end p [] h.0
  split-join p (q ∷ ps) h =
      split_from-append p [] (sep ∷ join sep (q ∷ ps)) h.0
      ∙ split_from-sep p (join sep (q ∷ ps))
      ∙ ap (λ t. p ∷ t) (split-join q ps h.1)
