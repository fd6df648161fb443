-- ===== src/Browser/Pressed.antt =====
-- worker/browser.go: what the keys of a combination do.
use remote_hands.Shared.{
  ℕ, ◌≡◌, refl, sym, ap, ◌∙◌, inl, inr, List, [], ◌∷◌, ◌++◌, map, Option, none, some, Text, nat_eq,
  if◌then◌else◌, Option-cases, arith, append_assoc, append-nil, split,
}
use mathlib.Core.List.{reverse, reverse-cons}
use remote_hands.Rod.{Rod, KeyEvent, press, release, type_key}
use remote_hands.Browser.Keys.{
  Modifier, map_modifier_to_key, modifier_keys, combination_keys, key_events,
}

-- The keys that are typed, each with the keys held down, and the keys held down at the end. The
-- last key pressed has to be the first released.
pub play : List KeyEvent → List ℕ → Option (List (ℕ × List ℕ) × List ℕ)
play [] held = some ([], held)
play (press k ∷ events) held = play events (k ∷ held)
play (type_key k ∷ events) held = elim (play events held) [
  | none ↦ none
  | some (typed, left) ↦ some ((k, held) ∷ typed, left)
]
play (release k ∷ events) [] = none
play (release k ∷ events) (h ∷ held) =
    let rest = play events held in if nat_eq k h then rest else none

play-press :
    (ks : List ℕ) (events : List KeyEvent) (held : List ℕ)
    → play (map press ks ++ events) held ≡ play events (reverse ks ++ held)
unfolding play
play-press [] events held = refl
play-press (k ∷ ks) events held =
    play-press ks events (k ∷ held)
    ∙ ap (play events) (sym (rw (reverse-cons k ks) (append_assoc (reverse ks) (k ∷ []) held)))

play-type_key :
    (ks : List ℕ) (events : List KeyEvent) (held left : List ℕ)
    → play events held ≡ some ([], left)
    → play (map type_key ks ++ events) held ≡ some (map (λ k. (k, held)) ks, left)
unfolding play
play-type_key [] events held left h = h
play-type_key (k ∷ ks) events held left h = rw (play-type_key ks events held left h) refl

play-release : (ks : List ℕ) → play (map release ks) ks ≡ some ([], [])
unfolding play
play-release [] = refl
play-release (k ∷ ks) = ground (arith, play-release ks)

module _ (rod : Rod) where
  modifier_keys-append :
      (ms ns : List Modifier)
      → modifier_keys rod (ms ++ ns) ≡ modifier_keys rod ms ++ modifier_keys rod ns
  unfolding modifier_keys
  modifier_keys-append [] ns = refl
  modifier_keys-append (m ∷ ms) ns = ground (arith, modifier_keys-append ms ns)

  modifier_keys-cons :
      (m : Modifier) (ms : List Modifier)
      → reverse (modifier_keys rod ms) ++ modifier_keys rod (m ∷ [])
        ≡ reverse (modifier_keys rod (m ∷ ms))
  unfolding modifier_keys
  modifier_keys-cons m ms = ground (
    arith,
    reverse-cons (map_modifier_to_key rod m) (modifier_keys rod ms),
    append-nil (reverse (modifier_keys rod ms)),
  )

  modifier_keys-reverse :
      (ms : List Modifier) → modifier_keys rod (reverse ms) ≡ reverse (modifier_keys rod ms)
  unfolding modifier_keys
  modifier_keys-reverse [] = refl
  modifier_keys-reverse (m ∷ ms) =
      ap (modifier_keys rod) (reverse-cons m ms)
      ∙ modifier_keys-append (reverse ms) (m ∷ [])
      ∙ ap (λ ks. ks ++ modifier_keys rod (m ∷ [])) (modifier_keys-reverse ms)
      ∙ modifier_keys-cons m ms

  -- The events that a combination queues: each part's key is typed in turn while exactly the keys of
  -- the action's modifiers are held, and every key that is pressed is released, the last first. No
  -- part of the combination is held while another is typed.
  pub key_events-play :
      (ms : List Modifier) (name : Text) (events : List KeyEvent)
      → key_events rod ms name ≡ some events
      → (ks : List ℕ) × (combination_keys rod (split b'+' name) ≡ some ks)
        × (play events [] ≡ some (map (λ k. (k, reverse (modifier_keys rod ms))) ks, []))
  unfolding key_events
  key_events-play ms name events h = elim (Option-cases (combination_keys rod (split b'+' name))) [
    | inl o ↦ cc (rw (o, key_events) at h)
    | inr (ks, o) ↦
        let mods : List ℕ = modifier_keys rod ms in
        let typed : List KeyEvent =
          map type_key ks ++ map release (modifier_keys rod (reverse ms)) in
        let same : map press mods ++ typed ≡ events = cc (rw (o, key_events) at h) in
        (
          ks,
          o,
          ap (λ l. play l []) (sym same)
              ∙ play-press mods typed []
              ∙ ap (play typed) (append-nil (reverse mods))
              ∙ play-type_key ks _ (reverse mods) []
                  (rw (modifier_keys-reverse ms) (play-release (reverse mods))),
        )
  ]
