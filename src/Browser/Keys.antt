-- ===== src/Browser/Keys.antt =====
-- worker/browser.go: keys, and the runes of a text that is typed.
use remote_hands.Shared.{
  ℕ, zero, suc, ◌+◌, ◌-◌, Bool, true, false, ◌&&◌, ◌||◌, List, [], ◌∷◌, ◌++◌, map, Option, none,
  some, Text, Text_eq, codes, nat_eq, text_eq, Map, lookup, leb, ltb, take, if◌then◌else◌, split,
  trim_space, String,
}
use mathlib.Core.List.{reverse}
use remote_hands.Rod.{Rod, KeyEvent, press, release, type_key}

-- `remotehandsv1.Modifier`
pub data Modifier : Type 0 where
  no_modifier alt control meta shift : Modifier

-- How many continuation bytes a lead byte has, and the range of the first one (package unicode/utf8).
-- None for ASCII and for a byte that leads nothing.
abbrev pub continuation : ℕ → ℕ × ℕ × ℕ
continuation c =
    if leb 0xC2 c && leb c 0xDF
    then (1, 0x80, 0xBF)
    else if nat_eq c 0xE0
    then (2, 0xA0, 0xBF)
    else if nat_eq c 0xED
    then (2, 0x80, 0x9F)
    else if leb 0xE1 c && leb c 0xEF
    then (2, 0x80, 0xBF)
    else if nat_eq c 0xF0
    then (3, 0x90, 0xBF)
    else if leb 0xF1 c && leb c 0xF3
    then (3, 0x80, 0xBF)
    else if nat_eq c 0xF4
    then (3, 0x80, 0x8F)
    else (0, 0, 0)

abbrev pub continues : ℕ → ℕ → ℕ → Text → Bool
continues zero lo hi s = true
continues (suc n) lo hi [] = false
continues (suc n) lo hi (c ∷ s) = leb lo c && leb c hi && continues n 0x80 0xBF s

-- The width of the first rune, and whether it is valid.
unfoldable pub rune_width : ℕ → Text → ℕ × Bool
rune_width c s =
    let (n, lo, hi) = continuation c in
    if ltb c 0x80
    then (1, true)
    else if nat_eq n 0
    then (1, false)
    else if continues n lo hi s
    then (suc n, true)
    else (1, false)

-- `range text`: the runes, each as `string(ch)`. A byte that is not UTF-8 becomes U+FFFD.
unfoldable pub runes_from : ℕ → Text → List Text
unfolding rune_width
runes_from skip [] = []
runes_from (suc skip) (c ∷ s) = runes_from skip s
runes_from zero (c ∷ s) =
    let (width, valid) = rune_width c s in
    (if valid then take width (c ∷ s) else (0xEF ∷ 0xBF ∷ 0xBD ∷ [])) ∷ runes_from (width - 1) s

unfoldable pub runes : Text → List Text
unfolding runes_from
runes = runes_from 0

module _ (rod : Rod) where
  -- mapModifierToKey
  unfoldable pub map_modifier_to_key : Modifier → ℕ
  map_modifier_to_key alt = rod.key (codes "AltLeft")
  map_modifier_to_key control = rod.key (codes "ControlLeft")
  map_modifier_to_key meta = rod.key (codes "MetaLeft")
  map_modifier_to_key shift = rod.key (codes "ShiftLeft")
  map_modifier_to_key no_modifier = 0

  -- mapRuneToKey, on the rune's bytes: only ASCII has keys.
  unfoldable pub map_rune_to_key : Text → ℕ
  map_rune_to_key (c ∷ []) =
      if leb b'a' c && leb c b'z'
      then rod.key (codes "KeyA") + (c - b'a')
      else if leb b'A' c && leb c b'Z'
      then rod.key (codes "KeyA") + (c - b'A')
      else if leb b'0' c && leb c b'9'
      then rod.key (codes "Digit0") + (c - b'0')
      else if nat_eq c 32
      then rod.key (codes "Space")
      else if nat_eq c 9
      then rod.key (codes "Tab")
      else if nat_eq c 13 || nat_eq c 10
      then rod.key (codes "Enter")
      else 0
  map_rune_to_key _ = 0

  abbrev pub its_own : String → Text × ℕ
  its_own name = (codes name, rod.key (codes name))

  -- keyNameMap
  unfoldable pub key_name_map : Map Text ℕ
  key_name_map =
      map its_own (
        "Backspace" ∷ "Tab" ∷ "Enter" ∷ "Escape" ∷ "Delete" ∷ "Insert" ∷ "Home" ∷ "End" ∷ "PageUp"
        ∷ "PageDown" ∷ "ArrowUp" ∷ "ArrowDown" ∷ "ArrowLeft" ∷ "ArrowRight" ∷ "Space" ∷ "ShiftLeft"
        ∷ "ShiftRight" ∷ "CapsLock" ∷ "F1" ∷ "F2" ∷ "F3" ∷ "F4" ∷ "F5" ∷ "F6" ∷ "F7" ∷ "F8" ∷ "F9"
        ∷ "F10" ∷ "F11" ∷ "F12" ∷ [])
      ++ (codes "Shift", rod.key (codes "ShiftLeft"))
        ∷ (codes "Control", rod.key (codes "ControlLeft"))
        ∷ (codes "Alt", rod.key (codes "AltLeft"))
        ∷ (codes "Meta", rod.key (codes "MetaLeft"))
        ∷ []

  abbrev pub one_rune : List Text → ℕ
  one_rune (r ∷ []) = map_rune_to_key r
  one_rune _ = 0

  -- mapKeyName
  unfoldable pub map_key_name : Text → ℕ
  unfolding key_name_map runes lookup text_eq map_rune_to_key
  map_key_name name = elim (lookup name key_name_map) [ some k ↦ k | none ↦ one_rune (runes name) ]

  -- The keys of the modifiers that have one.
  unfoldable pub modifier_keys : List Modifier → List ℕ
  unfolding map_modifier_to_key
  modifier_keys [] = []
  modifier_keys (m ∷ ms) =
      let rest = modifier_keys ms in
      if nat_eq (map_modifier_to_key m) 0 then rest else map_modifier_to_key m ∷ rest

  -- The keys of a combination, or none if a part names no key.
  unfoldable pub combination_keys : List Text → Option (List ℕ)
  unfolding map_key_name trim_space
  combination_keys [] = some []
  combination_keys (part ∷ parts) = elim (nat_eq (map_key_name (trim_space part)) 0) [
    | true ↦ none
    | false ↦ elim (combination_keys parts) [
      | none ↦ none
      | some ks ↦ some (map_key_name (trim_space part) ∷ ks)
    ]
  ]

  -- What actionPress queues: the modifiers are held while the keys are typed one after the other.
  unfoldable pub key_events : List Modifier → Text → Option (List KeyEvent)
  unfolding modifier_keys combination_keys split
  key_events modifiers name = elim (combination_keys (split b'+' name)) [
    | none ↦ none
    | some ks ↦ some (
        map press (modifier_keys modifiers)
        ++ (map type_key ks ++ map release (modifier_keys (reverse modifiers))))
  ]
