-- ===== src/Tools/Coercion.antt =====
-- mcputils/coerce.go: arguments that a client sends as texts.
use remote_hands.Shared.{
  Bool, ◌&&◌, ◌||◌, List, [], ◌∷◌, Text, codes, text_eq, Option, none, some, Result, err, Error,
  has_prefix, has_suffix, trim_space, if◌then◌else◌,
}

-- `reflect.Kind`, as far as it is told apart; the integers and the floats are the numbers.
pub data Kind : Type 0 where
  slice_kind map_kind struct_kind bool_kind number_kind other_kind : Kind

-- What reflect and encoding/json know: the kind of a type, and `json.Unmarshal` into a new slice of a
-- type, into any value, into a bool and into a `json.Number`.
pub record Decoding : Type 1 where
  pub Target : Type 0
  pub Value : Type 0
  pub kind : Target → Kind
  pub unmarshal_slice : Target → Text → Option Value
  pub unmarshal_any : Text → Option Value
  pub unmarshal_bool : Text → Option Bool
  pub unmarshal_number : Text → Option Text

-- An argument: a text, or another value; and what the hook makes of a text.
pub data Argument (Value : Type 0) : Type 0 where
  raw_text : Text → Argument Value
  value : Value → Argument Value
  truth : Bool → Argument Value
  json_number : Text → Argument Value

-- Whether a text is in brackets or in braces.
unfoldable pub looks_like_json : Text → Bool
unfolding has_prefix has_suffix trim_space
looks_like_json raw =
    let trimmed : Text = trim_space raw in
    has_prefix trimmed (codes "[") && has_suffix trimmed (codes "]")
    || has_prefix trimmed (codes "{") && has_suffix trimmed (codes "}")

-- The argument that a call of `json.Unmarshal` gives, or the text as it was.
abbrev pub or_raw : {V A : Type 0} → Text → (A → Argument V) → Option A → Argument V
or_raw raw wrap none = raw_text raw
or_raw raw wrap (some a) = wrap a

module _ (lib : Decoding) where
  -- The tests on a text that is not empty, by the kind of what it is to become.
  unfoldable pub hook_text : lib.Target → Text → Argument lib.Value
  unfolding looks_like_json text_eq
  hook_text t raw = elim (lib.kind t) [
    | slice_kind ↦
        if looks_like_json raw then or_raw raw value (lib.unmarshal_slice t raw) else raw_text raw
    | map_kind ↦
        if looks_like_json raw then or_raw raw value (lib.unmarshal_any raw) else raw_text raw
    | struct_kind ↦
        if looks_like_json raw then or_raw raw value (lib.unmarshal_any raw) else raw_text raw
    | bool_kind ↦
        if text_eq (trim_space raw) (codes "true") || text_eq (trim_space raw) (codes "false")
        then or_raw raw truth (lib.unmarshal_bool raw)
        else raw_text raw
    | number_kind ↦ or_raw raw json_number (lib.unmarshal_number raw)
    | other_kind ↦ raw_text raw
  ]

  -- jsonStringHook
  unfoldable pub json_string_hook : lib.Target → Argument lib.Value → Argument lib.Value
  unfolding hook_text
  json_string_hook t (raw_text []) = raw_text []
  json_string_hook t (raw_text (c ∷ raw)) = hook_text t (c ∷ raw)
  json_string_hook t a = a

  -- CoerceBindArguments. `duration` and `split` are mapstructure's hooks behind the first one,
  -- `new_decoder` its error
  -- on a new decoder, and `decode` the decoder, on the arguments by name.
  unfoldable pub coerce_bind_arguments :
      {Bound : Type 0}
      → (duration split : lib.Target → Argument lib.Value → Argument lib.Value) → Option Error
      → ((lib.Target → Argument lib.Value → Argument lib.Value)
          → List (Text × Argument lib.Value)
          → Result Error Bound)
      → List (Text × Argument lib.Value)
      → Result Error Bound
  unfolding json_string_hook
  coerce_bind_arguments duration split new_decoder decode args = elim new_decoder [
    | some e ↦ err e
    | none ↦ decode (λ t a. split t (duration t (json_string_hook t a))) args
  ]
