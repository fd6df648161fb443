-- ===== src/Browser/Client/Named.antt =====
-- mcptools/direct_ops.go: the names that the switch on a type of action tells apart.
use remote_hands.Shared.{
  ◌≡◌, ◌≢◌, ◌↔◌, refl, sym, ap, ◌∙◌, List, [], ◌∷◌, Text, codes, text_eq, text_eq_iff, inl, inr,
  Bool-cases, All,
}
use remote_hands.Browser.Acting.{
  ActionType, click, fill, type_text, press_key, select_option, check, uncheck, hover, scroll,
  focus, evaluate, wait_for, unknown,
}
use remote_hands.Browser.Client.{switch, action_types, parse_action_type}

-- The documented name of a type of action.
abbrev pub action_name : ActionType → Text
action_name click = codes "click"
action_name fill = codes "fill"
action_name type_text = codes "type"
action_name press_key = codes "press"
action_name select_option = codes "select_option"
action_name check = codes "check"
action_name uncheck = codes "uncheck"
action_name hover = codes "hover"
action_name scroll = codes "scroll"
action_name focus = codes "focus"
action_name evaluate = codes "evaluate"
action_name wait_for = codes "wait_for_selector"
action_name unknown = []

action_types_named : All (λ c. c.0 ≡ action_name c.1) action_types
action_types_named = (
  refl,
  (refl, (refl, (refl, (refl, (refl, (refl, (refl, (refl, (refl, (refl, (refl, tt))))))))))),
)

-- A switch that does not come to its default has read a name of its answer.
switch_named {ℓ} :
    {A : Type ℓ} (label : A → Text) (default : A) (name : Text) (cases : List (Text × A))
    → All (λ c. c.0 ≡ label c.1) cases
    → switch cases default name ≢ default
    → name ≡ label (switch cases default name)
unfolding switch
switch_named label default name [] all n = absurd (n refl)
switch_named label default name ((case_name, a) ∷ cases) (here, later) n =
    elim (Bool-cases (text_eq name case_name)) [
      | inl h ↦ let same = (text_eq_iff name case_name).0 h in rw h (same ∙ here)
      | inr h ↦
          let rest = switch_named label default name cases later in rw h (rest (λ e. n (rw h e)))
    ]

read_name : (a : ActionType) → a ≢ unknown → switch action_types unknown (action_name a) ≡ a
unfolding switch text_eq
read_name click known = refl
read_name fill known = refl
read_name type_text known = refl
read_name press_key known = refl
read_name select_option known = refl
read_name check known = refl
read_name uncheck known = refl
read_name hover known = refl
read_name scroll known = refl
read_name focus known = refl
read_name evaluate known = refl
read_name wait_for known = refl
read_name unknown known = absurd (known refl)

module _ (to_lower : Text → Text) where
  -- An agent's name for a type of action is read as a known type exactly when it is that type's
  -- name in lower case; every other name is passed on as the unspecified type.
  pub parse_action_type_iff :
      (t : Text) (a : ActionType)
      → a ≢ unknown
      → (parse_action_type to_lower t ≡ a) ↔ (to_lower t ≡ action_name a)
  unfolding parse_action_type
  parse_action_type_iff t a known = (
    (λ e.
        switch_named action_name unknown (to_lower t) action_types action_types_named
          (λ u. known (sym e ∙ u))
        ∙ ap action_name e),
    (λ e. ap (switch action_types unknown) e ∙ read_name a known),
  )
