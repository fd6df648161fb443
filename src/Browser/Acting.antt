-- ===== src/Browser/Acting.antt =====
-- worker/browser.go: the actions on a page.
use remote_hands.Shared.{
  ℕ, Bool, true, false, ◌||◌, not, List, [], ◌∷◌, ◌++◌, Option, none, some, Text, codes, nat_eq,
  length, replicate, is_empty, if◌then◌else◌, has_prefix, contains, split, trim_space, Result, ok,
  err, Error, plain, ℤ,
}
use remote_hands.Action.{pure, fail, ◌>>=◌, ◌>>◌}
use remote_hands.Rod.{Rod, Button, left, right, middle}
use remote_hands.Browser.{Method, browse, observe, outcome, when_running, current_page, named}
use remote_hands.Browser.Selector.{find_element}
use remote_hands.Browser.Keys.{Modifier, key_events, runes, map_rune_to_key}
use remote_hands.Browser.Waiting.{WaitForState, wait_for_selector, positive_or}

-- `remotehandsv1.BrowserActionType`
pub data ActionType : Type 0 where
  click fill type_text press_key select_option check uncheck hover scroll focus evaluate wait_for
        unknown :
      ActionType

-- `remotehandsv1.MouseButton`
pub data MouseButton : Type 0 where
  unspecified_button left_button right_button middle_button : MouseButton

-- `remotehandsv1.BrowserActionResult`, with an error in place of its text.
pub record ActionResult : Type 0 where
  pub success : Bool
  pub value : Option Text
  pub error : Option Error

abbrev pub skipped_result : ActionResult
skipped_result = record {
  success = false;
  value = none;
  error = some (plain "skipped due to previous error");
}

-- actionSuccess and actionError.
abbrev pub action_result : Result Error (Option Text) → ActionResult
action_result (ok v) = record { success = true; value = v; error = none }
action_result (err e) = record { success = false; value = none; error = some e }

abbrev pub rod_button : Option MouseButton → Button
rod_button (some right_button) = right
rod_button (some middle_button) = middle
rod_button _ = left

abbrev pub first_line : List Text → Text
first_line [] = []
first_line (line ∷ _) = line

-- isJSFunction
unfoldable pub is_js_function : Text → Bool
unfolding trim_space has_prefix contains split
is_js_function js =
    let trimmed : Text = trim_space js in
    has_prefix trimmed (codes "function")
    || (has_prefix trimmed (codes "(")
        || (has_prefix trimmed (codes "async")
            || contains (first_line (split 10 trimmed)) (codes "=>")))

-- An expression becomes the body of a function.
unfoldable pub js_to_run : Text → Text
unfolding is_js_function
js_to_run js = if is_js_function js then js else codes "() => { return (" ++ (js ++ codes "); }")

module _ (rod : Rod) where
  -- `remotehandsv1.BrowserAction`
  pub record BrowserAction : Type 0 where
    pub action_type : ActionType
    pub selector : Option Text
    pub value : Option Text
    pub values : List Text
    pub button : Option MouseButton
    pub click_count : Option ℤ
    pub modifiers : List Modifier
    pub delay_ms : Option ℤ
    pub scroll_x : Option rod.Offset
    pub scroll_y : Option rod.Offset
    pub timeout_ms : Option ℤ
    pub wait_state : Option WaitForState

  -- requireSelector
  unfoldable pub require_selector : BrowserAction → Method rod Text
  require_selector a =
      if is_empty (named a.selector)
      then fail (plain "selector is required for %v")
      else pure (named a.selector)

  -- The element that an action names.
  unfoldable pub target_element : rod.Page → BrowserAction → Method rod rod.Element
  target_element page a = require_selector a >>= find_element rod page

  -- A last call of Rod, which gives no value.
  unfoldable pub finish :
      (rod.World → Option (Unit {0}) × rod.World) → Error → Method rod (Option Text)
  finish call e = browse rod call e >> pure none

  unfoldable pub action_click : rod.Page → BrowserAction → Method rod (Option Text)
  action_click page a = do
    el ← target_element page a
    finish (rod.click el (rod_button a.button) (positive_or 1 a.click_count)) (plain "click: %w")

  unfoldable pub action_fill : rod.Page → BrowserAction → Method rod (Option Text)
  action_fill page a = do
    el ← target_element page a
    browse rod (rod.select_all_text el) (plain "fill select-all: %w")
    finish (rod.input el (named a.value)) (plain "fill input: %w")

  -- A rune is typed as its key, or put in as it is; then the delay passes.
  unfoldable pub type_rune : rod.Element → Text → Method rod (Unit {0})
  type_rune el r =
      if nat_eq (map_rune_to_key rod r) 0
      then browse rod (rod.input el r) (plain "type char %q: %w")
      else browse rod (rod.type_one el (map_rune_to_key rod r)) (plain "type key %q: %w")

  unfoldable pub type_runes : rod.Element → ℕ → List Text → Method rod (Option Text)
  type_runes el delay [] = pure none
  type_runes el delay (r ∷ rs) =
      let rest = type_runes el delay rs in
      type_rune el r >> (observe rod (rod.pause delay) >>= λ _. rest)

  unfoldable pub action_type_text : rod.Page → BrowserAction → Method rod (Option Text)
  action_type_text page a = do
    el ← target_element page a
    (if nat_eq (positive_or 0 a.delay_ms) 0
        then finish (rod.input el (named a.value)) (plain "type: %w")
        else type_runes el (positive_or 0 a.delay_ms) (runes (named a.value)))

  -- actionPress. No key is pressed unless every part of the combination names one.
  unfoldable pub action_press : rod.Page → BrowserAction → Method rod (Option Text)
  action_press page a =
      if is_empty (named a.value)
      then fail (plain "key name is required for PRESS")
      else elim (key_events rod a.modifiers (named a.value)) [
        | none ↦ fail (plain "unknown key %q")
        | some events ↦ finish (rod.do_keys page events) (plain "press: %w")
      ]

  unfoldable pub action_select_option : rod.Page → BrowserAction → Method rod (Option Text)
  action_select_option page a = do
    el ← target_element page a
    finish (rod.select el a.values) (plain "select option: %w")

  -- actionCheck and actionUncheck are this with `true` and `false`.
  unfoldable pub set_checked : rod.Page → BrowserAction → Bool → Method rod (Option Text)
  set_checked page a want = do
    el ← target_element page a
    is_checked ← browse rod (rod.checked el) (plain "get checked property: %w")
    (if (if is_checked then want else not want)
        then pure none
        else finish (rod.click el left 1) (plain "toggle checked: %w"))

  unfoldable pub action_hover : rod.Page → BrowserAction → Method rod (Option Text)
  action_hover page a = do el ← target_element page a; finish (rod.hover el) (plain "hover: %w")

  abbrev pub or_nowhere : Option rod.Offset → rod.Offset
  or_nowhere none = rod.nowhere
  or_nowhere (some d) = d

  unfoldable pub action_scroll : rod.Page → BrowserAction → Method rod (Option Text)
  action_scroll page a =
      if is_empty (named a.selector)
      then finish (rod.scroll page (or_nowhere a.scroll_x) (or_nowhere a.scroll_y))
          (plain "scroll: %w")
      else (do
        el ← find_element rod page (named a.selector)
        finish (rod.scroll_into_view el) (plain "scroll into view: %w"))

  unfoldable pub action_focus : rod.Page → BrowserAction → Method rod (Option Text)
  action_focus page a = do el ← target_element page a; finish (rod.focus el) (plain "focus: %w")

  unfoldable pub action_evaluate : rod.Page → BrowserAction → Method rod (Option Text)
  action_evaluate page a =
      if is_empty (named a.value)
      then fail (plain "JavaScript expression is required for EVALUATE")
      else (do
        json ← browse rod (rod.eval page (js_to_run (named a.value))) (plain "evaluate: %w")
        pure (some json))

  -- executeAction
  unfoldable pub execute_action : ActionType → rod.Page → BrowserAction → Method rod (Option Text)
  execute_action click page a = action_click page a
  execute_action fill page a = action_fill page a
  execute_action type_text page a = action_type_text page a
  execute_action press_key page a = action_press page a
  execute_action select_option page a = action_select_option page a
  execute_action check page a = set_checked page a true
  execute_action uncheck page a = set_checked page a false
  execute_action hover page a = action_hover page a
  execute_action scroll page a = action_scroll page a
  execute_action focus page a = action_focus page a
  execute_action evaluate page a = action_evaluate page a
  execute_action wait_for page a =
      require_selector a >>= wait_for_selector rod page a.timeout_ms a.wait_state
  execute_action unknown page a = fail (plain "unknown action type: %v")

  -- The results from an action on, with those of the actions behind it as an operation.
  unfoldable pub results_from :
      ℕ
      → Method rod (List ActionResult)
      → Result Error (Option Text)
      → Method rod (List ActionResult)
  results_from behind rest (ok v) = do results ← rest; pure (action_result (ok v) ∷ results)
  results_from behind rest (err e) = pure (action_result (err e) ∷ replicate behind skipped_result)

  -- The loop of Act. The actions behind a failed one are skipped.
  unfoldable pub act_all : rod.Page → List BrowserAction → Method rod (List ActionResult)
  act_all page [] = pure []
  act_all page (a ∷ rest) =
      outcome rod (execute_action a.action_type page a)
      >>= results_from (length rest) (act_all page rest)

  -- Act
  unfoldable pub act : Option Text → List BrowserAction → Method rod (List ActionResult)
  act page_id actions = when_running rod (do page ← current_page rod page_id; act_all page actions)
