-- ===== src/Browser/Client.antt =====
-- mcptools/direct_ops.go: how an agent's browser actions become those of the service. Names are
-- compared in lower case; `strings.ToLower` is a parameter.
pub mod Named
use remote_hands.Shared.{
  Bool, List, [], ◌∷◌, Text, codes, text_eq, Option, none, some, ℤ, pos, zero, is_empty,
  if◌then◌else◌, map, All, ◌≡◌,
}
use remote_hands.Rod.{Rod}
use remote_hands.Browser.Screenshot.{ScreenshotFormat, png, jpeg, webp}
use remote_hands.Browser.Snapshot.{SnapshotType, unspecified_type, dom, accessibility}
use remote_hands.Browser.Keys.{Modifier, no_modifier, alt, control, meta, shift}
use remote_hands.Browser.Waiting.{
  WaitForState, unspecified_state, visible, hidden, attached, detached,
}
use remote_hands.Browser.Acting.{
  ActionType, click, fill, type_text, press_key, select_option, check, uncheck, hover, scroll,
  focus, evaluate, wait_for, unknown, MouseButton, unspecified_button, left_button, right_button,
  middle_button, BrowserAction,
}

-- A switch on a name, with its default.
unfoldable pub switch {ℓ} : {A : Type ℓ} → List (Text × A) → A → Text → A
unfolding text_eq
switch [] default name = default
switch ((case_name, a) ∷ cases) default name =
    if text_eq name case_name then a else switch cases default name

abbrev pub screenshot_formats : List (Text × ScreenshotFormat)
screenshot_formats =
    (codes "png", png) ∷ (codes "jpeg", jpeg) ∷ (codes "jpg", jpeg) ∷ (codes "webp", webp) ∷ []

abbrev pub snapshot_types : List (Text × SnapshotType)
snapshot_types = (codes "dom", dom) ∷ (codes "accessibility", accessibility) ∷ []

abbrev pub action_types : List (Text × ActionType)
action_types =
    (codes "click", click)
    ∷ (codes "fill", fill)
    ∷ (codes "type", type_text)
    ∷ (codes "press", press_key)
    ∷ (codes "select_option", select_option)
    ∷ (codes "check", check)
    ∷ (codes "uncheck", uncheck)
    ∷ (codes "hover", hover)
    ∷ (codes "scroll", scroll)
    ∷ (codes "focus", focus)
    ∷ (codes "evaluate", evaluate)
    ∷ (codes "wait_for_selector", wait_for)
    ∷ []

abbrev pub mouse_buttons : List (Text × MouseButton)
mouse_buttons =
    (codes "left", left_button)
    ∷ (codes "right", right_button)
    ∷ (codes "middle", middle_button)
    ∷ []

abbrev pub modifier_names : List (Text × Modifier)
modifier_names =
    (codes "alt", alt)
    ∷ (codes "control", control)
    ∷ (codes "meta", meta)
    ∷ (codes "shift", shift)
    ∷ []

abbrev pub wait_states : List (Text × WaitForState)
wait_states =
    (codes "visible", visible)
    ∷ (codes "hidden", hidden)
    ∷ (codes "attached", attached)
    ∷ (codes "detached", detached)
    ∷ []

-- Go's zero value of a field is an absent one.
abbrev pub unless_empty {ℓ} : {A : Type ℓ} → Text → A → Option A
unless_empty name a = if is_empty name then none else some a

abbrev pub unless_zero : ℤ → Option ℤ
unless_zero (pos zero) = none
unless_zero n = some n

module _ (to_lower : Text → Text) where
  -- parseScreenshotFormatWorker
  unfoldable pub parse_screenshot_format : Text → ScreenshotFormat
  unfolding switch
  parse_screenshot_format format = switch screenshot_formats png (to_lower format)

  -- parseSnapshotTypeWorker
  unfoldable pub parse_snapshot_type : Text → SnapshotType
  unfolding switch
  parse_snapshot_type t = switch snapshot_types unspecified_type (to_lower t)

  -- parseActionTypeWorker
  unfoldable pub parse_action_type : Text → ActionType
  unfolding switch
  parse_action_type t = switch action_types unknown (to_lower t)

  -- parseMouseButtonWorker
  unfoldable pub parse_mouse_button : Text → MouseButton
  unfolding switch
  parse_mouse_button b = switch mouse_buttons unspecified_button (to_lower b)

  -- parseModifierWorker
  unfoldable pub parse_modifier : Text → Modifier
  unfolding switch
  parse_modifier m = switch modifier_names no_modifier (to_lower m)

  -- parseWaitStateWorker
  unfoldable pub parse_wait_state : Text → WaitForState
  unfolding switch
  parse_wait_state s = switch wait_states unspecified_state (to_lower s)

  module _ (rod : Rod) (no_offset : rod.Offset → Bool) where
    -- The BrowserAction of mcptools. A distance of 0 is recognised by `no_offset`.
    pub record AgentAction : Type 0 where
      pub action_type : Text
      pub selector : Text
      pub value : Text
      pub delay_ms : ℤ
      pub values : List Text
      pub button : Text
      pub click_count : ℤ
      pub modifiers : List Text
      pub scroll_x : rod.Offset
      pub scroll_y : rod.Offset
      pub wait_state : Text
      pub timeout_ms : ℤ

    abbrev unless_nowhere : rod.Offset → Option rod.Offset
    unless_nowhere d = if no_offset d then none else some d

    -- convertBrowserActionToWorker
    unfoldable pub convert_browser_action : AgentAction → BrowserAction rod
    unfolding parse_action_type parse_mouse_button parse_modifier parse_wait_state
    convert_browser_action a = record {
      action_type = parse_action_type a.action_type;
      selector = unless_empty a.selector a.selector;
      value = unless_empty a.value a.value;
      values = a.values;
      button = unless_empty a.button (parse_mouse_button a.button);
      click_count = unless_zero a.click_count;
      modifiers = map parse_modifier a.modifiers;
      delay_ms = unless_zero a.delay_ms;
      scroll_x = unless_nowhere a.scroll_x;
      scroll_y = unless_nowhere a.scroll_y;
      timeout_ms = unless_zero a.timeout_ms;
      wait_state = unless_empty a.wait_state (parse_wait_state a.wait_state);
    }
