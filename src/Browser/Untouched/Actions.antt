-- ===== src/Browser/Untouched/Actions.antt =====
-- The actions of worker/browser.go leave the manager alone.
use remote_hands.Shared.{
  ℕ, Bool, true, false, List, [], ◌∷◌, Option, none, Text, Result, ok, err, Error, length, is_empty,
}
use remote_hands.Action.{Keeps, pure-Keeps, fail-Keeps, if-Keeps, bind-Keeps}
use remote_hands.Rod.{Rod}
use remote_hands.Browser.{Session, Method, named}
use remote_hands.Browser.Rules.{Blind, observe-Keeps, outcome-Keeps, option-Keeps}
use remote_hands.Browser.Untouched.{blind_rules, find_element-Keeps, wait_for_selector-Keeps}
use remote_hands.Browser.Keys.{key_events}
use remote_hands.Browser.Acting

module _ {ℓ} (rod : Rod) (Q : Session rod → Type ℓ) (blind : Blind rod Q) where
  require_selector-Keeps : (a : Acting.BrowserAction rod) → Keeps Q (Acting.require_selector rod a)
  unfolding Acting.require_selector
  require_selector-Keeps a = search blind_rules

  target_element-Keeps :
      (page : rod.Page) (a : Acting.BrowserAction rod) → Keeps Q (Acting.target_element rod page a)
  unfolding Acting.target_element
  target_element-Keeps page a = search (blind_rules, require_selector-Keeps, find_element-Keeps)

  finish-Keeps :
      (call : rod.World → Option (Unit {0}) × rod.World) (e : Error)
      → Keeps Q (Acting.finish rod call e)
  unfolding Acting.finish
  finish-Keeps call e = search blind_rules

  ruleset acting_rules = (target_element-Keeps, finish-Keeps, blind_rules)

  type_rune-Keeps : (el : rod.Element) (r : Text) → Keeps Q (Acting.type_rune rod el r)
  unfolding Acting.type_rune
  type_rune-Keeps el r = search blind_rules

  type_runes-Keeps :
      (el : rod.Element) (delay : ℕ) (rs : List Text) → Keeps Q (Acting.type_runes rod el delay rs)
  unfolding Acting.type_runes
  type_runes-Keeps el delay [] = pure-Keeps Q none
  type_runes-Keeps el delay (r ∷ rs) = bind-Keeps Q (type_rune-Keeps el r) (λ u.
      bind-Keeps Q (observe-Keeps rod Q blind (rod.pause delay))
        (λ v. type_runes-Keeps el delay rs))

  action_press-Keeps :
      (page : rod.Page) (a : Acting.BrowserAction rod) → Keeps Q (Acting.action_press rod page a)
  unfolding Acting.action_press
  action_press-Keeps page a = if-Keeps Q (is_empty (named a.value)) (fail-Keeps Q _) (
      option-Keeps rod Q blind (key_events rod a.modifiers (named a.value)) (fail-Keeps Q _)
        (λ events. finish-Keeps (rod.do_keys page events) _))

  set_checked-Keeps :
      (page : rod.Page) (a : Acting.BrowserAction rod) (want : Bool)
      → Keeps Q (Acting.set_checked rod page a want)
  unfolding Acting.set_checked
  set_checked-Keeps page a want = search acting_rules

  pub execute_action-Keeps :
      (t : Acting.ActionType) (page : rod.Page) (a : Acting.BrowserAction rod)
      → Keeps Q (Acting.execute_action rod t page a)
  unfolding Acting.execute_action Acting.action_click Acting.action_fill Acting.action_type_text
      Acting.action_select_option Acting.action_hover Acting.action_scroll Acting.action_focus
      Acting.action_evaluate
  execute_action-Keeps Acting.click page a = search acting_rules
  execute_action-Keeps Acting.fill page a = search acting_rules
  execute_action-Keeps Acting.type_text page a = search (acting_rules, type_runes-Keeps)
  execute_action-Keeps Acting.press_key page a = action_press-Keeps page a
  execute_action-Keeps Acting.select_option page a = search acting_rules
  execute_action-Keeps Acting.check page a = set_checked-Keeps page a true
  execute_action-Keeps Acting.uncheck page a = set_checked-Keeps page a false
  execute_action-Keeps Acting.hover page a = search acting_rules
  execute_action-Keeps Acting.scroll page a = search (acting_rules, find_element-Keeps)
  execute_action-Keeps Acting.focus page a = search acting_rules
  execute_action-Keeps Acting.evaluate page a = search acting_rules
  execute_action-Keeps Acting.wait_for page a =
      bind-Keeps Q (require_selector-Keeps a) (wait_for_selector-Keeps rod Q blind page _ _)
  execute_action-Keeps Acting.unknown page a = fail-Keeps Q _

  results_from-Keeps :
      (behind : ℕ) {rest : Method rod (List Acting.ActionResult)} (r : Result Error (Option Text))
      → Keeps Q rest
      → Keeps Q (Acting.results_from rod behind rest r)
  unfolding Acting.results_from
  results_from-Keeps behind (ok v) h = search blind_rules
  results_from-Keeps behind (err e) h = pure-Keeps Q _

  pub act_all-Keeps :
      (page : rod.Page) (actions : List (Acting.BrowserAction rod))
      → Keeps Q (Acting.act_all rod page actions)
  unfolding Acting.act_all
  act_all-Keeps page [] = pure-Keeps Q []
  act_all-Keeps page (a ∷ rest) =
      bind-Keeps Q (outcome-Keeps rod Q blind (execute_action-Keeps a.action_type page a))
        (λ r. results_from-Keeps (length rest) r (act_all-Keeps page rest))
