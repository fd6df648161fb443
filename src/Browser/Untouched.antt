-- ===== src/Browser/Untouched.antt =====
-- The parts of worker/browser.go that leave the manager alone.
pub mod Actions
use remote_hands.Shared.{
  ℕ, zero, suc, ◌≡◌, Bool, true, false, List, [], ◌∷◌, Option, none, some, Text, Result, ok, err,
  Error, Result-cases, Option-cases, Bool-cases, inl, inr, is_empty, ℤ, nat_eq, ltb, if◌then◌else◌,
  Map, lookup, Text_eq,
}
use remote_hands.Action.{
  Action, ◌>>=◌, ◌>>◌, pure, fail, gets, modify, Keeps, pure-Keeps, fail-Keeps, if-Keeps,
  bind-Keeps,
}
use remote_hands.Rod.{Rod, Box, Capture}
use remote_hands.Browser.{Session, Method, page_results, PageResult, page_result}
use remote_hands.Browser.Rules.{
  Blind, browse-Keeps, observe-Keeps, gets-Keeps, outcome-Keeps, wrapped-Keeps, option-Keeps,
}
use remote_hands.Browser.Selector.{
  resolve_node, ref_node, resolve_ref, first_node, find_by_role, find_with, find_element, Strategy,
  css, xpath, text, role, ref,
}
use remote_hands.Browser.Screenshot.{visible_box, clip_to_element, clip_to_content, clip_capture}
use remote_hands.Browser.Waiting.{
  next_round, poll_rounds, poll_until, test_hidden, test_detached, await_element, await_state,
  wait_for_selector, after_test, hidden_if, detached_if, not_seen, WaitForState, unspecified_state,
  visible, attached, hidden, detached, other_state,
}

pub ruleset blind_rules = (
  pure-Keeps, fail-Keeps, bind-Keeps, browse-Keeps, observe-Keeps, gets-Keeps, outcome-Keeps,
  wrapped-Keeps, if-Keeps,
)

module _ {ℓ} (rod : Rod) (Q : Session rod → Type ℓ) (blind : Blind rod Q) where
  resolve_node-Keeps :
      (page : rod.Page) (node : ℕ) (e e1 : Error) → Keeps Q (resolve_node rod page node e e1)
  unfolding resolve_node
  resolve_node-Keeps page node e e1 = search blind_rules

  ref_node-Keeps : (name : Text) → Keeps Q (ref_node rod name)
  unfolding ref_node
  ref_node-Keeps name = record {
    keeps = λ s q. elim (Option-cases (lookup name s.bm.ref_map)) [
      | inl o ↦ rw (o, ref_node) q
      | inr (page, o) ↦ rw (o, ref_node) q
    ];
  }

  first_node-Keeps : (nodes : List ℕ) → Keeps Q (first_node rod nodes)
  unfolding first_node
  first_node-Keeps [] = fail-Keeps Q _
  first_node-Keeps (node ∷ _) = if-Keeps Q (nat_eq node 0) (fail-Keeps Q _) (pure-Keeps Q node)

  find_by_role-Keeps : (page : rod.Page) (spec : Text) → Keeps Q (find_by_role rod page spec)
  unfolding find_by_role
  find_by_role-Keeps page spec = search (blind_rules, first_node-Keeps, resolve_node-Keeps)

  resolve_ref-Keeps : (page : rod.Page) (name : Text) → Keeps Q (resolve_ref rod page name)
  unfolding resolve_ref
  resolve_ref-Keeps page name = search (blind_rules, ref_node-Keeps, resolve_node-Keeps)

  find_with-Keeps :
      (page : rod.Page) (strategy : Strategy) (value : Text)
      → Keeps Q (find_with rod page strategy value)
  unfolding find_with
  find_with-Keeps page css value = search blind_rules
  find_with-Keeps page xpath value = search blind_rules
  find_with-Keeps page text value = search blind_rules
  find_with-Keeps page role value = find_by_role-Keeps page value
  find_with-Keeps page ref value = resolve_ref-Keeps page value

  pub find_element-Keeps :
      (page : rod.Page) (selector : Text) → Keeps Q (find_element rod page selector)
  unfolding find_element
  find_element-Keeps page selector = find_with-Keeps page _ _

  visible_box-Keeps : (b : Option Box) → Keeps Q (visible_box rod b)
  unfolding visible_box
  visible_box-Keeps none = fail-Keeps Q _
  visible_box-Keeps (some b) = pure-Keeps Q b

  clip_to_element-Keeps :
      (page : rod.Page) (selector : Text) (cmd : Capture)
      → Keeps Q (clip_to_element rod page selector cmd)
  unfolding clip_to_element
  clip_to_element-Keeps page selector cmd =
      search (blind_rules, find_element-Keeps, visible_box-Keeps)

  clip_to_content-Keeps : (page : rod.Page) (cmd : Capture) → Keeps Q (clip_to_content rod page cmd)
  unfolding clip_to_content
  clip_to_content-Keeps page cmd = search blind_rules

  pub clip_capture-Keeps :
      (page : rod.Page) (selector : Text) (full_page : Bool) (cmd : Capture)
      → Keeps Q (clip_capture rod page selector full_page cmd)
  unfolding clip_capture
  clip_capture-Keeps page selector full_page cmd =
      search (blind_rules, clip_to_element-Keeps, clip_to_content-Keeps)

  pub page_result-Keeps :
      (id : Text) (page : rod.Page) (e : Error) → Keeps Q (page_result rod id page e)
  unfolding page_result
  page_result-Keeps id page e = search blind_rules

  pub page_results-Keeps : (pages : Map Text rod.Page) → Keeps Q (page_results rod pages)
  unfolding page_results
  page_results-Keeps [] = pure-Keeps Q _
  page_results-Keeps ((id, page) ∷ pages) =
      bind-Keeps Q (page_result-Keeps id page _)
        (λ result. bind-Keeps Q (page_results-Keeps pages) (λ results. pure-Keeps Q _))

  next_round-Keeps :
      (deadline interval : ℕ) {rest : Method rod (Unit {0})}
      → Keeps Q rest
      → Keeps Q (next_round rod deadline interval rest)
  unfolding next_round
  next_round-Keeps deadline interval h = search blind_rules

  after_test-Keeps :
      (deadline interval : ℕ) {again : Method rod (Unit {0})} (r : Result Error (Unit {0}))
      → Keeps Q again
      → Keeps Q (after_test rod deadline interval again r)
  unfolding after_test
  after_test-Keeps deadline interval (ok _) h = pure-Keeps Q tt
  after_test-Keeps deadline interval (err _) h = next_round-Keeps deadline interval h

  poll_rounds-Keeps :
      (rounds deadline interval : ℕ) {test : Method rod (Unit {0})}
      → Keeps Q test
      → Keeps Q (poll_rounds rod rounds deadline interval test)
  unfolding poll_rounds
  poll_rounds-Keeps zero deadline interval h = fail-Keeps Q _
  poll_rounds-Keeps (suc rounds) deadline interval h =
      bind-Keeps Q (outcome-Keeps rod Q blind h)
        (λ r. after_test-Keeps deadline interval r (poll_rounds-Keeps rounds deadline interval h))

  poll_until-Keeps :
      (timeout interval : ℕ) {test : Method rod (Unit {0})}
      → Keeps Q test
      → Keeps Q (poll_until rod timeout interval test)
  unfolding poll_until
  poll_until-Keeps timeout interval h = search (blind_rules, poll_rounds-Keeps)

  not_seen-Keeps : (o : Option Bool) → Keeps Q (not_seen rod o)
  unfolding not_seen
  not_seen-Keeps (some true) = fail-Keeps Q _
  not_seen-Keeps (some false) = pure-Keeps Q tt
  not_seen-Keeps none = pure-Keeps Q tt

  hidden_if-Keeps : (r : Result Error rod.Element) → Keeps Q (hidden_if rod r)
  unfolding hidden_if
  hidden_if-Keeps (err _) = pure-Keeps Q tt
  hidden_if-Keeps (ok el) = search (blind_rules, not_seen-Keeps)

  test_hidden-Keeps : (page : rod.Page) (selector : Text) → Keeps Q (test_hidden rod page selector)
  unfolding test_hidden
  test_hidden-Keeps page selector = search (blind_rules, find_element-Keeps, hidden_if-Keeps)

  detached_if-Keeps : (r : Result Error rod.Element) → Keeps Q (detached_if rod r)
  unfolding detached_if
  detached_if-Keeps (err _) = pure-Keeps Q tt
  detached_if-Keeps (ok _) = fail-Keeps Q _

  test_detached-Keeps :
      (page : rod.Page) (selector : Text) → Keeps Q (test_detached rod page selector)
  unfolding test_detached
  test_detached-Keeps page selector = search (blind_rules, find_element-Keeps, detached_if-Keeps)

  await_element-Keeps :
      (page : rod.Page) (timeout : ℕ) (strategy : Strategy) (value : Text)
      → Keeps Q (await_element rod page timeout strategy value)
  unfolding await_element
  await_element-Keeps page timeout css value = search (blind_rules, find_with-Keeps)
  await_element-Keeps page timeout xpath value = search (blind_rules, find_with-Keeps)
  await_element-Keeps page timeout text value = search (blind_rules, find_with-Keeps)
  await_element-Keeps page timeout role value =
      search (blind_rules, poll_until-Keeps, find_by_role-Keeps)
  await_element-Keeps page timeout ref value = search (blind_rules, find_with-Keeps)

  await_state-Keeps :
      (page : rod.Page) (timeout : ℕ) (st : WaitForState) (selector : Text)
      → Keeps Q (await_state rod page timeout st selector)
  unfolding await_state
  await_state-Keeps page timeout unspecified_state selector = await_element-Keeps page timeout _ _
  await_state-Keeps page timeout visible selector = await_element-Keeps page timeout _ _
  await_state-Keeps page timeout attached selector = await_element-Keeps page timeout _ _
  await_state-Keeps page timeout hidden selector = search (poll_until-Keeps, test_hidden-Keeps)
  await_state-Keeps page timeout detached selector = search (poll_until-Keeps, test_detached-Keeps)
  await_state-Keeps page timeout other_state selector = pure-Keeps Q tt

  pub wait_for_selector-Keeps :
      (page : rod.Page) (timeout_ms : Option ℤ) (st : Option WaitForState) (selector : Text)
      → Keeps Q (wait_for_selector rod page timeout_ms st selector)
  unfolding wait_for_selector
  wait_for_selector-Keeps page timeout_ms st selector =
      bind-Keeps Q (wrapped-Keeps rod Q blind _ (await_state-Keeps page _ _ selector))
        (λ u. pure-Keeps Q none)
