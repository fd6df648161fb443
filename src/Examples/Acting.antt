-- ===== src/Examples/Acting.antt =====
-- Snapshots, actions and waits of the browser.
use remote_hands.Shared.{
  ℕ, ◌+◌, ◌≤◌, ◌≡◌, refl, true, List, [], ◌∷◌, map, none, some, codes, lookup, Text_eq, text_eq,
  arith, ok, split, plain, String, decimal,
}
use mathlib.Core.List.{reverse}
use remote_hands.Action.{◌>>=◌, fail}
use remote_hands.Rod.{KeyEvent, press, release, type_key}
use remote_hands.Browser.{
  Session, Method, navigate, PageResult, when_running, open_target, open_tracked, tracked_page,
  browse, observe, page_result,
}
use remote_hands.Browser.Selector.{ref_node}
use remote_hands.Browser.Snapshot.{
  NodeEntry, AxTree, build_accessibility_tree, refer, with_bounds, measure_nodes, measure_node,
  tree_of, converted,
}
use remote_hands.Browser.References.{build_accessibility_tree-ref_node}
use remote_hands.Browser.Acting.{BrowserAction, ActionType, press_key, unknown, act_all}
use remote_hands.Browser.Acted.{Answered, act_all-Acted, act_all-bm}
use remote_hands.Browser.Keys.{shift, key_events, combination_keys, modifier_keys}
use remote_hands.Browser.Pressed.{play, key_events-play}
use remote_hands.Browser.Waiting.{poll_until}
use remote_hands.Browser.Polling.{Clock, Ended, poll_until-Ended}
use remote_hands.Browser.Navigated.{Navigated, navigate-Navigated}
use remote_hands.Examples.Browsing.{text_rod, heading}

abbrev open_page : Session text_rod
open_page = record {
  bm = record {
    running = true;
    has_launcher = true;
    pages = (codes "Ta", codes "a") ∷ [];
    ref_map = [];
    snapshot_id = 0;
    last_page_id = codes "Ta";
  };
  world = 5;
}

abbrev action : ActionType → String → BrowserAction text_rod
action kind text_value = record {
  action_type = kind;
  selector = none;
  value = some (codes text_value);
  values = [];
  button = none;
  click_count = none;
  modifiers = shift ∷ [];
  delay_ms = none;
  scroll_x = none;
  scroll_y = none;
  timeout_ms = none;
  wait_state = none;
}

abbrev presses : List (BrowserAction text_rod)
presses = action press_key "Enter" ∷ action unknown "" ∷ action press_key "Tab" ∷ []

act_all-Acted_example : Answered text_rod (codes "a") presses open_page
act_all-Acted_example = act_all-Acted text_rod (codes "a") presses open_page

act_all-bm_example : (act_all text_rod (codes "a") presses open_page).1.bm ≡ open_page.bm
act_all-bm_example = act_all-bm text_rod (codes "a") presses open_page

abbrev no_clock_change : (w : ℕ) → w ≤ w
no_clock_change w = omega arith

clock_runs : Clock text_rod (λ w. w)
clock_runs = record { reads = λ w. refl; runs = λ w. omega arith; waits = λ n w e. omega arith }

abbrev failing : Method text_rod (Unit {0})
failing = fail (plain "element %q still visible")

poll_until-Ended_example :
    Ended text_rod
      (λ w. w)
      clock_runs
      100
      failing
      (omega arith)
      (λ s. omega arith)
      (5 + 250)
      (poll_until text_rod 250 100 failing open_page)
poll_until-Ended_example =
    poll_until-Ended text_rod (λ w. w) clock_runs 100 failing (omega arith) (λ s. omega arith) 250
      open_page

abbrev typed_keys : List KeyEvent
typed_keys = press 9 ∷ type_key 11 ∷ type_key 4 ∷ release 9 ∷ []

queued : key_events text_rod (shift ∷ []) (codes "Control+a") ≡ some typed_keys
unfolding key_events
queued = refl

-- `Control+a` types `a` with Control released.
key_events-play_example :
    (ks : List ℕ) × (combination_keys text_rod (split b'+' (codes "Control+a")) ≡ some ks)
    × (play typed_keys []
        ≡ some (map (λ k. (k, reverse (modifier_keys text_rod (shift ∷ [])))) ks, []))
key_events-play_example =
    key_events-play text_rod (shift ∷ []) (codes "Control+a") typed_keys queued

abbrev again : Method text_rod PageResult
again = navigate text_rod (codes "n") (some (codes "Ta"))

abbrev page_a : PageResult
page_a = record { page_id = codes "Ta"; url = codes "a"; title = codes "News" }

went : again open_page ≡ (ok page_a, (again open_page).1)
unfolding navigate when_running ◌>>=◌ open_target open_tracked tracked_page lookup text_eq browse
    page_result
went = refl

navigate-Navigated_example :
    (open_page.bm.running ≡ true)
    × Navigated text_rod (some (codes "Ta")) open_page page_a (again open_page).1
navigate-Navigated_example =
    navigate-Navigated text_rod (codes "n") (some (codes "Ta")) open_page (again open_page).1 page_a
      went

abbrev entry : NodeEntry
entry = record { ax_node = heading; ref = codes "e7"; children = []; bounds = none }

abbrev tree : AxTree
tree = record { nodes = (codes "1", entry) ∷ []; root = some (codes "1") }

abbrev shot : Session text_rod
shot = record open_page { bm = record open_page.bm { ref_map = (codes "e7", 7) ∷ [] } }

built : build_accessibility_tree text_rod (codes "a") true open_page ≡ (ok tree, shot)
unfolding build_accessibility_tree ◌>>=◌ browse refer with_bounds observe measure_nodes measure_node
    tree_of converted decimal
built = refl

build_accessibility_tree-ref_node_example : ref_node text_rod (codes "e7") shot ≡ (ok 7, shot)
build_accessibility_tree-ref_node_example =
    build_accessibility_tree-ref_node text_rod (codes "a") true open_page shot tree (codes "1")
      entry built (unfold lookup text_eq in refl) (omega arith)
