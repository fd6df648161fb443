-- ===== src/Examples/Browsing.antt =====
-- Requests of the browser.
use remote_hands.Shared.{
  length, ℕ, ◌+◌, ◌≡◌, ◌≢◌, ◌↔◌, refl, true, false, List, [], ◌∷◌, ◌++◌, none, some, Text, codes,
  lookup, insert, erase, Text_eq, text_eq, arith,
}
use remote_hands.Action.{◌>>=◌}
use remote_hands.Rod.{Rod, AxNode}
use remote_hands.Browser.{
  Session, new_browser_manager, when_running, wrapped, browse, observe, on_error, start_browser,
  launch_browser, mark_started, navigate, open_target, track_page, page_result, close_page,
  tracked_page, untrack_page,
}
use remote_hands.Browser.Untracked.{ClosedOr, close_page_lem}
use remote_hands.Browser.Requests.{
  BrowserRequest, start_request, navigate_request, close_request, serve, serve_all,
}
use remote_hands.Browser.Invariant.{BrowserOk, serve_all-BrowserOk}
use remote_hands.Browser.Current.{Default, behind, serve_all-Default}
use remote_hands.Browser.Selector.{role, parse_selector, parse_role_spec}
use remote_hands.Browser.Selecting.{
  prefix_of, named_role, parse_role_spec-named_role, parse_selector_iff,
}

-- A page is known by its URL, and the world is a clock. Each page has a heading, and a node that is
-- not in the DOM.
abbrev pub heading : AxNode
heading = record {
  node_id = codes "1";
  ignored = false;
  role = codes "heading";
  name = codes "News";
  description = [];
  value = [];
  backend_id = 7;
  parent_id = [];
}

abbrev pub text_rod : Rod
text_rod = record {
  World = ℕ;
  Page = Text;
  Element = ℕ;
  Object = ℕ;
  Offset = ℕ;
  nowhere = 0;
  launch = λ w. (some tt, w);
  connect = λ w. (some tt, w);
  kill = λ w. w;
  close_browser = λ w. (some tt, w);
  target_id = λ page. b'T' ∷ page;
  new_page = λ url w. (some url, w + 1);
  navigate = λ page url w. (some tt, w + 1);
  wait_load = λ page w. (some tt, w + 1);
  close_page = λ page w. (some tt, w + 1);
  info = λ page w. (some (page, codes "News"), w);
  element = λ page css w. (none, w);
  element_x = λ page path w. (none, w);
  element_r = λ page pattern w. (none, w);
  resolve_node = λ page node w. (some node, w);
  element_from_object = λ page object w. (some object, w);
  query_ax_tree = λ page wanted name w. (some (7 ∷ []), w);
  full_ax_tree = λ page w. (some (heading ∷ []), w);
  box_model = λ page node w. (none, w);
  html = λ page w. (some [], w);
  shape = λ el w. (none, w);
  layout_metrics = λ page w. (none, w);
  capture = λ page cmd w. (none, w);
  click = λ el button n w. (some tt, w + 1);
  select_all_text = λ el w. (some tt, w);
  input = λ el s w. (some tt, w);
  type_one = λ el k w. (some tt, w);
  select = λ el names w. (some tt, w);
  checked = λ el w. (some true, w);
  hover = λ el w. (some tt, w);
  scroll_into_view = λ el w. (some tt, w);
  focus = λ el w. (some tt, w);
  visible = λ el w. (some true, w);
  scroll = λ page x y w. (some tt, w);
  eval = λ page js w. (none, w);
  do_keys = λ page events w. (some tt, w);
  timeout = λ page n. page;
  key = λ name. length name;
  now = λ w. (w, w);
  sleep = λ n w. (some tt, w + n);
  pause = λ n w. (tt, w + n);
}

abbrev visits : List (BrowserRequest text_rod)
visits =
    start_request
    ∷ navigate_request (codes "a") none
    ∷ navigate_request (codes "b") none
    ∷ close_request (codes "Tb")
    ∷ []

serve_all-BrowserOk_example : BrowserOk text_rod (behind text_rod visits 0)
serve_all-BrowserOk_example = serve_all-BrowserOk text_rod visits 0

some_id : (page : Text) → ◌≢◌ {A = Text} (b'T' ∷ page) []
some_id page = λ e. cc

serve_all-Default_example : Default text_rod (behind text_rod visits 0)
serve_all-Default_example = serve_all-Default text_rod visits 0 some_id

-- The page that is left when the second one is closed.
closed_second : (behind text_rod visits 0).last_page_id ≡ codes "Ta"
unfolding serve_all serve when_running wrapped browse observe on_error ◌>>=◌ start_browser
    launch_browser mark_started navigate open_target track_page insert page_result close_page
    tracked_page lookup erase untrack_page text_eq new_browser_manager
closed_second = refl

-- A browser with one page.
abbrev one_open : Session text_rod
one_open = record {
  bm = record new_browser_manager {
    running = true;
    pages = (codes "Ta", codes "a") ∷ [];
    last_page_id = codes "Ta";
  };
  world = 0;
}

close_page_lem_example :
    ClosedOr text_rod (codes "Ta") one_open (close_page text_rod (codes "Ta") one_open)
close_page_lem_example = close_page_lem text_rod (codes "Ta") one_open

parse_role_spec-named_role_example :
    parse_role_spec (codes "button" ++ named_role b'i' (codes "t") 34 39 (codes "s here\"]"))
    ≡ (codes "button", codes "it")
parse_role_spec-named_role_example =
    parse_role_spec-named_role b'i' (codes "t") 34 39 (codes "s here\"]") (codes "button")
      (omega arith) (refl, (refl, tt)) refl refl

parse_selector_iff_example :
    (parse_selector (codes "role=button=x") ≡ (role, codes "button=x"))
    ↔ (codes "role=button=x" ≡ prefix_of role ++ b'=' ∷ codes "button=x")
parse_selector_iff_example =
    parse_selector_iff (codes "role=button=x") role (codes "button=x") (λ e. cc)
