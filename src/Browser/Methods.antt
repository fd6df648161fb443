-- ===== src/Browser/Methods.antt =====
-- Every request of the browser keeps what each change of the manager keeps.
use remote_hands.Shared.{
  ◌≡◌, refl, ◌∙◌, Bool, true, false, List, [], ◌∷◌, Option, none, Text, Error, ℤ,
}
use remote_hands.Action.{Keeps, pure-Keeps, bind-Keeps, bind_behind}
use remote_hands.Rod.{Rod, AxNode}
use remote_hands.Browser.{
  BrowserManager, Session, browse, affect, on_error, change, launch_browser, start_browser,
  shut_down, stop_browser, reset_browser, open_target, open_tracked, track_page, untrack_page,
  navigate, list_pages, close_page,
}
use remote_hands.Browser.Rules.{
  Closed, OfManager, Running, Blind, Running-Blind, OfManager-Blind, browse-Keeps, observe-Keeps,
  gets-Keeps, on_error-Keeps, tracked_page-Keeps, current_page-Keeps, wrapped-Keeps, if_behind,
  when_running-Keeps, when_running_again-Keeps,
}
use remote_hands.Browser.Untouched.{
  blind_rules, clip_capture-Keeps, page_result-Keeps, page_results-Keeps,
}
use remote_hands.Browser.Untouched.Actions.{act_all-Keeps}
use remote_hands.Browser.Snapshot
use remote_hands.Browser.Screenshot.{ScreenshotFormat, screenshot}
use remote_hands.Browser.Acting.{BrowserAction, act}
use remote_hands.Browser.Requests.{
  BrowserRequest, start_request, stop_request, list_request, navigate_request, close_request,
  screenshot_request, snapshot_request, act_request, serve, serve_all, done,
}

module _ {ℓ} (rod : Rod) (P : BrowserManager rod.Page → Type ℓ) (closed : Closed rod P) where
  -- While the browser runs, and while it does not.
  run : Blind rod (Running rod P)
  run = Running-Blind rod P

  abbrev Halted : Session rod → Type ℓ
  Halted s = (s.bm.running ≡ false) × P s.bm

  abbrev Anyhow : Session rod → Type ℓ
  Anyhow = OfManager rod P

  free : Blind rod Anyhow
  free = OfManager-Blind rod P

  halted : Blind rod Halted
  halted = record { moves = λ s w q. q }

  connect-Keeps :
      (e : Error) → Keeps Halted (on_error rod (browse rod rod.connect e) (affect rod rod.kill))
  connect-Keeps e = search (blind_rules, halted, on_error-Keeps)

  launch_browser-Keeps : (s : Session rod) → Halted s → P (launch_browser rod s).1.bm
  unfolding launch_browser
  launch_browser-Keeps =
      bind_behind (OfManager rod P) _ (browse-Keeps rod Halted halted rod.launch _) (λ s h. h.1)
        (λ u.
          bind_behind (OfManager rod P) _ (connect-Keeps _) (λ s h. h.1)
            (λ v s h. Closed.starts closed s.bm h.0 h.1))

  reset_browser-Keeps : Keeps (OfManager rod P) (reset_browser rod)
  unfolding reset_browser
  reset_browser-Keeps =
      bind-Keeps (OfManager rod P) (observe-Keeps rod _ (OfManager-Blind rod P) _)
        (λ u. record { keeps = λ s p. Closed.stops closed s.bm p })

  shut_down-Keeps : Keeps (OfManager rod P) (shut_down rod)
  unfolding shut_down
  shut_down-Keeps = bind-Keeps Anyhow (gets-Keeps rod Anyhow free (λ s. s.bm.pages)) (λ pages.
      bind-Keeps Anyhow (observe-Keeps rod Anyhow free _) (λ u.
        bind-Keeps Anyhow
          (on_error-Keeps rod Anyhow free (browse-Keeps rod Anyhow free rod.close_browser _)
            reset_browser-Keeps)
          (λ v. reset_browser-Keeps)))

  open_target-Keeps :
      (url : Text) (page_id : Option Text) → Keeps (Running rod P) (open_target rod url page_id)
  unfolding open_target open_tracked
  open_target-Keeps url page_id = search (blind_rules, run, tracked_page-Keeps)

  -- A change while the browser runs, which leaves it running.
  change-Keeps :
      (f : BrowserManager rod.Page → BrowserManager rod.Page)
      → ((b : BrowserManager rod.Page) → (f b).running ≡ b.running)
      → ((b : BrowserManager rod.Page) → b.running ≡ true → P b → P (f b))
      → Keeps (Running rod P) (change rod f)
  change-Keeps f same keep = record { keeps = λ s q. (same s.bm ∙ q.0, keep s.bm q.0 q.1) }

  track_page-Keeps : (page : rod.Page) → Keeps (Running rod P) (change rod (track_page rod page))
  unfolding track_page
  track_page-Keeps page = change-Keeps (track_page rod page) (λ b. refl) (Closed.tracks closed page)

  untrack_page-Keeps : (id : Text) → Keeps (Running rod P) (change rod (untrack_page rod id))
  unfolding untrack_page
  untrack_page-Keeps id = change-Keeps (untrack_page rod id) (λ b. refl) (Closed.untracks closed id)

  refer-Keeps :
      (nodes : List AxNode) → Keeps (Running rod P) (change rod (Snapshot.refer rod nodes))
  unfolding Snapshot.refer
  refer-Keeps nodes =
      change-Keeps (Snapshot.refer rod nodes) (λ b. refl) (Closed.refers closed nodes)

  count_snapshot-Keeps : Keeps (Running rod P) (change rod (Snapshot.count_snapshot rod))
  unfolding Snapshot.count_snapshot
  count_snapshot-Keeps =
      change-Keeps (Snapshot.count_snapshot rod) (λ b. refl) (Closed.counts closed)

  ruleset running_rules = (
    blind_rules, run, tracked_page-Keeps, current_page-Keeps, track_page-Keeps, untrack_page-Keeps,
    refer-Keeps, count_snapshot-Keeps,
  )

  navigate-Keeps :
      (url : Text) (page_id : Option Text) → Keeps (Running rod P) (navigate rod url page_id)
  unfolding navigate
  navigate-Keeps url page_id =
      when_running_again-Keeps rod P (search (running_rules, open_target-Keeps, page_result-Keeps))

  list_pages-Keeps : Keeps (Running rod P) (list_pages rod)
  unfolding list_pages
  list_pages-Keeps = when_running_again-Keeps rod P (search (running_rules, page_results-Keeps))

  close_page-Keeps : (id : Text) → Keeps (Running rod P) (close_page rod id)
  unfolding close_page
  close_page-Keeps id = when_running_again-Keeps rod P (search running_rules)

  screenshot-Keeps :
      (page_id : Option Text) (format : ScreenshotFormat) (full_page : Bool)
      (selector : Option Text) (quality : Option ℤ)
      → Keeps (Running rod P) (screenshot rod page_id format full_page selector quality)
  unfolding screenshot
  screenshot-Keeps page_id format full_page selector quality =
      when_running_again-Keeps rod P (search (running_rules, clip_capture-Keeps))

  with_bounds-Keeps :
      (b : Bool) (page : rod.Page) (t : Snapshot.AxTree)
      → Keeps (Running rod P) (Snapshot.with_bounds rod b page t)
  unfolding Snapshot.with_bounds
  with_bounds-Keeps false page t = pure-Keeps (Running rod P) t
  with_bounds-Keeps true page t = search running_rules

  build_accessibility_tree-Keeps :
      (page : rod.Page) (b : Bool)
      → Keeps (Running rod P) (Snapshot.build_accessibility_tree rod page b)
  unfolding Snapshot.build_accessibility_tree
  build_accessibility_tree-Keeps page b = search (running_rules, with_bounds-Keeps)

  dom_part-Keeps :
      (b : Bool) (page : rod.Page) → Keeps (Running rod P) (Snapshot.dom_part rod b page)
  unfolding Snapshot.dom_part
  dom_part-Keeps false page = pure-Keeps (Running rod P) none
  dom_part-Keeps true page = search running_rules

  tree_part-Keeps :
      (b : Bool) (page : rod.Page) (include_bounds : Bool)
      → Keeps (Running rod P) (Snapshot.tree_part rod b page include_bounds)
  unfolding Snapshot.tree_part
  tree_part-Keeps false page include_bounds = pure-Keeps (Running rod P) none
  tree_part-Keeps true page include_bounds = search (running_rules, build_accessibility_tree-Keeps)

  snapshot-Keeps :
      (page_id : Option Text) (types : List Snapshot.SnapshotType) (include_bounds : Bool)
      → Keeps (Running rod P) (Snapshot.snapshot rod page_id types include_bounds)
  unfolding Snapshot.snapshot
  snapshot-Keeps page_id types include_bounds =
      when_running_again-Keeps rod P (search (running_rules, dom_part-Keeps, tree_part-Keeps))

  act-Keeps :
      (page_id : Option Text) (actions : List (BrowserAction rod))
      → Keeps (Running rod P) (act rod page_id actions)
  unfolding act
  act-Keeps page_id actions = when_running_again-Keeps rod P (search (running_rules, act_all-Keeps))

  start_browser-Keeps : Keeps (OfManager rod P) (start_browser rod)
  unfolding start_browser
  start_browser-Keeps = record {
    keeps =
        λ s p. if_behind rod Anyhow s.bm.running _ _ (λ h. p) (λ h. launch_browser-Keeps s (h, p));
  }

  pub stop_browser-Keeps : Keeps (OfManager rod P) (stop_browser rod)
  unfolding stop_browser
  stop_browser-Keeps = record {
    keeps = λ s p.
        if_behind rod Anyhow s.bm.running _ _ (λ h. Keeps.keeps shut_down-Keeps s p) (λ h. p);
  }

  pub serve-Keeps : (r : BrowserRequest rod) → Keeps (OfManager rod P) (serve rod r)
  unfolding serve
  serve-Keeps start_request =
      bind-Keeps Anyhow (wrapped-Keeps rod Anyhow free _ start_browser-Keeps)
        (λ u. pure-Keeps Anyhow done)
  serve-Keeps stop_request =
      bind-Keeps Anyhow (wrapped-Keeps rod Anyhow free _ stop_browser-Keeps)
        (λ u. pure-Keeps Anyhow done)
  serve-Keeps list_request = when_running-Keeps rod P (search (running_rules, list_pages-Keeps))
  serve-Keeps (navigate_request url page_id) =
      when_running-Keeps rod P (search (running_rules, navigate-Keeps))
  serve-Keeps (close_request id) =
      when_running-Keeps rod P (search (running_rules, close_page-Keeps))
  serve-Keeps (screenshot_request page_id format full_page selector quality) =
      when_running-Keeps rod P (search (running_rules, screenshot-Keeps))
  serve-Keeps (snapshot_request page_id types include_bounds) =
      when_running-Keeps rod P (search (running_rules, snapshot-Keeps))
  serve-Keeps (act_request page_id actions) =
      when_running-Keeps rod P (search (running_rules, act-Keeps))

  -- What each change keeps holds behind any requests.
  pub serve_all-keeps :
      (rs : List (BrowserRequest rod)) (s : Session rod) → P s.bm → P (serve_all rod rs s).bm
  unfolding serve_all
  serve_all-keeps [] s p = p
  serve_all-keeps (r ∷ rs) s p =
      serve_all-keeps rs (serve rod r s).1 (Keeps.keeps (serve-Keeps r) s p)
