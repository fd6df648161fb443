-- ===== src/Browser.antt =====
-- worker/browser.go: the browser manager and its pages. Each method holds the mutex throughout.
pub mod Client
pub mod Selector
pub mod Selecting
pub mod Acted
pub mod Polling
pub mod Pressed
pub mod References
pub mod Snapshot
pub mod Screenshot
pub mod Keys
pub mod Acting
pub mod Waiting
pub mod Requests
pub mod Rules
pub mod Untouched
pub mod Methods
pub mod Invariant
pub mod Current
pub mod Navigated
pub mod Untracked
use remote_hands.Shared.{
  ℕ, Bool, true, false, List, [], ◌∷◌, Option, none, some, Text, Text_eq, text_eq, Map, lookup,
  insert, erase, is_empty, if◌then◌else◌, Result, ok, err, Error, connect_error, plain,
  failed_precondition, not_found,
}
use remote_hands.Action.{Action, pure, gets, ◌>>=◌, ◌>>◌, modify}
use remote_hands.Rod.{Rod}

-- BrowserManager. `running` says that `browser` is not nil, `has_launcher` that `launcher` is not.
pub record BrowserManager (Page : Type 0) : Type 0 where
  pub running : Bool
  pub has_launcher : Bool
  pub pages : Map Text Page
  pub ref_map : Map Text ℕ
  pub snapshot_id : ℕ
  pub last_page_id : Text

-- NewBrowserManager
unfoldable pub new_browser_manager : {Page : Type 0} → BrowserManager Page
new_browser_manager = record {
  running = false;
  has_launcher = false;
  pages = [];
  ref_map = [];
  snapshot_id = 0;
  last_page_id = [];
}

-- PageResult
pub record PageResult : Type 0 where
  pub page_id : Text
  pub url : Text
  pub title : Text

-- A missing page ID is treated as an empty one.
abbrev pub named : Option Text → Text
named none = []
named (some id) = id

abbrev pub not_started : Error
not_started = connect_error failed_precondition "browser not started"

abbrev pub no_such_page : Error
no_such_page = connect_error not_found "page %q not found"

-- getPage
unfoldable pub get_page {ℓ} :
    {Page : Type ℓ} → Map Text Page → Text → Option Text → Result Error (Page × Text)
unfolding lookup text_eq
get_page pages last_page_id page_id =
    let id : Text = if is_empty (named page_id) then last_page_id else named page_id in
    if is_empty id
    then err (connect_error not_found "no pages open")
    else elim (lookup id pages) [ none ↦ err no_such_page | some page ↦ ok (page, id) ]

-- An arbitrary page that remains, or none.
abbrev pub some_page_id {ℓ} : {Page : Type ℓ} → Map Text Page → Text
some_page_id [] = []
some_page_id ((id, _) ∷ _) = id

module _ (rod : Rod) where
  -- The manager with the browser behind it.
  pub record Session : Type 0 where
    pub bm : BrowserManager rod.Page
    pub world : rod.World

  abbrev pub Method {ℓ} : Type ℓ → Type ℓ
  Method A = Action Session A

  abbrev pub change : (BrowserManager rod.Page → BrowserManager rod.Page) → Method (Unit {0})
  change f = modify (λ s. record s { bm = f s.bm })

  -- A call of Rod.
  unfoldable pub browse {ℓ} : {A : Type ℓ} → (rod.World → Option A × rod.World) → Error → Method A
  browse call e s =
      let (o, w) = call s.world in
      let s1 : Session = record s { world = w } in
      elim o [ none ↦ (err e, s1) | some a ↦ (ok a, s1) ]

  -- A call of Rod that cannot fail.
  unfoldable pub observe {ℓ} : {A : Type ℓ} → (rod.World → A × rod.World) → Method A
  observe call s = let (a, w) = call s.world in (ok a, record s { world = w })

  abbrev pub affect : (rod.World → rod.World) → Method (Unit {0})
  affect call = observe (λ w. (tt, call w))

  -- What follows an error of a call, before the error is returned.
  unfoldable pub on_error {ℓ} : {A : Type ℓ} → Method A → Method (Unit {0}) → Method A
  on_error method cleanup s =
      let (r, s1) = method s in elim r [ ok a ↦ (ok a, s1) | err e ↦ (err e, (cleanup s1).1) ]

  -- A method whose error is looked at, not returned.
  unfoldable pub outcome {ℓ} : {A : Type ℓ} → Method A → Method (Result Error A)
  outcome method s = let (r, s1) = method s in (ok r, s1)

  -- An error is replaced by one that wraps it.
  unfoldable pub wrapped {ℓ} : {A : Type ℓ} → Method A → Error → Method A
  wrapped method e s = let (r, s1) = method s in elim r [ ok a ↦ (ok a, s1) | err _ ↦ (err e, s1) ]

  -- The guard of every method but Start and Stop.
  unfoldable pub when_running {ℓ} : {A : Type ℓ} → Method A → Method A
  when_running method s = if s.bm.running then method s else (err not_started, s)

  -- The fields behind a start, and behind a stop. The snapshot counter stays.
  unfoldable pub mark_started : BrowserManager rod.Page → BrowserManager rod.Page
  mark_started bm = record bm { running = true; has_launcher = true }

  unfoldable pub mark_stopped : BrowserManager rod.Page → BrowserManager rod.Page
  mark_stopped bm = record bm {
    running = false;
    has_launcher = false;
    pages = [];
    ref_map = [];
    last_page_id = [];
  }

  -- The browser is launched and connected to.
  unfoldable pub launch_browser : Method (Unit {0})
  launch_browser = do
    browse rod.launch (plain "launch chromium: %w")
    on_error (browse rod.connect (plain "connect to chromium: %w")) (affect rod.kill)
    change mark_started

  -- Start
  unfoldable pub start_browser : Method (Unit {0})
  start_browser s = if s.bm.running then (ok tt, s) else launch_browser s

  -- `page.Close()` for each page; errors are passed over.
  unfoldable pub close_pages : Map Text rod.Page → rod.World → rod.World
  close_pages [] w = w
  close_pages ((_, page) ∷ pages) w = close_pages pages (rod.close_page page w).1

  -- The launcher is killed and the fields are reset.
  unfoldable pub reset_browser : Method (Unit {0})
  reset_browser = affect rod.kill >> change mark_stopped

  -- The part of Stop behind its guard. The fields are reset however the closing ends.
  unfoldable pub shut_down : Method (Unit {0})
  shut_down = do
    pages ← gets (λ s. s.bm.pages)
    affect (close_pages pages)
    on_error (browse rod.close_browser (plain "close browser: %w")) reset_browser
    reset_browser

  -- Stop
  unfoldable pub stop_browser : Method (Unit {0})
  stop_browser s = if s.bm.running then shut_down s else (ok tt, s)

  -- A page that the manager tracks.
  unfoldable pub tracked_page : Text → Method rod.Page
  tracked_page id s = elim (lookup id s.bm.pages) [
    | none ↦ (err no_such_page, s)
    | some page ↦ (ok page, s)
  ]

  -- A tracked page that is navigated.
  unfoldable pub open_tracked : Text → Text → Method rod.Page
  open_tracked url id = do
    page ← tracked_page id
    browse (rod.navigate page url) (plain "navigate page: %w")
    pure page

  -- The page that Navigate works on: an existing one that is navigated, or a new one.
  unfoldable pub open_target : Text → Option Text → Method rod.Page
  open_target url page_id =
      if is_empty (named page_id)
      then browse (rod.new_page url) (plain "create page: %w")
      else open_tracked url (named page_id)

  -- The page is tracked, is the current one, and earlier references are forgotten.
  unfoldable pub track_page : rod.Page → BrowserManager rod.Page → BrowserManager rod.Page
  track_page page bm = record bm {
    pages = insert (rod.target_id page) page bm.pages;
    last_page_id = rod.target_id page;
    ref_map = [];
  }

  unfoldable pub page_result : Text → rod.Page → Error → Method PageResult
  page_result id page e = do
    info ← browse (rod.info page) e
    pure (record { page_id = id; url = info.0; title = info.1 })

  -- Navigate
  unfoldable pub navigate : Text → Option Text → Method PageResult
  navigate url page_id = when_running (do
    page ← open_target url page_id
    browse (rod.wait_load page) (plain "wait for page load: %w")
    change (track_page page)
    page_result (rod.target_id page) page (plain "get page info: %w"))

  unfoldable pub page_results : Map Text rod.Page → Method (List PageResult)
  page_results [] = pure []
  page_results ((id, page) ∷ pages) = do
    result ← page_result id page (plain "get page info for %s: %w")
    results ← page_results pages
    pure (result ∷ results)

  -- ListPages
  unfoldable pub list_pages : Method (List PageResult)
  list_pages = when_running (gets (λ s. s.bm.pages) >>= page_results)

  -- The page is no longer tracked; an arbitrary one that remains becomes current.
  unfoldable pub untrack_page : Text → BrowserManager rod.Page → BrowserManager rod.Page
  untrack_page id bm =
      let rest : Map Text rod.Page = erase id bm.pages in
      record bm {
        pages = rest;
        last_page_id = if text_eq bm.last_page_id id then some_page_id rest else bm.last_page_id;
      }

  -- ClosePage
  unfoldable pub close_page : Text → Method (Unit {0})
  close_page id = when_running (do
    page ← tracked_page id
    browse (rod.close_page page) (plain "close page: %w")
    change (untrack_page id))

  -- getPage, on the manager's fields.
  unfoldable pub current_page : Option Text → Method rod.Page
  current_page page_id s = elim (get_page s.bm.pages s.bm.last_page_id page_id) [
    | ok (page, _) ↦ (ok page, s)
    | err e ↦ (err e, s)
  ]
