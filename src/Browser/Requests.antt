-- ===== src/Browser/Requests.antt =====
-- worker/service.go: the browser's requests. A handler asks whether the browser runs, under the
-- mutex, before the method asks again; here nothing comes between the two.
use remote_hands.Shared.{Bool, List, [], ◌∷◌, Option, Text, ℤ, connect_error, internal}
use remote_hands.Action.{pure, ◌>>=◌, ◌>>◌}
use remote_hands.Rod.{Rod}
use remote_hands.Browser.{
  Session, Method, wrapped, when_running, PageResult, start_browser, stop_browser, navigate,
  list_pages, close_page,
}
use remote_hands.Browser.Snapshot.{SnapshotType, SnapshotResult, snapshot}
use remote_hands.Browser.Screenshot.{ScreenshotFormat, screenshot}
use remote_hands.Browser.Acting.{BrowserAction, ActionResult, act}

pub data BrowserAnswer : Type 0 where
  done : BrowserAnswer
  one_page : PageResult → BrowserAnswer
  all_pages : List PageResult → BrowserAnswer
  image : Text → Text → BrowserAnswer
  snapped : SnapshotResult → BrowserAnswer
  acted : List ActionResult → BrowserAnswer

module _ (rod : Rod) where
  pub data BrowserRequest : Type 0 where
    start_request stop_request list_request : BrowserRequest
    navigate_request : Text → Option Text → BrowserRequest
    close_request : Text → BrowserRequest
    screenshot_request :
        Option Text → ScreenshotFormat → Bool → Option Text → Option ℤ → BrowserRequest
    snapshot_request : Option Text → List SnapshotType → Bool → BrowserRequest
    act_request : Option Text → List (BrowserAction rod) → BrowserRequest

  -- BrowserStart, BrowserStop, BrowserListPages, BrowserNavigate, BrowserClosePage,
  -- BrowserScreenshot, BrowserSnapshot and BrowserAct.
  unfoldable pub serve : BrowserRequest → Method rod BrowserAnswer
  serve start_request = do
    wrapped rod (start_browser rod) (connect_error internal "browser start: %w")
    pure done
  serve stop_request = do
    wrapped rod (stop_browser rod) (connect_error internal "browser stop: %w")
    pure done
  serve list_request = when_running rod (do pages ← list_pages rod; pure (all_pages pages))
  serve (navigate_request url page_id) =
      when_running rod (do page ← navigate rod url page_id; pure (one_page page))
  serve (close_request page_id) = when_running rod (do close_page rod page_id; pure done)
  serve (screenshot_request page_id format full_page selector quality) = when_running rod (do
    answer ← screenshot rod page_id format full_page selector quality
    pure (image answer.0 answer.1))
  serve (snapshot_request page_id types include_bounds) =
      when_running rod
        (do result ← snapshot rod page_id types include_bounds; pure (snapped result))
  serve (act_request page_id actions) =
      when_running rod (do results ← act rod page_id actions; pure (acted results))

  -- Requests one after the other, with the answers dropped.
  unfoldable pub serve_all : List BrowserRequest → Session rod → Session rod
  serve_all [] s = s
  serve_all (r ∷ rs) s = serve_all rs (serve r s).1
