-- ===== src/Tools/Registered/Outbound.antt =====
-- cmd/remotehands-mcp/main.go: the handlers of the tools on the browser and on other servers.
use remote_hands.Shared.{Bool, List, Option, Text, codes, ℤ}
use remote_hands.Service.{Environment}
use remote_hands.Tools.Ops.{Conversions, ActionOfAgent, Ops}
use remote_hands.Tools.Handlers.{
  ToolResult, json, succeeded, page, pages, screenshot, snapshot, action_results, http, grpc,
  reported,
}

module _ (env : Environment) (conv : Conversions env) where
  module _ {S : Type 0} where
    -- browser_start
    unfoldable pub handle_browser_start : Ops env conv S → S → ToolResult × S
    unfolding reported
    handle_browser_start ops =
        reported env conv (codes "browser_start") ops.browser_start (λ _. json succeeded)

    -- browser_stop
    unfoldable pub handle_browser_stop : Ops env conv S → S → ToolResult × S
    unfolding reported
    handle_browser_stop ops =
        reported env conv (codes "browser_stop") ops.browser_stop (λ _. json succeeded)

    -- browser_list_pages
    unfoldable pub handle_browser_list_pages : Ops env conv S → S → ToolResult × S
    unfolding reported
    handle_browser_list_pages ops =
        reported env conv (codes "browser_list_pages") ops.browser_list_pages (λ v. json (pages v))

    -- http_clear_cookies
    unfoldable pub handle_http_clear_cookies : Ops env conv S → S → ToolResult × S
    unfolding reported
    handle_http_clear_cookies ops =
        reported env conv (codes "http_clear_cookies") ops.http_clear_cookies (λ _. json succeeded)

    -- browser_navigate
    unfoldable pub handle_browser_navigate :
        Ops env conv S → Text → Option Text → S → ToolResult × S
    unfolding reported
    handle_browser_navigate ops url page_id =
        reported env conv (codes "browser_navigate") (ops.browser_navigate url page_id)
          (λ v. json (page v))

    -- browser_close_page
    unfoldable pub handle_browser_close_page : Ops env conv S → Text → S → ToolResult × S
    unfolding reported
    handle_browser_close_page ops page_id =
        reported env conv (codes "browser_close_page") (ops.browser_close_page page_id)
          (λ _. json succeeded)

    -- browser_screenshot
    unfoldable pub handle_browser_screenshot :
        Ops env conv S → Option Text → Text → Bool → Option Text → Option ℤ → S → ToolResult × S
    unfolding reported
    handle_browser_screenshot ops page_id format full_page selector quality =
        reported env conv (codes "browser_screenshot")
          (ops.browser_screenshot page_id format full_page selector quality)
          (λ v. json (screenshot v))

    -- browser_snapshot
    unfoldable pub handle_browser_snapshot :
        Ops env conv S → Option Text → List Text → Bool → S → ToolResult × S
    unfolding reported
    handle_browser_snapshot ops page_id types include_bounds =
        reported env conv (codes "browser_snapshot")
          (ops.browser_snapshot page_id types include_bounds) (λ v. json (snapshot v))

    -- browser_act
    unfoldable pub handle_browser_act :
        Ops env conv S → Option Text → List (ActionOfAgent env conv) → S → ToolResult × S
    unfolding reported
    handle_browser_act ops page_id actions =
        reported env conv (codes "browser_act") (ops.browser_act page_id actions)
          (λ v. json (action_results v))

    -- http_request
    unfoldable pub handle_http_request :
        Ops env conv S
        → Text
        → Text
        → List (Text × Text)
        → Text
        → Bool
        → Option ℤ
        → Bool
        → S
        → ToolResult × S
    unfolding reported
    handle_http_request ops method url headers body follow_redirects timeout_ms clears =
        reported env conv (codes "http_request")
          (ops.http_request method url headers body follow_redirects timeout_ms clears)
          (λ v. json (http v))

    -- grpc_request
    unfoldable pub handle_grpc_request :
        Ops env conv S
        → Text
        → Text
        → Option Text
        → List (Text × Text)
        → Option Text
        → Bool
        → S
        → ToolResult × S
    unfolding reported
    handle_grpc_request ops address method body metadata proto_file use_reflection =
        reported env conv (codes "grpc_request")
          (ops.grpc_request address method body metadata proto_file use_reflection)
          (λ v. json (grpc v))
