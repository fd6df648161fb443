-- ===== src/Tools/DirectOps/Outbound.antt =====
-- mcptools/direct_ops.go: the operations on the browser and on other servers.
use remote_hands.Shared.{Bool, List, map, Option, Text, ℤ, plain}
use remote_hands.Action.{Action}
use remote_hands.Browser.{PageResult}
use remote_hands.Browser.Requests.{
  start_request, stop_request, list_request, navigate_request, close_request, screenshot_request,
  snapshot_request, act_request,
}
use remote_hands.Browser.Client.{
  parse_screenshot_format, parse_snapshot_type, convert_browser_action,
}
use remote_hands.Http.{HttpResult}
use remote_hands.Grpc.{GrpcResult}
use remote_hands.Service.{
  Environment, Request, Response, browser_request, http_request_of, http_clear_request,
  grpc_request_of,
}
use remote_hands.Tools.Ops.{
  ScreenshotResult, AgentSnapshot, AgentActionResult, Conversions, ActionOfAgent, page_of, pages_of,
  screenshot_of, snapshot_of, results_of, http_of, grpc_of,
}
use remote_hands.Tools.Calls.{call}

module _ (env : Environment) (conv : Conversions env) where
  -- BrowserStart
  unfoldable pub direct_browser_start :
      {S : Type 0} → (Request env → Action S Response) → Action S (Unit {0})
  unfolding call
  direct_browser_start client =
      call env conv (client (browser_request start_request)) (plain "browser start: %w") (λ _. tt)

  -- BrowserStop
  unfoldable pub direct_browser_stop :
      {S : Type 0} → (Request env → Action S Response) → Action S (Unit {0})
  unfolding call
  direct_browser_stop client =
      call env conv (client (browser_request stop_request)) (plain "browser stop: %w") (λ _. tt)

  -- BrowserNavigate
  unfoldable pub direct_browser_navigate :
      {S : Type 0} → (Request env → Action S Response) → Text → Option Text → Action S PageResult
  unfolding call
  direct_browser_navigate client url page_id =
      call env conv (client (browser_request (navigate_request url page_id)))
        (plain "browser navigate: %w") (page_of env conv)

  -- BrowserListPages
  unfoldable pub direct_browser_list_pages :
      {S : Type 0} → (Request env → Action S Response) → Action S (List PageResult)
  unfolding call
  direct_browser_list_pages client =
      call env conv (client (browser_request list_request)) (plain "browser list pages: %w")
        (pages_of env conv)

  -- BrowserClosePage
  unfoldable pub direct_browser_close_page :
      {S : Type 0} → (Request env → Action S Response) → Text → Action S (Unit {0})
  unfolding call
  direct_browser_close_page client page_id =
      call env conv (client (browser_request (close_request page_id)))
        (plain "browser close page: %w") (λ _. tt)

  -- BrowserScreenshot
  unfoldable pub direct_browser_screenshot :
      {S : Type 0}
      → (Request env → Action S Response)
      → Option Text
      → Text
      → Bool
      → Option Text
      → Option ℤ
      → Action S ScreenshotResult
  unfolding call
  direct_browser_screenshot client page_id format full_page selector quality =
      call env conv
        (client (
          browser_request (
            screenshot_request page_id (parse_screenshot_format conv.to_lower format) full_page
              selector quality)))
        (plain "browser screenshot: %w") (screenshot_of env conv)

  -- BrowserSnapshot
  unfoldable pub direct_browser_snapshot :
      {S : Type 0}
      → (Request env → Action S Response)
      → Option Text
      → List Text
      → Bool
      → Action S AgentSnapshot
  unfolding call
  direct_browser_snapshot client page_id types include_bounds =
      call env conv
        (client (
          browser_request (
            snapshot_request page_id (map (parse_snapshot_type conv.to_lower) types)
              include_bounds)))
        (plain "browser snapshot: %w") (snapshot_of env conv)

  -- BrowserAct
  unfoldable pub direct_browser_act :
      {S : Type 0}
      → (Request env → Action S Response)
      → Option Text
      → List (ActionOfAgent env conv)
      → Action S (List AgentActionResult)
  unfolding call
  direct_browser_act client page_id actions =
      call env conv
        (client (
          browser_request (
            act_request page_id
              (map (convert_browser_action conv.to_lower env.rod conv.no_offset) actions))))
        (plain "browser act: %w") (results_of env conv)

  -- HttpRequest
  unfoldable pub direct_http_request :
      {S : Type 0}
      → (Request env → Action S Response)
      → Text
      → Text
      → List (Text × Text)
      → Text
      → Bool
      → Option ℤ
      → Bool
      → Action S HttpResult
  unfolding call
  direct_http_request client method url headers body follow_redirects timeout_ms clears =
      call env conv
        (client (
          http_request_of (record {
            method = method;
            raw_url = url;
            headers = headers;
            body = body;
            follow_redirects = follow_redirects;
            timeout_ms = timeout_ms;
            clears = clears;
          })))
        (plain "http request: %w") (http_of env conv)

  -- HttpClearCookies
  unfoldable pub direct_http_clear_cookies :
      {S : Type 0} → (Request env → Action S Response) → Action S (Unit {0})
  unfolding call
  direct_http_clear_cookies client =
      call env conv (client http_clear_request) (plain "http clear cookies: %w") (λ _. tt)

  -- GrpcRequest
  unfoldable pub direct_grpc_request :
      {S : Type 0}
      → (Request env → Action S Response)
      → Text
      → Text
      → Option Text
      → List (Text × Text)
      → Option Text
      → Bool
      → Action S GrpcResult
  unfolding call
  direct_grpc_request client address method body metadata proto_file use_reflection =
      call env conv
        (client (grpc_request_of address method body metadata proto_file use_reflection))
        (plain "grpc request: %w") (grpc_of env conv)
