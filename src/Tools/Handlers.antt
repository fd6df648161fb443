-- ===== src/Tools/Handlers.antt =====
-- mcputils/helpers.go and cmd/remotehands-mcp/main.go: the results of tools, and their calls.
use remote_hands.Shared.{
  ℕ, Bool, false, List, [], Option, none, some, Text, codes, ℤ, Map, ok, err, Error,
}
use remote_hands.Action.{Action}
use remote_hands.File.Listing.{FileEntry}
use remote_hands.Grep.{GrepMatch}
use remote_hands.Bash.Collect.{BashResult}
use remote_hands.Git.Status.{GitFileStatus}
use remote_hands.Rod.{Float}
use remote_hands.Watch.{FileEvent}
use remote_hands.Browser.{PageResult}
use remote_hands.Http.{HttpResult}
use remote_hands.Grpc.{GrpcResult}
use remote_hands.Process.Stop.{ProcessInfo}
use remote_hands.Service.{Environment, Response, pid, processes, log_texts, watch_stream}
use remote_hands.Tools.Ops.{
  ScreenshotResult, AgentSnapshot, AgentActionResult, Conversions, ActionOfAgent,
}

-- The map of ErrorToolResult; `details` is the error.
pub record ErrorReport : Type 0 where
  pub success : Bool
  pub error_type : Text
  pub attempted_action : Text
  pub details : Error

-- What JSONToolResult is given.
pub data ToolValue : Type 0 where
  succeeded : ToolValue
  failed : ErrorReport → ToolValue
  entries : List FileEntry → ToolValue
  names : List Text → ToolValue
  matches : List GrepMatch → ToolValue
  bash : BashResult → ToolValue
  file_statuses : List GitFileStatus → ToolValue
  sha : Text → ToolValue
  page : PageResult → ToolValue
  pages : List PageResult → ToolValue
  screenshot : ScreenshotResult → ToolValue
  snapshot : AgentSnapshot → ToolValue
  action_results : List AgentActionResult → ToolValue
  http : HttpResult → ToolValue
  grpc : GrpcResult → ToolValue
  started_pid : ℕ → ToolValue
  process_infos : List ProcessInfo → ToolValue
  logs : Text → Text → ToolValue
  events : List FileEvent → ToolValue

-- The content of a tool's result: a text, or a value in JSON.
pub data ToolResult : Type 0 where
  text : Text → ToolResult
  json : ToolValue → ToolResult

-- ErrorToolResult
unfoldable pub error_tool_result : Text → Error → ToolResult
error_tool_result error_type e = json (
    failed (record {
      success = false;
      error_type = error_type;
      attempted_action = codes "parse_arguments";
      details = e;
    }))

module _ (env : Environment) (conv : Conversions env) where
  -- The tools, each with the arguments that CoerceBindArguments has bound.
  pub data ToolCall : Type 0 where
    read_file : Text → ℤ → ℤ → ToolCall
    write_file : Text → Text → ℤ → ToolCall
    delete_file : Text → Bool → ToolCall
    list_files : Text → Bool → ToolCall
    glob : Text → Text → ToolCall
    grep : Text → Text → Text → Bool → ℤ → ToolCall
    run_bash : Text → ℤ → Map Text Text → Text → ToolCall
    git_status : Text → ToolCall
    git_diff : Text → Text → Bool → ToolCall
    git_commit : Text → List Text → Text → Text → Text → ToolCall
    git_clone : Text → Text → Text → Float → ToolCall
    git_push : Text → Text → Text → Bool → ToolCall
    browser_start browser_stop browser_list_pages http_clear_cookies : ToolCall
    browser_navigate : Text → Option Text → ToolCall
    browser_close_page : Text → ToolCall
    browser_screenshot : Option Text → Text → Bool → Option Text → Option ℤ → ToolCall
    browser_snapshot : Option Text → List Text → Bool → ToolCall
    browser_act : Option Text → List (ActionOfAgent env conv) → ToolCall
    http_request : Text → Text → List (Text × Text) → Text → Bool → Option ℤ → Bool → ToolCall
    grpc_request : Text → Text → Option Text → List (Text × Text) → Option Text → Bool → ToolCall
    process_start : Text → Text → Map Text Text → Text → ToolCall
    process_stop : ℕ → ToolCall
    process_list : Bool → ToolCall
    process_logs : ℕ → ℤ → ℤ → ToolCall
    watch_files : List Text → ToolCall

  -- The name of a tool, which is the error type of its failures too.
  unfoldable pub tool_name : ToolCall → Text
  tool_name (read_file _ _ _) = codes "read_file"
  tool_name (write_file _ _ _) = codes "write_file"
  tool_name (delete_file _ _) = codes "delete_file"
  tool_name (list_files _ _) = codes "list_files"
  tool_name (glob _ _) = codes "glob"
  tool_name (grep _ _ _ _ _) = codes "grep"
  tool_name (run_bash _ _ _ _) = codes "run_bash"
  tool_name (git_status _) = codes "git_status"
  tool_name (git_diff _ _ _) = codes "git_diff"
  tool_name (git_commit _ _ _ _ _) = codes "git_commit"
  tool_name (git_clone _ _ _ _) = codes "git_clone"
  tool_name (git_push _ _ _ _) = codes "git_push"
  tool_name browser_start = codes "browser_start"
  tool_name browser_stop = codes "browser_stop"
  tool_name browser_list_pages = codes "browser_list_pages"
  tool_name http_clear_cookies = codes "http_clear_cookies"
  tool_name (browser_navigate _ _) = codes "browser_navigate"
  tool_name (browser_close_page _) = codes "browser_close_page"
  tool_name (browser_screenshot _ _ _ _ _) = codes "browser_screenshot"
  tool_name (browser_snapshot _ _ _) = codes "browser_snapshot"
  tool_name (browser_act _ _) = codes "browser_act"
  tool_name (http_request _ _ _ _ _ _ _) = codes "http_request"
  tool_name (grpc_request _ _ _ _ _ _) = codes "grpc_request"
  tool_name (process_start _ _ _ _) = codes "process_start"
  tool_name (process_stop _) = codes "process_stop"
  tool_name (process_list _) = codes "process_list"
  tool_name (process_logs _ _ _) = codes "process_logs"
  tool_name (watch_files _) = codes "watch_files"

  -- An operation, with its value as a result, or its error under the tool's name.
  unfoldable pub reported :
      {A S : Type 0} → Text → Action S A → (A → ToolResult) → S → ToolResult × S
  unfolding error_tool_result
  reported tool operation result s =
      let done = operation s in
      elim done.0 [ err e ↦ (error_tool_result tool e, done.1) | ok v ↦ (result v, done.1) ]

  -- The messages of the process tools. A response of another kind does not come.
  abbrev pub pid_of : Response → ToolResult
  pid_of (pid id) = json (started_pid id)
  pid_of _ = json (started_pid 0)

  abbrev pub infos_of : Response → ToolResult
  infos_of (processes infos) = json (process_infos infos)
  infos_of _ = json (process_infos [])

  abbrev pub logs_of : Response → ToolResult
  logs_of (log_texts out errors) = json (logs out errors)
  logs_of _ = json (logs [] [])

  -- The events that a watch has sent before it ends; those before an error are dropped.
  unfoldable pub watched_of : Response → ToolResult
  unfolding error_tool_result
  watched_of (watch_stream sent none) = json (events sent)
  watched_of (watch_stream sent (some e)) = error_tool_result (codes "watch_files") e
  watched_of _ = json (events [])
