-- ===== src/Tools/Requests.antt =====
-- cmd/remotehands-mcp/main.go: the one request that each tool makes, and what becomes of a failure.
pub mod Answers
use remote_hands.Shared.{
  ◌≡◌, refl, [], map, some, Text, codes, Result, ok, err, Error, plain, Result-cases, inl, inr,
  arith,
}
use remote_hands.Action.{Action}
use remote_hands.Bash.Collect.{collect_stream}
use remote_hands.Browser.Requests.{
  start_request, stop_request, list_request, navigate_request, close_request, screenshot_request,
  snapshot_request, act_request,
}
use remote_hands.Browser.Client.{
  parse_screenshot_format, parse_snapshot_type, convert_browser_action,
}
use remote_hands.Service.{
  Environment, Request, Response, bash_stream, read_file_request, write_file_request,
  delete_file_request, list_files_request, glob_request, grep_request, run_bash_request,
  git_status_request, git_diff_request, git_commit_request, git_clone_request, git_push_request,
  browser_request, http_request_of, http_clear_request, grpc_request_of, process_start_request,
  process_stop_request, process_list_request, process_logs_request, watch_files_request,
}
use remote_hands.Service.Refused.{IsError, IsErrorStream, IsRefused}
use remote_hands.Tools.Ops.{
  Conversions, content_of, files_of, paths_of, matches_of, statuses_of, diff_of, sha_of, page_of,
  pages_of, screenshot_of, snapshot_of, results_of, http_of, grpc_of, bash_of,
}
use remote_hands.Tools.Calls.{call, call_bash}
use remote_hands.Tools.DirectOps.{direct_ops}
use remote_hands.Tools.Handlers.{
  ToolResult, json, text, bash, succeeded, entries, names, matches, file_statuses, sha, page, pages,
  screenshot, snapshot, action_results, http, grpc, pid_of, infos_of, logs_of, watched_of,
  error_tool_result, ToolCall, tool_name, reported, read_file, write_file, delete_file, list_files,
  glob, grep, run_bash, git_status, git_diff, git_commit, git_clone, git_push, browser_start,
  browser_stop, browser_list_pages, http_clear_cookies, browser_navigate, browser_close_page,
  browser_screenshot, browser_snapshot, browser_act, http_request, grpc_request, process_start,
  process_stop, process_list, process_logs, watch_files,
}
use remote_hands.Tools.Registered.{run_tool, call_tool}
use remote_hands.Tools.Requests.Answers.{
  Answered, reported-Answered, call-Answered, request-Answered, watch-Answered, call_bash-state,
  call_bash-fails,
}

module _ (env : Environment) (conv : Conversions env) where
  -- The request that a tool is to make.
  abbrev pub tool_request : ToolCall env conv → Request env
  tool_request (read_file path offset limit) = read_file_request path offset limit
  tool_request (write_file path content mode) = write_file_request path content mode
  tool_request (delete_file path recursive) = delete_file_request path recursive
  tool_request (list_files path recursive) = list_files_request path recursive
  tool_request (glob pattern path) = glob_request pattern path
  tool_request (grep pattern path glob_filter ignore_case context_lines) =
      grep_request pattern path glob_filter ignore_case context_lines
  tool_request (run_bash command timeout_ms vars working_dir) =
      run_bash_request command timeout_ms vars working_dir
  tool_request (git_status path) = git_status_request path
  tool_request (git_diff path file_path staged) = git_diff_request path file_path staged
  tool_request (git_commit message files path author_name author_email) =
      git_commit_request path message files (record { name = author_name; email = author_email })
  tool_request (git_clone repo_url local_path branch depth) =
      git_clone_request repo_url local_path branch (conv.to_int32 depth)
  tool_request (git_push repo_path remote branch force) =
      git_push_request repo_path remote branch force
  tool_request browser_start = browser_request start_request
  tool_request browser_stop = browser_request stop_request
  tool_request browser_list_pages = browser_request list_request
  tool_request http_clear_cookies = http_clear_request
  tool_request (browser_navigate url page_id) = browser_request (navigate_request url page_id)
  tool_request (browser_close_page page_id) = browser_request (close_request page_id)
  tool_request (browser_screenshot page_id format full_page selector quality) = browser_request (
      screenshot_request page_id (parse_screenshot_format conv.to_lower format) full_page selector
        quality)
  tool_request (browser_snapshot page_id types include_bounds) =
      browser_request
        (snapshot_request page_id (map (parse_snapshot_type conv.to_lower) types) include_bounds)
  tool_request (browser_act page_id actions) = browser_request (
      act_request page_id
        (map (convert_browser_action conv.to_lower env.rod conv.no_offset) actions))
  tool_request (http_request method url headers body follow_redirects timeout_ms clears) =
      http_request_of (record {
        method = method;
        raw_url = url;
        headers = headers;
        body = body;
        follow_redirects = follow_redirects;
        timeout_ms = timeout_ms;
        clears = clears;
      })
  tool_request (grpc_request address method body metadata proto_file use_reflection) =
      grpc_request_of address method body metadata proto_file use_reflection
  tool_request (process_start command name vars working_dir) =
      process_start_request command name vars working_dir
  tool_request (process_stop id) = process_stop_request id
  tool_request (process_list include_exited) = process_list_request include_exited
  tool_request (process_logs id head tail) = process_logs_request id head tail
  tool_request (watch_files patterns) = watch_files_request patterns

  module _ {S : Type 0} (client : Request env → Action S Response) where
    -- The call of a tool makes its one request: it leaves what the request leaves, and if the request
    -- fails, or is a command's stream that ends at once with an error, or a watch that ends with one, the
    -- agent is told so under the tool's name.
    pub call_tool-Answered :
        (tool : ToolCall env conv) (s : S)
        → Answered env conv
            (tool_name env conv tool)
            (client (tool_request tool) s)
            (IsRefused env (tool_request tool))
            (call_tool env conv client (ok tool) s)
    unfolding call_tool run_tool direct_ops tool_name
    call_tool-Answered (read_file path offset limit) s =
        call-Answered env conv (codes "read_file")
          (client (tool_request (read_file path offset limit))) s (plain "read file: %w")
          (content_of env conv) text
    call_tool-Answered (write_file path content mode) s =
        call-Answered env conv (codes "write_file")
          (client (tool_request (write_file path content mode))) s (plain "write file: %w")
          (λ _. tt) (λ _. json succeeded)
    call_tool-Answered (delete_file path recursive) s =
        call-Answered env conv (codes "delete_file")
          (client (tool_request (delete_file path recursive))) s (plain "delete file: %w") (λ _. tt)
          (λ _. json succeeded)
    call_tool-Answered (list_files path recursive) s =
        call-Answered env conv (codes "list_files")
          (client (tool_request (list_files path recursive))) s (plain "list files: %w")
          (files_of env conv) (λ v. json (entries v))
    call_tool-Answered (glob pattern path) s =
        call-Answered env conv (codes "glob") (client (tool_request (glob pattern path))) s
          (plain "glob: %w") (paths_of env conv) (λ v. json (names v))
    call_tool-Answered (grep pattern path glob_filter ignore_case context_lines) s =
        call-Answered env conv (codes "grep")
          (client (tool_request (grep pattern path glob_filter ignore_case context_lines))) s
          (plain "grep: %w") (matches_of env conv) (λ v. json (matches v))
    call_tool-Answered (git_status path) s =
        call-Answered env conv (codes "git_status") (client (tool_request (git_status path))) s
          (plain "git status: %w") (statuses_of env conv) (λ v. json (file_statuses v))
    call_tool-Answered (git_diff path file_path staged) s =
        call-Answered env conv (codes "git_diff")
          (client (tool_request (git_diff path file_path staged))) s (plain "git diff: %w")
          (diff_of env conv) text
    call_tool-Answered (git_commit message files path author_name author_email) s =
        call-Answered env conv (codes "git_commit")
          (client (tool_request (git_commit message files path author_name author_email))) s
          (plain "git commit: %w") (sha_of env conv) (λ v. json (sha v))
    call_tool-Answered (git_clone repo_url local_path branch depth) s =
        call-Answered env conv (codes "git_clone")
          (client (tool_request (git_clone repo_url local_path branch depth))) s
          (plain "git clone: %w") (sha_of env conv) (λ v. json (sha v))
    call_tool-Answered (git_push repo_path remote branch force) s =
        call-Answered env conv (codes "git_push")
          (client (tool_request (git_push repo_path remote branch force))) s (plain "git push: %w")
          (λ _. tt) (λ _. json succeeded)
    call_tool-Answered browser_start s =
        call-Answered env conv (codes "browser_start") (client (tool_request browser_start)) s
          (plain "browser start: %w") (λ _. tt) (λ _. json succeeded)
    call_tool-Answered browser_stop s =
        call-Answered env conv (codes "browser_stop") (client (tool_request browser_stop)) s
          (plain "browser stop: %w") (λ _. tt) (λ _. json succeeded)
    call_tool-Answered browser_list_pages s =
        call-Answered env conv (codes "browser_list_pages")
          (client (tool_request browser_list_pages)) s (plain "browser list pages: %w")
          (pages_of env conv) (λ v. json (pages v))
    call_tool-Answered http_clear_cookies s =
        call-Answered env conv (codes "http_clear_cookies")
          (client (tool_request http_clear_cookies)) s (plain "http clear cookies: %w") (λ _. tt)
          (λ _. json succeeded)
    call_tool-Answered (browser_navigate url page_id) s =
        call-Answered env conv (codes "browser_navigate")
          (client (tool_request (browser_navigate url page_id))) s (plain "browser navigate: %w")
          (page_of env conv) (λ v. json (page v))
    call_tool-Answered (browser_close_page page_id) s =
        call-Answered env conv (codes "browser_close_page")
          (client (tool_request (browser_close_page page_id))) s (plain "browser close page: %w")
          (λ _. tt) (λ _. json succeeded)
    call_tool-Answered (browser_screenshot page_id format full_page selector quality) s =
        call-Answered env conv (codes "browser_screenshot")
          (client (tool_request (browser_screenshot page_id format full_page selector quality))) s
          (plain "browser screenshot: %w") (screenshot_of env conv) (λ v. json (screenshot v))
    call_tool-Answered (browser_snapshot page_id types include_bounds) s =
        call-Answered env conv (codes "browser_snapshot")
          (client (tool_request (browser_snapshot page_id types include_bounds))) s
          (plain "browser snapshot: %w") (snapshot_of env conv) (λ v. json (snapshot v))
    call_tool-Answered (browser_act page_id actions) s =
        call-Answered env conv (codes "browser_act")
          (client (tool_request (browser_act page_id actions))) s (plain "browser act: %w")
          (results_of env conv) (λ v. json (action_results v))
    call_tool-Answered (http_request method url headers body follow_redirects timeout_ms clears) s =
        call-Answered env conv (codes "http_request")
          (client (
            tool_request (http_request method url headers body follow_redirects timeout_ms clears)))
          s (plain "http request: %w") (http_of env conv) (λ v. json (http v))
    call_tool-Answered (grpc_request address method body metadata proto_file use_reflection) s =
        call-Answered env conv (codes "grpc_request")
          (client
            (tool_request (grpc_request address method body metadata proto_file use_reflection)))
          s (plain "grpc request: %w") (grpc_of env conv) (λ v. json (grpc v))
    call_tool-Answered (process_start command name vars working_dir) s =
        request-Answered env conv (codes "process_start")
          (client (tool_request (process_start command name vars working_dir))) s (pid_of env conv)
    call_tool-Answered (process_stop id) s =
        request-Answered env conv (codes "process_stop") (client (tool_request (process_stop id))) s
          (λ _. json succeeded)
    call_tool-Answered (process_list include_exited) s =
        request-Answered env conv (codes "process_list")
          (client (tool_request (process_list include_exited))) s (infos_of env conv)
    call_tool-Answered (process_logs id head tail) s =
        request-Answered env conv (codes "process_logs")
          (client (tool_request (process_logs id head tail))) s (logs_of env conv)
    call_tool-Answered (watch_files patterns) s =
        watch-Answered env conv (client (tool_request (watch_files patterns))) s
    call_tool-Answered (run_bash command timeout_ms vars working_dir) s =
        let request = client (run_bash_request command timeout_ms vars working_dir) in
        reported-Answered env conv (codes "run_bash") (call_bash env conv request)
          (λ v. json (bash v)) s (request s) IsErrorStream (call_bash-state env conv request s)
          (call_bash-fails env conv request s)
