-- ===== src/Tools/Registered.antt =====
-- cmd/remotehands-mcp/main.go: the handlers that registerTools installs, on arguments that are bound.
pub mod Outbound
use remote_hands.Shared.{ℕ, Bool, List, Option, Text, codes, ℤ, Map, Result, ok, err, Error}
use remote_hands.Action.{Action}
use remote_hands.Rod.{Float}
use remote_hands.Service.{
  Environment, Request, Response, process_start_request, process_stop_request, process_list_request,
  process_logs_request, watch_files_request,
}
use remote_hands.Tools.Ops.{Conversions, ActionOfAgent, Ops}
use remote_hands.Tools.DirectOps.{direct_ops}
use remote_hands.Tools.Handlers.{
  ToolResult, json, text, bash, succeeded, entries, names, matches, file_statuses, sha, page, pages,
  screenshot, snapshot, action_results, http, grpc, pid_of, infos_of, logs_of, watched_of,
  error_tool_result, reported, ToolCall, read_file, write_file, delete_file, list_files, glob, grep,
  run_bash, git_status, git_diff, git_commit, git_clone, git_push, browser_start, browser_stop,
  browser_list_pages, http_clear_cookies, browser_navigate, browser_close_page, browser_screenshot,
  browser_snapshot, browser_act, http_request, grpc_request, process_start, process_stop,
  process_list, process_logs, watch_files,
}
use remote_hands.Tools.Registered.Outbound.{
  handle_browser_start, handle_browser_stop, handle_browser_list_pages, handle_http_clear_cookies,
  handle_browser_navigate, handle_browser_close_page, handle_browser_screenshot,
  handle_browser_snapshot, handle_browser_act, handle_http_request, handle_grpc_request,
}

module _ (env : Environment) (conv : Conversions env) where
  module _ {S : Type 0} (client : Request env → Action S Response) where
    -- read_file
    unfoldable pub handle_read_file : Ops env conv S → Text → ℤ → ℤ → S → ToolResult × S
    unfolding reported
    handle_read_file ops path offset limit =
        reported env conv (codes "read_file") (ops.read_file path offset limit) text

    -- write_file
    unfoldable pub handle_write_file : Ops env conv S → Text → Text → ℤ → S → ToolResult × S
    unfolding reported
    handle_write_file ops path content mode =
        reported env conv (codes "write_file") (ops.write_file path content mode)
          (λ _. json succeeded)

    -- delete_file
    unfoldable pub handle_delete_file : Ops env conv S → Text → Bool → S → ToolResult × S
    unfolding reported
    handle_delete_file ops path recursive =
        reported env conv (codes "delete_file") (ops.delete_file path recursive)
          (λ _. json succeeded)

    -- list_files
    unfoldable pub handle_list_files : Ops env conv S → Text → Bool → S → ToolResult × S
    unfolding reported
    handle_list_files ops path recursive =
        reported env conv (codes "list_files") (ops.list_files path recursive)
          (λ v. json (entries v))

    -- glob
    unfoldable pub handle_glob : Ops env conv S → Text → Text → S → ToolResult × S
    unfolding reported
    handle_glob ops pattern path =
        reported env conv (codes "glob") (ops.glob pattern path) (λ v. json (names v))

    -- grep
    unfoldable pub handle_grep : Ops env conv S → Text → Text → Text → Bool → ℤ → S → ToolResult × S
    unfolding reported
    handle_grep ops pattern path glob_filter ignore_case context_lines =
        reported env conv (codes "grep")
          (ops.grep pattern path glob_filter ignore_case context_lines) (λ v. json (matches v))

    -- run_bash
    unfoldable pub handle_run_bash :
        Ops env conv S → Text → ℤ → Map Text Text → Text → S → ToolResult × S
    unfolding reported
    handle_run_bash ops command timeout_ms vars working_dir =
        reported env conv (codes "run_bash") (ops.run_bash command timeout_ms vars working_dir)
          (λ v. json (bash v))

    -- git_status
    unfoldable pub handle_git_status : Ops env conv S → Text → S → ToolResult × S
    unfolding reported
    handle_git_status ops path =
        reported env conv (codes "git_status") (ops.git_status path) (λ v. json (file_statuses v))

    -- git_diff
    unfoldable pub handle_git_diff : Ops env conv S → Text → Text → Bool → S → ToolResult × S
    unfolding reported
    handle_git_diff ops path file_path staged =
        reported env conv (codes "git_diff") (ops.git_diff path file_path staged) text

    -- git_commit
    unfoldable pub handle_git_commit :
        Ops env conv S → Text → List Text → Text → Text → Text → S → ToolResult × S
    unfolding reported
    handle_git_commit ops message files path author_name author_email =
        reported env conv (codes "git_commit")
          (ops.git_commit path message files author_name author_email) (λ v. json (sha v))

    -- git_clone
    unfoldable pub handle_git_clone :
        Ops env conv S → Text → Text → Text → Float → S → ToolResult × S
    unfolding reported
    handle_git_clone ops repo_url local_path branch depth =
        reported env conv (codes "git_clone")
          (ops.git_clone repo_url local_path branch (conv.to_int32 depth)) (λ v. json (sha v))

    -- git_push
    unfoldable pub handle_git_push : Ops env conv S → Text → Text → Text → Bool → S → ToolResult × S
    unfolding reported
    handle_git_push ops repo_path remote branch force =
        reported env conv (codes "git_push") (ops.git_push repo_path remote branch force)
          (λ _. json succeeded)

    -- process_start
    unfoldable pub handle_process_start :
        Ops env conv S → Text → Text → Map Text Text → Text → S → ToolResult × S
    unfolding reported
    handle_process_start ops command name vars working_dir =
        reported env conv (codes "process_start")
          (client (process_start_request command name vars working_dir)) (pid_of env conv)

    -- process_stop
    unfoldable pub handle_process_stop : Ops env conv S → ℕ → S → ToolResult × S
    unfolding reported
    handle_process_stop ops id =
        reported env conv (codes "process_stop") (client (process_stop_request id))
          (λ _. json succeeded)

    -- process_list
    unfoldable pub handle_process_list : Ops env conv S → Bool → S → ToolResult × S
    unfolding reported
    handle_process_list ops include_exited =
        reported env conv (codes "process_list") (client (process_list_request include_exited))
          (infos_of env conv)

    -- process_logs
    unfoldable pub handle_process_logs : Ops env conv S → ℕ → ℤ → ℤ → S → ToolResult × S
    unfolding reported
    handle_process_logs ops id head tail =
        reported env conv (codes "process_logs") (client (process_logs_request id head tail))
          (logs_of env conv)

    -- watch_files
    unfoldable pub handle_watch_files : Ops env conv S → List Text → S → ToolResult × S
    unfolding reported watched_of
    handle_watch_files ops patterns =
        reported env conv (codes "watch_files") (client (watch_files_request patterns))
          (watched_of env conv)

    -- The handler of each tool, on DirectOps or, for processes and watches, on the client itself.
    unfoldable pub run_tool : Ops env conv S → ToolCall env conv → S → ToolResult × S
    unfolding handle_read_file handle_write_file handle_delete_file handle_list_files handle_glob
        handle_grep handle_run_bash handle_git_status handle_git_diff handle_git_commit
        handle_git_clone handle_git_push handle_browser_start handle_browser_stop
        handle_browser_list_pages handle_http_clear_cookies handle_browser_navigate
        handle_browser_close_page handle_browser_screenshot handle_browser_snapshot
        handle_browser_act handle_http_request handle_grpc_request handle_process_start
        handle_process_stop handle_process_list handle_process_logs handle_watch_files
    run_tool ops (read_file path offset limit) = handle_read_file ops path offset limit
    run_tool ops (write_file path content mode) = handle_write_file ops path content mode
    run_tool ops (delete_file path recursive) = handle_delete_file ops path recursive
    run_tool ops (list_files path recursive) = handle_list_files ops path recursive
    run_tool ops (glob pattern path) = handle_glob ops pattern path
    run_tool ops (grep pattern path glob_filter ignore_case context_lines) =
        handle_grep ops pattern path glob_filter ignore_case context_lines
    run_tool ops (run_bash command timeout_ms vars working_dir) =
        handle_run_bash ops command timeout_ms vars working_dir
    run_tool ops (git_status path) = handle_git_status ops path
    run_tool ops (git_diff path file_path staged) = handle_git_diff ops path file_path staged
    run_tool ops (git_commit message files path author_name author_email) =
        handle_git_commit ops message files path author_name author_email
    run_tool ops (git_clone repo_url local_path branch depth) =
        handle_git_clone ops repo_url local_path branch depth
    run_tool ops (git_push repo_path remote branch force) =
        handle_git_push ops repo_path remote branch force
    run_tool ops browser_start = handle_browser_start env conv ops
    run_tool ops browser_stop = handle_browser_stop env conv ops
    run_tool ops browser_list_pages = handle_browser_list_pages env conv ops
    run_tool ops http_clear_cookies = handle_http_clear_cookies env conv ops
    run_tool ops (browser_navigate url page_id) = handle_browser_navigate env conv ops url page_id
    run_tool ops (browser_close_page page_id) = handle_browser_close_page env conv ops page_id
    run_tool ops (browser_screenshot page_id format full_page selector quality) =
        handle_browser_screenshot env conv ops page_id format full_page selector quality
    run_tool ops (browser_snapshot page_id types include_bounds) =
        handle_browser_snapshot env conv ops page_id types include_bounds
    run_tool ops (browser_act page_id actions) = handle_browser_act env conv ops page_id actions
    run_tool ops (http_request method url headers body follow_redirects timeout_ms clears) =
        handle_http_request env conv ops method url headers body follow_redirects timeout_ms clears
    run_tool ops (grpc_request address method body metadata proto_file use_reflection) =
        handle_grpc_request env conv ops address method body metadata proto_file use_reflection
    run_tool ops (process_start command name vars working_dir) =
        handle_process_start ops command name vars working_dir
    run_tool ops (process_stop id) = handle_process_stop ops id
    run_tool ops (process_list include_exited) = handle_process_list ops include_exited
    run_tool ops (process_logs id head tail) = handle_process_logs ops id head tail
    run_tool ops (watch_files patterns) = handle_watch_files ops patterns

    -- A call of a tool, with what its arguments are bound to, or the error of CoerceBindArguments.
    unfoldable pub call_tool : Result Error (ToolCall env conv) → S → ToolResult × S
    unfolding run_tool error_tool_result direct_ops
    call_tool (err e) s = (error_tool_result (codes "invalid_arguments") e, s)
    call_tool (ok tool) s = run_tool (direct_ops env conv client) tool s
