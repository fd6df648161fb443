-- ===== src/Tools/DirectOps.antt =====
-- mcptools/direct_ops.go: DirectOps, which makes a request to a server for each operation.
pub mod Outbound
use remote_hands.Shared.{Bool, List, map, Option, Text, ℤ, Map, ok, err, Error, plain}
use remote_hands.Action.{Action}
use remote_hands.File.Listing.{FileEntry}
use remote_hands.Grep.{GrepMatch}
use remote_hands.Bash.Collect.{BashResult}
use remote_hands.Git.Status.{GitFileStatus}
use remote_hands.Browser.{PageResult}
use remote_hands.Browser.Requests.{
  start_request, stop_request, list_request, navigate_request, close_request, screenshot_request,
  snapshot_request, act_request,
}
use remote_hands.Browser.Client.{
  parse_screenshot_format, parse_snapshot_type, convert_browser_action,
}
use remote_hands.Http.{HttpResult}
use remote_hands.Grpc.{GrpcResult}
use remote_hands.Service.{
  Environment, Request, Response, read_file_request, write_file_request, delete_file_request,
  list_files_request, glob_request, grep_request, run_bash_request, git_status_request,
  git_diff_request, git_commit_request, git_clone_request, git_push_request, browser_request,
  http_request_of, http_clear_request, grpc_request_of,
}
use remote_hands.Tools.Ops.{
  ScreenshotResult, AgentSnapshot, AgentActionResult, Conversions, ActionOfAgent, Ops, content_of,
  files_of, paths_of, matches_of, statuses_of, diff_of, sha_of, page_of, pages_of, screenshot_of,
  snapshot_of, results_of, http_of, grpc_of, bash_of,
}
use remote_hands.Tools.Calls.{call, call_bash}
use remote_hands.Tools.DirectOps.Outbound.{
  direct_browser_start, direct_browser_stop, direct_browser_navigate, direct_browser_list_pages,
  direct_browser_close_page, direct_browser_screenshot, direct_browser_snapshot, direct_browser_act,
  direct_http_request, direct_http_clear_cookies, direct_grpc_request,
}

module _ (env : Environment) (conv : Conversions env) where
  -- RunBash
  unfoldable pub direct_run_bash :
      {S : Type 0}
      → (Request env → Action S Response)
      → Text
      → ℤ
      → Map Text Text
      → Text
      → Action S BashResult
  unfolding call_bash
  direct_run_bash client command timeout_ms vars working_dir =
      call_bash env conv (client (run_bash_request command timeout_ms vars working_dir))

  -- ReadFile
  unfoldable pub direct_read_file :
      {S : Type 0} → (Request env → Action S Response) → Text → ℤ → ℤ → Action S Text
  unfolding call
  direct_read_file client path offset limit =
      call env conv (client (read_file_request path offset limit)) (plain "read file: %w")
        (content_of env conv)

  -- WriteFile
  unfoldable pub direct_write_file :
      {S : Type 0} → (Request env → Action S Response) → Text → Text → ℤ → Action S (Unit {0})
  unfolding call
  direct_write_file client path text mode =
      call env conv (client (write_file_request path text mode)) (plain "write file: %w") (λ _. tt)

  -- DeleteFile
  unfoldable pub direct_delete_file :
      {S : Type 0} → (Request env → Action S Response) → Text → Bool → Action S (Unit {0})
  unfolding call
  direct_delete_file client path recursive =
      call env conv (client (delete_file_request path recursive)) (plain "delete file: %w")
        (λ _. tt)

  -- ListFiles
  unfoldable pub direct_list_files :
      {S : Type 0} → (Request env → Action S Response) → Text → Bool → Action S (List FileEntry)
  unfolding call
  direct_list_files client path recursive =
      call env conv (client (list_files_request path recursive)) (plain "list files: %w")
        (files_of env conv)

  -- Glob
  unfoldable pub direct_glob :
      {S : Type 0} → (Request env → Action S Response) → Text → Text → Action S (List Text)
  unfolding call
  direct_glob client pattern base_path =
      call env conv (client (glob_request pattern base_path)) (plain "glob: %w") (paths_of env conv)

  -- Grep
  unfoldable pub direct_grep :
      {S : Type 0}
      → (Request env → Action S Response)
      → Text
      → Text
      → Text
      → Bool
      → ℤ
      → Action S (List GrepMatch)
  unfolding call
  direct_grep client pattern path glob_filter ignore_case context_lines =
      call env conv (client (grep_request pattern path glob_filter ignore_case context_lines))
        (plain "grep: %w") (matches_of env conv)

  -- GitStatus
  unfoldable pub direct_git_status :
      {S : Type 0} → (Request env → Action S Response) → Text → Action S (List GitFileStatus)
  unfolding call
  direct_git_status client path =
      call env conv (client (git_status_request path)) (plain "git status: %w")
        (statuses_of env conv)

  -- GitDiff
  unfoldable pub direct_git_diff :
      {S : Type 0} → (Request env → Action S Response) → Text → Text → Bool → Action S Text
  unfolding call
  direct_git_diff client repo_path file_path staged =
      call env conv (client (git_diff_request repo_path file_path staged)) (plain "git diff: %w")
        (diff_of env conv)

  -- GitCommit
  unfoldable pub direct_git_commit :
      {S : Type 0}
      → (Request env → Action S Response)
      → Text
      → Text
      → List Text
      → Text
      → Text
      → Action S Text
  unfolding call
  direct_git_commit client repo_path message names author_name author_email =
      call env conv
        (client (
          git_commit_request repo_path message names
            (record { name = author_name; email = author_email })))
        (plain "git commit: %w") (sha_of env conv)

  -- GitClone
  unfoldable pub direct_git_clone :
      {S : Type 0} → (Request env → Action S Response) → Text → Text → Text → ℤ → Action S Text
  unfolding call
  direct_git_clone client repo_url local_path branch depth =
      call env conv (client (git_clone_request repo_url local_path branch depth))
        (plain "git clone: %w") (sha_of env conv)

  -- GitPush
  unfoldable pub direct_git_push :
      {S : Type 0}
      → (Request env → Action S Response)
      → Text
      → Text
      → Text
      → Bool
      → Action S (Unit {0})
  unfolding call
  direct_git_push client repo_path remote branch force =
      call env conv (client (git_push_request repo_path remote branch force)) (plain "git push: %w")
        (λ _. tt)

  -- DirectOps, on a client.
  unfoldable pub direct_ops : {S : Type 0} → (Request env → Action S Response) → Ops env conv S
  unfolding direct_run_bash direct_read_file direct_write_file direct_delete_file direct_list_files
      direct_glob direct_grep direct_git_status direct_git_diff direct_git_commit direct_git_clone
      direct_git_push direct_browser_start direct_browser_stop direct_browser_navigate
      direct_browser_list_pages direct_browser_close_page direct_browser_screenshot
      direct_browser_snapshot direct_browser_act direct_http_request direct_http_clear_cookies
      direct_grpc_request
  direct_ops client = record {
    run_bash = direct_run_bash client;
    read_file = direct_read_file client;
    write_file = direct_write_file client;
    delete_file = direct_delete_file client;
    list_files = direct_list_files client;
    glob = direct_glob client;
    grep = direct_grep client;
    git_status = direct_git_status client;
    git_diff = direct_git_diff client;
    git_commit = direct_git_commit client;
    git_clone = direct_git_clone client;
    git_push = direct_git_push client;
    browser_start = direct_browser_start env conv client;
    browser_stop = direct_browser_stop env conv client;
    browser_navigate = direct_browser_navigate env conv client;
    browser_list_pages = direct_browser_list_pages env conv client;
    browser_close_page = direct_browser_close_page env conv client;
    browser_screenshot = direct_browser_screenshot env conv client;
    browser_snapshot = direct_browser_snapshot env conv client;
    browser_act = direct_browser_act env conv client;
    http_request = direct_http_request env conv client;
    http_clear_cookies = direct_http_clear_cookies env conv client;
    grpc_request = direct_grpc_request env conv client;
  }
