-- ===== src/Service/Handlers.antt =====
-- worker/service.go: the handlers. Each passes its request's fields on to a component.
use remote_hands.Shared.{ℕ, Bool, List, Option, Text, ℤ, Map, Result, ok, Error}
use remote_hands.File.{read_file, write_file, delete_file}
use remote_hands.File.Listing.{list_files, glob}
use remote_hands.Grep.Ripgrep.{grep}
use remote_hands.Bash.{run_bash}
use remote_hands.Git.{User}
use remote_hands.Git.Status.{git_status}
use remote_hands.Git.Diff.{git_diff}
use remote_hands.Git.Commit.{git_commit}
use remote_hands.Git.Remote.{git_clone, git_push}
use remote_hands.Watch.Setup.{watch_files}
use remote_hands.Browser.{stop_browser, named}
use remote_hands.Browser.Requests.{BrowserRequest, serve}
use remote_hands.Http.{HttpRequest, clear_cookies, do_request}
use remote_hands.Grpc.{grpc_request}
use remote_hands.Process.Start.{Signal, start}
use remote_hands.Process.Stop.{StopAnswers, stop, stop_all, list}
use remote_hands.Process.Logs.{logs}
use remote_hands.Service.{
  Environment, Answers, Response, empty, content, file_list, paths, found, bash_stream, statuses,
  diff_text, commit_sha, browsed, http_response, grpc_response, pid, processes, log_texts, answer,
  stream_error, watched, Request, read_file_request, write_file_request, delete_file_request,
  list_files_request, glob_request, grep_request, run_bash_request, git_status_request,
  git_diff_request, git_commit_request, git_clone_request, git_push_request, watch_files_request,
  browser_request, http_request_of, grpc_request_of, process_start_request, process_stop_request,
  process_list_request, process_logs_request, http_clear_request, Service, validate,
}

module _ (env : Environment) where
  abbrev pub Handler : Type 0
  Handler = Service env → Result Error Response × Service env

  -- ReadFile
  unfoldable pub serve_read_file : Text → ℤ → ℤ → Handler
  serve_read_file path offset limit s =
      (answer content (read_file env.os s.home_dir s.files path offset limit), s)

  -- WriteFile
  unfoldable pub serve_write_file : Text → Text → ℤ → Handler
  serve_write_file path text mode s =
      let done = write_file env.os s.home_dir path text mode s.files in
      (answer (λ _. empty) done.0, record s { files = done.1 })

  -- DeleteFile
  unfoldable pub serve_delete_file : Text → Bool → Handler
  serve_delete_file path recursive s =
      let done = delete_file env.os s.home_dir path recursive s.files in
      (answer (λ _. empty) done.0, record s { files = done.1 })

  -- ListFiles
  unfoldable pub serve_list_files : Text → Bool → Handler
  serve_list_files path recursive s =
      (answer file_list (list_files env.os s.home_dir s.files path recursive), s)

  -- Glob
  unfoldable pub serve_glob : Text → Text → Handler
  serve_glob pattern path s = (
    answer paths (glob env.os env.valid_pattern env.glob_walk s.home_dir s.files pattern path),
    s,
  )

  -- Grep
  unfoldable pub serve_grep : Text → Text → Text → Bool → ℤ → Handler
  serve_grep pattern path glob_filter ignore_case context_lines s = (
    answer found (
        grep env.os env.matchers env.ripgrep s.home_dir s.files pattern path glob_filter ignore_case
          context_lines),
    s,
  )

  -- RunBash
  unfoldable pub serve_run_bash : Answers → Text → ℤ → Map Text Text → Text → Handler
  serve_run_bash a command timeout_ms vars working_dir s =
      let done =
        run_bash s.customizer env.environ (validate env s) a.run a.send command timeout_ms vars
          working_dir in
      (ok (bash_stream done.1 (stream_error done.0)), s)

  -- GitStatus
  unfoldable pub serve_git_status : Text → Handler
  serve_git_status path s = (answer statuses (git_status env.git (validate env s) s.repos path), s)

  -- GitDiff
  unfoldable pub serve_git_diff : Text → Text → Bool → Handler
  serve_git_diff path file_path staged s = (
    answer diff_text
        (git_diff env.git env.diff (validate env s) env.encode s.repos path file_path staged),
    s,
  )

  -- GitCommit
  unfoldable pub serve_git_commit : Text → Text → List Text → User → Handler
  serve_git_commit path message names given s =
      let done = git_commit env.git (validate env s) s.author path message names given s.repos in
      (answer commit_sha done.0, record s { repos = done.1 })

  -- GitClone
  unfoldable pub serve_git_clone : Text → Text → Text → ℤ → Handler
  serve_git_clone repo_url local_path branch depth s =
      let done =
        git_clone env.git (validate env s) s.home_dir s.credentials repo_url local_path branch depth
          s.repos in
      (answer commit_sha done.0, record s { repos = done.1 })

  -- GitPush
  unfoldable pub serve_git_push : Text → Text → Text → Bool → Handler
  serve_git_push repo_path remote branch force s =
      let done =
        git_push env.git (validate env s) s.credentials repo_path remote branch force s.repos in
      (answer (λ _. empty) done.0, record s { repos = done.1 })

  -- WatchFiles
  unfoldable pub serve_watch_files : Answers → List Text → Handler
  serve_watch_files a patterns s =
      (watched (watch_files a.starting (record a.watching { patterns = patterns }) a.events), s)

  -- the Browser handlers
  unfoldable pub serve_browser : BrowserRequest env.rod → Handler
  serve_browser r s =
      let done = serve env.rod r s.session in (answer browsed done.0, record s { session = done.1 })

  -- HttpRequest
  unfoldable pub serve_http_request : HttpRequest → Handler
  serve_http_request q s =
      let done = do_request env.net s.http_client q in
      (answer http_response done.result, record s { http_client = done.client })

  -- HttpClearCookies
  unfoldable pub serve_http_clear_cookies : Handler
  serve_http_clear_cookies s = (ok empty, record s { http_client = clear_cookies s.http_client })

  -- GrpcRequest
  unfoldable pub serve_grpc_request :
      Text → Text → Option Text → List (Text × Text) → Option Text → Bool → Handler
  serve_grpc_request address method body metadata proto_file _ s = (
    answer grpc_response (
        grpc_request (validate env s) env.grpcurl address method (named body) metadata
          (named proto_file)),
    s,
  )

  -- ProcessStart
  unfoldable pub serve_process_start : Answers → Text → Text → Map Text Text → Text → Handler
  serve_process_start a command name vars working_dir s =
      let done =
        start s.customizer env.environ (validate env s) a.launch s.process command name vars
          working_dir in
      (answer pid done.result, record s { process = done.manager })

  -- ProcessStop
  unfoldable pub serve_process_stop : Answers → ℕ → Handler
  serve_process_stop a id s =
      let done = stop a.stop s.process id in
      (answer (λ _. empty) done.result, record s { process = done.manager })

  -- ProcessList
  unfoldable pub serve_process_list : Bool → Handler
  serve_process_list include_exited s = (ok (processes (list s.process include_exited)), s)

  -- ProcessLogs
  unfoldable pub serve_process_logs : ℕ → ℤ → ℤ → Handler
  serve_process_logs id head tail s =
      (answer (λ t. log_texts t.0 t.1) (logs env.os s.files s.process id head tail), s)

  -- The handler of each request.
  unfoldable pub handle : Answers → Request env → Handler
  unfolding serve_read_file serve_write_file serve_delete_file serve_list_files serve_glob
      serve_grep serve_run_bash serve_git_status serve_git_diff serve_git_commit serve_git_clone
      serve_git_push serve_watch_files serve_browser serve_http_request serve_http_clear_cookies
      serve_grpc_request serve_process_start serve_process_stop serve_process_list
      serve_process_logs
  handle a (read_file_request path offset limit) = serve_read_file path offset limit
  handle a (write_file_request path text mode) = serve_write_file path text mode
  handle a (delete_file_request path recursive) = serve_delete_file path recursive
  handle a (list_files_request path recursive) = serve_list_files path recursive
  handle a (glob_request pattern path) = serve_glob pattern path
  handle a (grep_request pattern path glob_filter ignore_case context_lines) =
      serve_grep pattern path glob_filter ignore_case context_lines
  handle a (run_bash_request command timeout_ms vars working_dir) =
      serve_run_bash a command timeout_ms vars working_dir
  handle a (git_status_request path) = serve_git_status path
  handle a (git_diff_request path file_path staged) = serve_git_diff path file_path staged
  handle a (git_commit_request path message names given) = serve_git_commit path message names given
  handle a (git_clone_request repo_url local_path branch depth) =
      serve_git_clone repo_url local_path branch depth
  handle a (git_push_request repo_path remote branch force) =
      serve_git_push repo_path remote branch force
  handle a (watch_files_request patterns) = serve_watch_files a patterns
  handle a (browser_request r) = serve_browser r
  handle a (http_request_of q) = serve_http_request q
  handle a http_clear_request = serve_http_clear_cookies
  handle a (grpc_request_of address method body metadata proto_file use_reflection) =
      serve_grpc_request address method body metadata proto_file use_reflection
  handle a (process_start_request command name vars working_dir) =
      serve_process_start a command name vars working_dir
  handle a (process_stop_request id) = serve_process_stop a id
  handle a (process_list_request include_exited) = serve_process_list include_exited
  handle a (process_logs_request id head tail) = serve_process_logs id head tail

  -- Close, with the signals of `StopAll`.
  unfoldable pub close :
      (ℕ → StopAnswers) → Service env → List Signal × Result Error (Unit {0}) × Service env
  close stops s =
      let ended = stop_all stops s.process in
      let done = stop_browser env.rod s.session in
      (ended.0, done.0, record s { process = ended.1; session = done.1 })
