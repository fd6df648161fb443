-- ===== src/Service/Invariant.antt =====
-- worker/service.go: what every request leaves well formed, in all components at once.
use remote_hands.Shared.{
  ◌≡◌, refl, ℕ, [], ◌∷◌, List, Option, Text, Map, Result, Error, Bool-cases, Option-cases,
  Result-cases, inl, inr, is_empty,
}
use remote_hands.Command.{Command, CmdCustomizer}
use remote_hands.Process.{ProcessManager, new_process_manager}
use remote_hands.Process.Start.{Launch, launch, start}
use remote_hands.Process.Stop.{StopAnswers}
use remote_hands.Process.Stop.Reached.{stop-Reachable, stop_all-Reachable}
use remote_hands.Process.Reach.{Step, started, Reachable, new_manager, next}
use remote_hands.Http.Cookies.{ReachableClient, fresh_client, requested, cleared}
use remote_hands.Browser.{Session, stop_browser}
use remote_hands.Browser.Invariant.{BrowserOk, BrowserOk-Closed, new_browser_manager-BrowserOk}
use remote_hands.Browser.Methods.{serve_all-keeps, stop_browser-Keeps}
use remote_hands.Browser.Requests.{BrowserRequest, serve, serve_all}
use remote_hands.Git.{User}
use remote_hands.Git.Remote.{Credentials}
use remote_hands.Action.{Keeps}
use remote_hands.Service.{
  set_cmd_customizer, service_of, Environment, Answers, Request, Service, read_file_request,
  write_file_request, delete_file_request, list_files_request, glob_request, grep_request,
  run_bash_request, git_status_request, git_diff_request, git_commit_request, git_clone_request,
  git_push_request, watch_files_request, grpc_request_of, process_list_request,
  process_logs_request, browser_request, http_request_of, http_clear_request, process_start_request,
  process_stop_request,
}
use remote_hands.Service.Handlers.{handle, close}

-- A manager that its own steps reach, as it was or after one more.
module _ {home log : Text} {self : ℕ} where
  launch-Reachable :
      {pm : ProcessManager} (os : Launch) (cmd : Command) (name command work_dir : Text)
      → Reachable home log self pm
      → Reachable home log self (launch pm os cmd name command work_dir).manager
  unfolding launch
  launch-Reachable {pm = pm} os cmd name command work_dir r = elim (Bool-cases os.stdout_pipe) [
    | inr h ↦ rw (h, launch) r
    | inl h ↦ elim (Bool-cases os.stderr_pipe) [
      | inr k ↦ rw (h, launch, k) r
      | inl k ↦ elim (Option-cases (os.start cmd)) [
        | inl e ↦ rw (h, launch, k, e) r
        | inr (pid, e) ↦ elim (Bool-cases os.stdout_log) [
          | inr l ↦ rw (h, launch, k, e, l) r
          | inl l ↦ elim (Bool-cases os.stderr_log) [
            | inr m ↦ rw (h, launch, k, e, l, m) r
            | inl m ↦ rw (h, launch, k, e, l, m) (next r (started pid name command work_dir os.now))
          ]
        ]
      ]
    ]
  ]

  start-Reachable :
      {pm : ProcessManager} (customizer : Option CmdCustomizer) (environ : List Text)
      (validate : Text → Result Error Text) (os : Launch) (command name : Text)
      (env : Map Text Text) (working_dir : Text)
      → Reachable home log self pm
      → Reachable home log self
          (start customizer environ validate os pm command name env working_dir).manager
  unfolding start
  start-Reachable customizer environ validate os command name env working_dir r =
      elim (Bool-cases (is_empty command)) [
        | inl h ↦ rw (h, start) r
        | inr h ↦ elim (Result-cases (validate working_dir)) [
          | inr (e, v) ↦ rw (h, start, v) r
          | inl (dir, v) ↦ rw (h, start, v) (launch-Reachable os _ name command dir r)
        ]
      ]

module _ (env : Environment) (home log : Text) (self : ℕ) (credentials : Credentials env.git)
    (author : User) where
  -- One request, the shutdown, the installation of a customizer, a step of the process manager's
  -- goroutines or of a `ProcessTail`, or a change of what stands outside.
  pub data ServiceStep (s : Service env) : Service env → Type 0 where
    handled : (a : Answers) (r : Request env) → ServiceStep s (handle env a r s).1
    shut : (stops : ℕ → StopAnswers) → ServiceStep s (close env stops s).2
    customized : (f : CmdCustomizer) → ServiceStep s (set_cmd_customizer env f s)
    worked : {pm : ProcessManager} → Step s.process pm → ServiceStep s (record s { process = pm })
    elsewhere :
        (world : env.rod.World) (files : env.os.State) (repos : env.git.State)
        → ServiceStep s (record s {
          session = record s.session { world = world };
          files = files;
          repos = repos;
        })

  -- The states of a service, from its creation on.
  pub data ReachableService : Service env → Type 0 where
    created :
        (world : env.rod.World) (files : env.os.State) (repos : env.git.State)
        → ReachableService (
            service_of env home
              (new_process_manager home log self)
              credentials
              author
              world
              files
              repos)
    later : {s t : Service env} → ReachableService s → ServiceStep s t → ReachableService t

  -- Each component is in a state that its own operations reach, and what was configured stands.
  abbrev pub ServiceOk : Service env → Type 0
  ServiceOk s =
      Reachable home log self s.process
      × ReachableClient env.net s.http_client
      × BrowserOk env.rod s.session.bm
      × (s.home_dir ≡ home)
      × (s.credentials ≡ credentials)
      × (s.author ≡ author)

  serve-BrowserOk :
      (r : BrowserRequest env.rod) (b : Session env.rod)
      → BrowserOk env.rod b.bm
      → BrowserOk env.rod (serve env.rod r b).1.bm
  serve-BrowserOk r b v =
      unfold serve_all in
      serve_all-keeps env.rod (BrowserOk env.rod) (BrowserOk-Closed env.rod) (r ∷ []) b v

  handle-ServiceOk :
      (a : Answers) (r : Request env) (s : Service env)
      → ServiceOk s
      → ServiceOk (handle env a r s).1
  unfolding handle
  handle-ServiceOk a (read_file_request path offset limit) s v = v
  handle-ServiceOk a (write_file_request path text mode) s v = v
  handle-ServiceOk a (delete_file_request path recursive) s v = v
  handle-ServiceOk a (list_files_request path recursive) s v = v
  handle-ServiceOk a (glob_request pattern path) s v = v
  handle-ServiceOk a (grep_request pattern path glob_filter ignore_case context_lines) s v = v
  handle-ServiceOk a (run_bash_request command timeout_ms vars working_dir) s v = v
  handle-ServiceOk a (git_status_request path) s v = v
  handle-ServiceOk a (git_diff_request path file_path staged) s v = v
  handle-ServiceOk a (git_commit_request path message names given) s v = v
  handle-ServiceOk a (git_clone_request repo_url local_path branch depth) s v = v
  handle-ServiceOk a (git_push_request repo_path remote branch force) s v = v
  handle-ServiceOk a (watch_files_request patterns) s v = v
  handle-ServiceOk a (grpc_request_of address method body metadata proto_file reflection) s v = v
  handle-ServiceOk a (process_list_request include_exited) s v = v
  handle-ServiceOk a (process_logs_request id head tail) s v = v
  handle-ServiceOk a (browser_request r) s v =
      (v.0, v.1, serve-BrowserOk r s.session v.2, v.3, v.4, v.5)
  handle-ServiceOk a (http_request_of q) s v = (v.0, requested q v.1, v.2, v.3, v.4, v.5)
  handle-ServiceOk a http_clear_request s v = (v.0, cleared v.1, v.2, v.3, v.4, v.5)
  handle-ServiceOk a (process_start_request command name vars working_dir) s v = (
    start-Reachable s.customizer env.environ _ a.launch command name vars working_dir v.0,
    v.1,
    v.2,
    v.3,
    v.4,
    v.5,
  )
  handle-ServiceOk a (process_stop_request id) s v =
      (stop-Reachable a.stop id v.0, v.1, v.2, v.3, v.4, v.5)

  stop_keeps :
      (b : Session env.rod)
      → BrowserOk env.rod b.bm
      → BrowserOk env.rod (stop_browser env.rod b).1.bm
  stop_keeps b v =
      Keeps.keeps (stop_browser-Keeps env.rod (BrowserOk env.rod) (BrowserOk-Closed env.rod)) b v

  ServiceStep-ServiceOk : {s t : Service env} → ServiceStep s t → ServiceOk s → ServiceOk t
  unfolding close set_cmd_customizer
  ServiceStep-ServiceOk {s = s} (handled a r) v = handle-ServiceOk a r s v
  ServiceStep-ServiceOk {s = s} (shut stops) v =
      (stop_all-Reachable stops v.0, v.1, stop_keeps s.session v.2, v.3, v.4, v.5)
  ServiceStep-ServiceOk (customized f) v = v
  ServiceStep-ServiceOk (worked st) v = (next v.0 st, v.1, v.2, v.3, v.4, v.5)
  ServiceStep-ServiceOk (elsewhere world files repos) v = v

  -- Behind any requests, and whatever the goroutines and the machine do between them, the process
  -- manager and the HTTP client are in states that their own steps reach from new ones, the fields
  -- of the browser manager agree, and the home directory, the credentials and the author are those
  -- that the service was made with.
  pub ReachableService-ServiceOk : {s : Service env} → ReachableService s → ServiceOk s
  unfolding service_of
  ReachableService-ServiceOk (created world files repos) =
      (new_manager, fresh_client, new_browser_manager-BrowserOk env.rod, refl, refl, refl)
  ReachableService-ServiceOk (later r st) = ServiceStep-ServiceOk st (ReachableService-ServiceOk r)
