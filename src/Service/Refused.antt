-- ===== src/Service/Refused.antt =====
-- worker/service.go: a request that names a path that `ValidatePath` refuses.
use remote_hands.Shared.{
  ◌≡◌, refl, ap, ◌∙◌, ℕ, ℤ, invalid_argument, permission_denied, Bool, [], List, Option, none, some,
  Text, Map, Result, ok, err, Error, path_traversal, connect_error, Bool-cases, inl, inr, is_empty,
}
use remote_hands.Host.{Host}
use remote_hands.Path.{validate_path}
use remote_hands.Command.{Command, CmdCustomizer}
use remote_hands.File.{path_error, read_file, write_file, delete_target, delete_file, checked}
use remote_hands.File.Listing.{open_directory, list_files, glob}
use remote_hands.Grep.Ripgrep.{grep}
use remote_hands.Bash.{BashRun, Send, run_bash}
use remote_hands.Process.{ProcessManager}
use remote_hands.Process.Start.{Launch, work_dir_error, start}
use remote_hands.Git.{GoGit, User, repo_path_error}
use remote_hands.Git.Status.{git_status}
use remote_hands.Git.Diff.{git_diff}
use remote_hands.Git.Commit.{git_commit}
use remote_hands.Git.Remote.{Credentials, git_clone, clone_path, git_push}
use remote_hands.Service.{
  watch_files_request, watch_stream, Environment, Answers, Response, bash_stream, Request, Service,
  validate, read_file_request, write_file_request, delete_file_request, list_files_request,
  glob_request, grep_request, run_bash_request, git_status_request, git_diff_request,
  git_commit_request, git_clone_request, git_push_request, process_start_request,
}
use remote_hands.Service.Handlers.{handle}

abbrev pub IsError : Result Error Response → Type 0
IsError (err e) = Unit
IsError (ok _) = ⊥

-- A stream that ends with an error before any event.
abbrev pub IsErrorStream : Result Error Response → Type 0
IsErrorStream (err e) = Unit
IsErrorStream (ok (bash_stream [] (some e))) = Unit
IsErrorStream (ok _) = ⊥

-- A watch that ends with an error, whatever it has sent.
abbrev pub IsErrorWatch : Result Error Response → Type 0
IsErrorWatch (err e) = Unit
IsErrorWatch (ok (watch_stream _ (some e))) = Unit
IsErrorWatch (ok _) = ⊥

-- What the components answer when `ValidatePath` refuses the path.
module _ (os : Host) (home : Text) (s : os.State) (p : Text)
    (v : validate_path os s home p ≡ err path_traversal) where
  read_file-refused :
      (offset limit : ℤ) → (e : Error) × (read_file os home s p offset limit ≡ err e)
  unfolding read_file
  read_file-refused offset limit = (path_error path_traversal, rw v)

  write_file-refused :
      (text : Text) (mode : ℤ) → (e : Error) × (write_file os home p text mode s ≡ (err e, s))
  unfolding write_file checked
  write_file-refused text mode = elim (Bool-cases (is_empty p)) [
    | inl h ↦ (connect_error invalid_argument "path is required", rw h)
    | inr h ↦ (path_error path_traversal, rw (h, v))
  ]

  delete_file-refused :
      (recursive : Bool) → (e : Error) × (delete_file os home p recursive s ≡ (err e, s))
  unfolding delete_file delete_target checked
  delete_file-refused recursive = elim (Bool-cases (is_empty p)) [
    | inl h ↦ (connect_error invalid_argument "path is required", rw h)
    | inr h ↦ (path_error path_traversal, rw (h, v))
  ]

  open_directory-refused : open_directory os home s p ≡ err (path_error path_traversal)
  unfolding open_directory
  open_directory-refused = rw v

module _ (validate : Text → Result Error Text) (p : Text)
    (v : validate p ≡ err path_traversal) where
  run_bash-refused :
      (customizer : Option CmdCustomizer) (environ : List Text) (run : Command → ℕ → BashRun)
      (send : Send) (command : Text) (timeout_ms : ℤ) (env : Map Text Text)
      → (e : Error) × (run_bash customizer environ validate run send command timeout_ms env p
          ≡ (err e, []))
  unfolding run_bash
  run_bash-refused customizer environ run send command timeout_ms env =
      elim (Bool-cases (is_empty command)) [
        | inl h ↦ (connect_error invalid_argument "command is required", rw h)
        | inr h ↦ (work_dir_error path_traversal, rw (h, v))
      ]

  start-refused :
      (customizer : Option CmdCustomizer) (environ : List Text) (os : Launch) (pm : ProcessManager)
      (command name : Text) (env : Map Text Text)
      → (e : Error) × ((start customizer environ validate os pm command name env p).result ≡ err e)
        × ((start customizer environ validate os pm command name env p).manager ≡ pm)
  unfolding start
  start-refused customizer environ os pm command name env = elim (Bool-cases (is_empty command)) [
    | inl h ↦ (connect_error invalid_argument "command is required", rw (h, start), rw (h, start))
    | inr h ↦ (work_dir_error path_traversal, rw (h, start, v), rw (h, start, v))
  ]

  module _ (git : GoGit) (s : git.State) where
    git_commit-refused :
        (init : User) (message : Text) (names : List Text) (given : User)
        → (e : Error) × (git_commit git validate init p message names given s ≡ (err e, s))
    unfolding git_commit
    git_commit-refused init message names given = elim (Bool-cases (is_empty message)) [
      | inl h ↦ (connect_error invalid_argument "commit message is required", rw h)
      | inr h ↦ (repo_path_error path_traversal, rw (h, v))
    ]

    git_clone-refused :
        (home : Text) (c : Credentials git) (repo_url branch : Text) (depth : ℤ)
        → (e : Error) × (git_clone git validate home c repo_url p branch depth s ≡ (err e, s))
    unfolding git_clone clone_path
    git_clone-refused home c repo_url branch depth = elim (Bool-cases (is_empty repo_url)) [
      | inl h ↦ (connect_error invalid_argument "repo_url is required", rw h)
      | inr h ↦ (connect_error permission_denied "path traversal attempt", rw (h, v))
    ]

    git_push-refused :
        (c : Credentials git) (remote branch : Text) (force : Bool)
        → git_push git validate c p remote branch force s
          ≡ (err (repo_path_error path_traversal), s)
    unfolding git_push
    git_push-refused c remote branch force = rw (v, git_push)

module _ (env : Environment) where
  -- The path that a request is about, or the directory that it works in. The names of the files of a
  -- commit or of a diff are not among these.
  abbrev pub named_path : Request env → Option Text
  named_path (read_file_request path _ _) = some path
  named_path (write_file_request path _ _) = some path
  named_path (delete_file_request path _) = some path
  named_path (list_files_request path _) = some path
  named_path (glob_request _ path) = some path
  named_path (grep_request _ path _ _ _) = some path
  named_path (run_bash_request _ _ _ working_dir) = some working_dir
  named_path (git_status_request path) = some path
  named_path (git_diff_request path _ _) = some path
  named_path (git_commit_request path _ _ _) = some path
  named_path (git_clone_request _ local_path _ _) = some local_path
  named_path (git_push_request repo_path _ _ _) = some repo_path
  named_path (process_start_request _ _ _ working_dir) = some working_dir
  named_path _ = none

  -- How a request fails: a stream by its end.
  abbrev pub IsRefused : Request env → Result Error Response → Type 0
  IsRefused (run_bash_request _ _ _ _) answer = IsErrorStream answer
  IsRefused (watch_files_request _) answer = IsErrorWatch answer
  IsRefused _ answer = IsError answer

  same :
      (s : Service env) {p path : Text}
      → ◌≡◌ {A = Option Text} (some p) (some path)
      → validate env s path ≡ err path_traversal
      → validate env s p ≡ err path_traversal
  same s n v = ap (validate env s) (cc) ∙ v

  -- A request whose path is refused as a path traversal fails, and leaves the whole service, with the files, the
  -- repositories, the browser and the processes, as it is.
  pub handle-IsRefused :
      (a : Answers) (r : Request env) (s : Service env) (path : Text)
      → named_path r ≡ some path
      → validate env s path ≡ err path_traversal
      → IsRefused r (handle env a r s).0 × ((handle env a r s).1 ≡ s)
  unfolding handle
  handle-IsRefused a (read_file_request p offset limit) s path n v =
      let (e, q) = read_file-refused env.os s.home_dir s.files p (same s n v) offset limit in
      rw q (tt, refl)
  handle-IsRefused a (write_file_request p text mode) s path n v =
      let (e, q) = write_file-refused env.os s.home_dir s.files p (same s n v) text mode in
      rw q (tt, refl)
  handle-IsRefused a (delete_file_request p recursive) s path n v =
      let (e, q) = delete_file-refused env.os s.home_dir s.files p (same s n v) recursive in
      rw q (tt, refl)
  handle-IsRefused a (list_files_request p recursive) s path n v =
      unfold list_files in
      rw (open_directory-refused env.os s.home_dir s.files p (same s n v)) (tt, refl)
  handle-IsRefused a (glob_request pattern p) s path n v =
      unfold glob in rw (open_directory-refused env.os s.home_dir s.files p (same s n v)) (tt, refl)
  handle-IsRefused a (grep_request pattern p f i c) s path n v =
      unfold grep in rw (open_directory-refused env.os s.home_dir s.files p (same s n v)) (tt, refl)
  handle-IsRefused a (run_bash_request c t e p) s path n v =
      let (x, q) =
        run_bash-refused (validate env s) p (same s n v) s.customizer env.environ a.run a.send c t
          e in
      rw q (tt, refl)
  handle-IsRefused a (git_status_request p) s path n v =
      unfold git_status in rw (same s n v) (tt, refl)
  handle-IsRefused a (git_diff_request p f st) s path n v =
      unfold git_diff in rw (same s n v) (tt, refl)
  handle-IsRefused a (git_commit_request p m f g) s path n v =
      let (e, q) =
        git_commit-refused (validate env s) p (same s n v) env.git s.repos s.author m f g in
      rw q (tt, refl)
  handle-IsRefused a (git_clone_request u p b d) s path n v =
      let (e, q) =
        git_clone-refused (validate env s) p (same s n v) env.git s.repos s.home_dir s.credentials u
          b d in
      rw q (tt, refl)
  handle-IsRefused a (git_push_request p r b f) s path n v =
      rw (git_push-refused (validate env s) p (same s n v) env.git s.repos s.credentials r b f)
        (tt, refl)
  handle-IsRefused a (process_start_request c n0 e p) s path n v =
      let (x, q, k) =
        start-refused (validate env s) p (same s n v) s.customizer env.environ a.launch s.process c
          n0 e in
      rw (q, k) (tt, refl)
  handle-IsRefused a _ s path n v = absurd (cc)
