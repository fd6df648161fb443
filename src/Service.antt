-- ===== src/Service.antt =====
-- worker/service.go: the service, its state, and the requests that it passes on to the components.
pub mod Handlers
pub mod Invariant
pub mod Refused
pub mod Shutdown
use remote_hands.Shared.{
  ℕ, Bool, List, [], ◌∷◌, Option, none, some, Text, ℤ, Map, Result, ok, err, Error,
}
use remote_hands.Host.{Host}
use remote_hands.Path.{validate_path}
use remote_hands.Command.{Command, CmdCustomizer}
use remote_hands.File.{read_file, write_file, delete_file}
use remote_hands.File.Listing.{FileEntry, list_files, glob}
use remote_hands.Grep.{GrepMatch, Matchers}
use remote_hands.Grep.Ripgrep.{RgRun, grep}
use remote_hands.Bash.{RunBashEvent, BashRun, Send, run_bash}
use remote_hands.Git.{GoGit, User}
use remote_hands.Git.Status.{GitFileStatus, git_status}
use remote_hands.Git.Diff.{git_diff}
use remote_hands.Git.Diff.Patch.{DiffLibrary, FilePatch}
use remote_hands.Git.Commit.{git_commit}
use remote_hands.Git.Remote.{Credentials, git_clone, git_push}
use remote_hands.Watch.{Event, FileEvent, Watching}
use remote_hands.Watch.Setup.{Starting, watch_files}
use remote_hands.Rod.{Rod}
use remote_hands.Browser.{Session, new_browser_manager, stop_browser, named}
use remote_hands.Browser.Requests.{BrowserAnswer, BrowserRequest, serve}
use remote_hands.Http.{
  HttpClient, HttpRequest, HttpResult, Net, new_http_client, clear_cookies, do_request,
}
use remote_hands.Grpc.{GrpcResult, GrpcurlRun, grpc_request}
use remote_hands.Process.{ProcessManager}
use remote_hands.Process.Start.{Launch, Signal, start}
use remote_hands.Process.Stop.{StopAnswers, ProcessInfo, stop, stop_all, list}
use remote_hands.Process.Logs.{logs}

-- What stands outside the service: the operating system and the libraries. go-git's state is kept
-- apart from that of the other calls.
pub record Environment : Type 1 where
  pub os : Host
  pub git : GoGit
  pub diff : DiffLibrary git
  pub encode : List (FilePatch git diff) → Option Text
  pub rod : Rod
  pub net : Net
  pub matchers : Matchers
  pub ripgrep : Option (List Text → RgRun)
  -- `doublestar.ValidatePattern` and `doublestar.GlobWalk`
  pub valid_pattern : Text → Bool
  pub glob_walk : os.State → Text → Text → Result Text (List Text)
  pub grpcurl : List Text → GrpcurlRun
  -- `cmd.Environ()`
  pub environ : List Text

-- What a command, a process or a watcher comes to while one request is handled.
pub record Answers : Type 0 where
  pub launch : Launch
  pub stop : StopAnswers
  pub run : Command → ℕ → BashRun
  pub send : Send
  pub starting : Starting
  pub watching : Watching
  pub events : List Event

-- An answer to a request. A stream comes with the error that ends it, if there is one.
pub data Response : Type 0 where
  empty : Response
  content : Text → Response
  file_list : List FileEntry → Response
  paths : List Text → Response
  found : List GrepMatch → Response
  bash_stream : List RunBashEvent → Option Error → Response
  statuses : List GitFileStatus → Response
  diff_text : Text → Response
  commit_sha : Text → Response
  watch_stream : List FileEvent → Option Error → Response
  browsed : BrowserAnswer → Response
  http_response : HttpResult → Response
  grpc_response : GrpcResult → Response
  pid : ℕ → Response
  processes : List ProcessInfo → Response
  log_texts : Text → Text → Response

abbrev pub answer : {A : Type 0} → (A → Response) → Result Error A → Result Error Response
answer wrap (ok a) = ok (wrap a)
answer wrap (err e) = err e

abbrev pub stream_error {ℓ} : {A : Type ℓ} → Result Error A → Option Error
stream_error (ok _) = none
stream_error (err e) = some e

abbrev pub watched : Result Error (List Text × List FileEvent) → Result Error Response
watched (ok r) = ok (watch_stream r.1 none)
watched (err e) = ok (watch_stream [] (some e))

module _ (env : Environment) where
  -- The requests of the protocol but `ProcessTail`, which works through steps of the process manager.
  pub data Request : Type 0 where
    read_file_request : Text → ℤ → ℤ → Request
    write_file_request : Text → Text → ℤ → Request
    delete_file_request : Text → Bool → Request
    list_files_request : Text → Bool → Request
    glob_request : Text → Text → Request
    grep_request : Text → Text → Text → Bool → ℤ → Request
    run_bash_request : Text → ℤ → Map Text Text → Text → Request
    git_status_request : Text → Request
    git_diff_request : Text → Text → Bool → Request
    git_commit_request : Text → Text → List Text → User → Request
    git_clone_request : Text → Text → Text → ℤ → Request
    git_push_request : Text → Text → Text → Bool → Request
    watch_files_request : List Text → Request
    browser_request : BrowserRequest env.rod → Request
    http_request_of : HttpRequest → Request
    http_clear_request : Request
    grpc_request_of : Text → Text → Option Text → List (Text × Text) → Option Text → Bool → Request
    process_start_request : Text → Text → Map Text Text → Text → Request
    process_stop_request : ℕ → Request
    process_list_request : Bool → Request
    process_logs_request : ℕ → ℤ → ℤ → Request

  -- Service, with the state of what it works on.
  pub record Service : Type 0 where
    pub home_dir : Text
    pub customizer : Option CmdCustomizer
    pub credentials : Credentials env.git
    pub author : User
    pub process : ProcessManager
    pub session : Session env.rod
    pub http_client : HttpClient
    pub files : env.os.State
    pub repos : env.git.State

  -- The Service that NewService and NewServiceWithGitAuth return, with what it finds outside.
  unfoldable pub service_of :
      Text
      → ProcessManager
      → Credentials env.git
      → User
      → env.rod.World
      → env.os.State
      → env.git.State
      → Service
  service_of home pm credentials author world files repos = record {
    home_dir = home;
    customizer = none;
    credentials = credentials;
    author = author;
    process = pm;
    session = record { bm = new_browser_manager; world = world };
    http_client = new_http_client;
    files = files;
    repos = repos;
  }

  -- `ValidatePath` on the home directory.
  abbrev pub validate : Service → Text → Result Error Text
  validate s = validate_path env.os s.files s.home_dir

  -- SetCmdCustomizer: the process manager is given the same function.
  unfoldable pub set_cmd_customizer : CmdCustomizer → Service → Service
  set_cmd_customizer f s = record s { customizer = some f }
