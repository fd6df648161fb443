-- ===== src/Serving.antt =====
-- cmd/remotehands/main.go: the server's flags, the service that it makes, the check of bearer tokens
-- in front of it, and its shutdown.
pub mod Guarded
use remote_hands.Shared.{
  ◌≡◌, ℕ, Bool, true, false, not, ◌&&◌, ◌||◌, List, [], ◌∷◌, Text, codes, Option, none, Result, ok,
  err, Error, plain, is_empty, if◌then◌else◌, map_err,
}
use remote_hands.Auth.{Headers, intercept}
use remote_hands.Process.{ProcessManager}
use remote_hands.Process.Start.{Signal}
use remote_hands.Process.Stop.{StopAnswers}
use remote_hands.Git.{User}
use remote_hands.Git.Remote.{Credentials}
use remote_hands.Git.Setup.{
  ServiceGitOptions, AuthMethods, GitService, new_service, new_service_with_git_auth,
}
use remote_hands.Service.{Environment, Answers, Request, Response, Service, service_of}
use remote_hands.Service.Handlers.{handle, close}

-- The flags, and `os.Getenv`: a variable that is not set is empty.
pub record ServerFlags : Type 0 where
  pub listen : Text
  pub socket : Text
  pub home : Text
  pub auth_token_env : Text

abbrev pub Getenv : Type 0
Getenv = Text → Text

-- Where the server listens, and its token.
pub record ServerConfig : Type 0 where
  pub network : Text
  pub addr : Text
  pub auth_token : Text

-- The flags' validation, the defaults, and the reading of the token.
unfoldable pub server_config : Getenv → ServerFlags → Result Error ServerConfig
server_config getenv flags =
    if is_empty flags.home
    then err (plain "--home is required")
    else if not (is_empty flags.listen) && not (is_empty flags.socket)
    then err (plain "--listen and --socket are mutually exclusive")
    else ok (record {
      network = if is_empty flags.socket then codes "tcp" else codes "unix";
      addr =
          if not (is_empty flags.socket)
          then flags.socket
          else if not (is_empty flags.listen)
          then flags.listen
          else codes "0.0.0.0:19051";
      auth_token = if is_empty flags.auth_token_env then [] else getenv flags.auth_token_env;
    })

module _ (env : Environment) (methods : AuthMethods env.git.Auth) where
  -- The parts that a Service is made of.
  abbrev pub Parts : Type 0
  Parts = GitService env.git methods

  abbrev without_git : ProcessManager → Parts
  without_git pm = record {
    process = pm;
    credentials = record { ssh = none; https = none };
    author = record { name = []; email = [] };
  }

  -- The choice between NewService and NewServiceWithGitAuth.
  unfoldable pub create_service : Bool → ℕ → Getenv → Text → Result Error Parts
  unfolding new_service new_service_with_git_auth
  create_service made self getenv home =
      let name : Text = getenv (codes "GIT_AUTHOR_NAME") in
      let email : Text = getenv (codes "GIT_AUTHOR_EMAIL") in
      map_err
        (if not (is_empty name) || not (is_empty email)
          then new_service_with_git_auth env.git methods made self home
              (record { ssh_key = []; https_token = []; author_name = name; author_email = email })
          else elim (new_service made self home) [ err e ↦ err e | ok pm ↦ ok (without_git pm) ])
        (λ _. plain "create service: %w")

-- A request on its way in: its headers, and what it meets while it is handled.
pub record Arrival (env : Environment) : Type 0 where
  pub headers : Headers
  pub answers : Answers
  pub request : Request env

module _ (env : Environment) where
  -- A request behind the interceptors, which are there only if there is a token.
  unfoldable pub serve_one : Text → Arrival env → Service env → Result Error Response × Service env
  serve_one token a s =
      if is_empty token
      then handle env a.answers a.request s
      else elim (intercept {0} {A = Unit {0}} token a.headers (ok tt)) [
        | err e ↦ (err e, s)
        | ok _ ↦ handle env a.answers a.request s
      ]

  -- The server, on the requests that reach it one after the other.
  unfoldable pub serve_arrivals :
      Text → List (Arrival env) → Service env → List (Result Error Response) × Service env
  unfolding serve_one
  serve_arrivals token [] s = ([], s)
  serve_arrivals token (a ∷ arrivals) s =
      let first = serve_one token a s in
      let rest = serve_arrivals token arrivals first.1 in (first.0 ∷ rest.0, rest.1)

  -- The rest of the run: the requests, and the shutdown by a signal.
  unfoldable pub run_server :
      Text
      → List (Arrival env)
      → (ℕ → StopAnswers)
      → Service env
      → List (Result Error Response) × List Signal × Service env
  unfolding serve_arrivals close
  run_server token arrivals stops s =
      let served = serve_arrivals token arrivals s in
      let closed = close env stops served.1 in (served.0, closed.0, closed.2)
