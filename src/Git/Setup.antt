-- ===== src/Git/Setup.antt =====
-- worker/git_gogit.go: NewServiceWithGitAuth, with the NewService of worker/service.go that it calls.
pub mod Loaded
use remote_hands.Shared.{
  ◌≡◌, ℕ, Bool, Text, codes, Option, none, some, Result, ok, err, Error, plain, map_err, is_empty,
  [], if◌then◌else◌,
}
use remote_hands.Path.Lexical.{join_path}
use remote_hands.Process.{ProcessManager, new_process_manager}
use remote_hands.Git.{GoGit, User}
use remote_hands.Git.Remote.{Credentials}

-- ServiceGitOptions
pub record ServiceGitOptions : Type 0 where
  pub ssh_key : Text
  pub https_token : Text
  pub author_name : Text
  pub author_email : Text

-- NewService, as far as its process manager: `made` is whether the log directory could be made.
unfoldable pub new_service : Bool → ℕ → Text → Result Error ProcessManager
unfolding new_process_manager join_path
new_service made self home =
    if made
    then ok (new_process_manager home (join_path home (codes ".process-logs")) self)
    else err (plain "create process manager: %w")

-- How go-git makes credentials.
pub record AuthMethods (Auth : Type 0) : Type 0 where
  -- `gitssh.NewPublicKeys(user, pem, password)`
  pub new_public_keys : Text → Text → Text → Result Error Auth
  -- The same keys with `ssh.InsecureIgnoreHostKey()` as their callback.
  pub ignore_host_key : Auth → Auth
  -- `githttp.BasicAuth{Username, Password}`
  pub basic_auth : Text → Text → Auth

module _ (git : GoGit) (methods : AuthMethods git.Auth) where
  -- What a Service has for git, and its process manager.
  pub record GitService : Type 0 where
    pub process : ProcessManager
    pub credentials : Credentials git
    pub author : User

  -- The credentials for SSH; an empty key is no key.
  unfoldable pub load_ssh_key : Text → Result Error (Option git.Auth)
  load_ssh_key key =
      if is_empty key then ok none else elim (methods.new_public_keys (codes "git") key []) [
        | err _ ↦ err (plain "parse SSH key: %w")
        | ok auth ↦ ok (some (methods.ignore_host_key auth))
      ]

  unfoldable pub load_https_token : Text → Option git.Auth
  load_https_token token =
      if is_empty token then none else some (methods.basic_auth (codes "x-token") token)

  -- NewServiceWithGitAuth
  unfoldable pub new_service_with_git_auth :
      Bool → ℕ → Text → ServiceGitOptions → Result Error GitService
  unfolding new_service load_ssh_key load_https_token
  new_service_with_git_auth made self home opts = elim (new_service made self home) [
    | err e ↦ err e
    | ok pm ↦ elim (load_ssh_key opts.ssh_key) [
      | err e ↦ err e
      | ok ssh ↦ ok (record {
        process = pm;
        credentials = record { ssh = ssh; https = load_https_token opts.https_token };
        author = record { name = opts.author_name; email = opts.author_email };
      })
    ]
  ]
