-- ===== src/Git.antt =====
-- worker/git_status.go, worker/git_commit.go and worker/git_gogit.go. The library go-git is a
-- parameter: a record of its calls over an unknown repository.
pub mod Status
pub mod Commit
pub mod Remote
pub mod Diff
pub mod Setup
use remote_hands.Shared.{
  ℕ, Bool, Text, ℤ, List, Option, Result, Error, path_traversal, connect_error, permission_denied,
  internal, failed_precondition,
}

-- `git.StatusCode`
pub data StatusCode : Type 0 where
  unmodified untracked modified added deleted renamed copied updated_but_unmerged : StatusCode

-- `git.FileStatus`
pub record FileStatus : Type 0 where
  pub staging : StatusCode
  pub worktree : StatusCode

-- `git.PlainOpen` and its errors, as far as they are told apart.
pub data OpenError : Type 0 where
  not_exists other_error : OpenError

-- The first errors of a request on a repository.
abbrev pub repo_path_error : Error → Error
repo_path_error path_traversal = connect_error permission_denied "path traversal attempt"
repo_path_error _ = connect_error internal "path validation failed: %w"

abbrev pub open_repo_error : OpenError → Error
open_repo_error not_exists = connect_error failed_precondition "not a git repository"
open_repo_error other_error = connect_error internal "open repository: %w"

-- A Git configuration's user section.
pub record User : Type 0 where
  pub name : Text
  pub email : Text

-- `git.CloneOptions` and `git.PushOptions`, as far as they are set; `auth` is none for nil.
pub record CloneOptions (Auth : Type 0) : Type 0 where
  pub url : Text
  pub auth : Option Auth
  pub depth : ℕ
  pub branch : Option Text
  pub single_branch : Bool

pub record PushOptions (Auth : Type 0) : Type 0 where
  pub remote_name : Text
  pub auth : Option Auth
  pub force : Bool
  pub ref_specs : List Text

-- How a push ends.
pub data PushResult : Type 0 where
  pushed up_to_date push_failed : PushResult

-- go-git's calls. `State` is everything that they may change.
pub record GoGit : Type 1 where
  pub State : Type 0
  pub Repo : Type 0
  pub Auth : Type 0
  pub plain_open : State → Text → Result OpenError Repo
  pub worktree_ok : Repo → Bool
  -- `wt.Status()`
  pub status : State → Repo → Option (List (Text × FileStatus))
  -- `wt.Add(file)`
  pub add : State → Repo → Text → Bool × State
  -- `wt.Commit`, with the author's name and email.
  pub commit : State → Repo → Text → User → Option Text × State
  pub local_config : State → Repo → Option User
  pub global_config : State → Repo → Option User
  -- `git.PlainCloneContext` with the hash of HEAD, the two ways in which it fails apart.
  pub clone : State → Text → CloneOptions Auth → Result Bool Text × State
  -- The URLs of a remote.
  pub remote_urls : State → Repo → Text → Option (List Text)
  pub push : State → Repo → PushOptions Auth → PushResult × State
