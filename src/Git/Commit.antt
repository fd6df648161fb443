-- ===== src/Git/Commit.antt =====
-- worker/git_commit.go: resolveAuthor and gitCommit.
pub mod Committed
use remote_hands.Shared.{
  ◌≡◌, ◌≢◌, refl, Bool, true, false, ◌&&◌, ◌||◌, not, List, [], ◌∷◌, Text, Option, none, some, any,
  Result, ok, err, Error, path_traversal, connect_error, invalid_argument, permission_denied,
  internal, failed_precondition, if◌then◌else◌, map_err, is_empty,
}
use remote_hands.Git.{
  StatusCode, unmodified, untracked, FileStatus, GoGit, User, repo_path_error, open_repo_error,
}

-- Both fields of a user, if both are set.
unfoldable pub complete : Option User → Option User
complete none = none
complete (some u) = if not (is_empty u.name) && not (is_empty u.email) then some u else none

-- The first that is there.
unfoldable pub or_else {ℓ} : {A : Type ℓ} → Option A → Option A → Option A
or_else (some a) _ = some a
or_else none b = b

module _ (git : GoGit) where
  -- The third level: the repository's configuration, then the global one.
  unfoldable pub configured_author : git.State → Text → Option User
  unfolding complete or_else
  configured_author s repo_path =
      if is_empty repo_path then none else elim (git.plain_open s repo_path) [
        | err _ ↦ none
        | ok repo ↦
            or_else (complete (git.local_config s repo)) (complete (git.global_config s repo))
      ]

  -- resolveAuthor. `given` is the request's author, `init` the service's.
  unfoldable pub resolve_author : git.State → User → Text → User → Result Error User
  unfolding configured_author complete or_else
  resolve_author s init repo_path given =
      if not (is_empty given.name) || not (is_empty given.email)
      then (if is_empty given.name || is_empty given.email
          then err
              (connect_error invalid_argument "both author_name and author_email must be provided")
          else ok given)
      else elim (or_else (complete (some init)) (configured_author s repo_path)) [
        | some u ↦ ok u
        | none ↦ err (connect_error invalid_argument "git author name and email are required")
      ]

  -- The loop that stages the files. An error of `ValidatePath` other than a path traversal is passed
  -- over.
  unfoldable pub stage_files :
      (Text → Result Error Text)
      → git.Repo
      → List Text
      → git.State
      → Result Error (Unit {0}) × git.State
  stage_files validate repo [] s = (ok tt, s)
  stage_files validate repo (file ∷ files) s =
      let added : Bool × git.State = git.add s repo file in
      let rest = stage_files validate repo files added.1 in
      let go : Result Error (Unit {0}) × git.State =
        if added.0 then rest else (err (connect_error internal "git add %s: %w"), added.1) in
      elim (validate file) [
        | err path_traversal ↦ (err (connect_error permission_denied "file path traversal: %s"), s)
        | err _ ↦ go
        | ok _ ↦ go
      ]

  unfoldable pub is_staged : Text × FileStatus → Bool
  is_staged (_, fs) = elim fs.staging [ unmodified ↦ false | untracked ↦ false | _ ↦ true ]

  abbrev hash_or_error : Option Text → Result Error Text
  hash_or_error (some hash) = ok hash
  hash_or_error none = err (connect_error internal "git commit: %w")

  -- From the status on: the check for staged changes, the author, the commit.
  unfoldable pub commit_staged :
      User → git.Repo → Text → Text → User → git.State → Result Error Text × git.State
  unfolding resolve_author is_staged
  commit_staged init repo abs_path message given s = elim (git.status s repo) [
    | none ↦ (err (connect_error internal "worktree status: %w"), s)
    | some entries ↦
        if any is_staged entries
        then elim (resolve_author s init abs_path given) [
          | err e ↦ (err e, s)
          | ok author ↦
              let done = git.commit s repo message author in (hash_or_error done.0, done.1)
        ]
        else (err (connect_error failed_precondition "nothing to commit"), s)
  ]

  -- gitCommit, from the staging of the files on.
  unfoldable pub stage_and_commit :
      (Text → Result Error Text)
      → User
      → git.Repo
      → Text
      → Text
      → List Text
      → User
      → git.State
      → Result Error Text × git.State
  unfolding stage_files commit_staged
  stage_and_commit validate init repo abs_path message files given s =
      let staged = stage_files validate repo files s in
      elim staged.0 [
        | err e ↦ (err e, staged.1)
        | ok _ ↦ commit_staged init repo abs_path message given staged.1
      ]

  -- gitCommit
  unfoldable pub git_commit :
      (Text → Result Error Text)
      → User
      → Text
      → Text
      → List Text
      → User
      → git.State
      → Result Error Text × git.State
  unfolding stage_and_commit
  git_commit validate init repo_path message files given s =
      if is_empty message
      then (err (connect_error invalid_argument "commit message is required"), s)
      else elim (validate repo_path) [
        | err e ↦ (err (repo_path_error e), s)
        | ok abs_path ↦ elim (git.plain_open s abs_path) [
          | err e ↦ (err (open_repo_error e), s)
          | ok repo ↦
              if git.worktree_ok repo
              then stage_and_commit validate init repo abs_path message files given s
              else (err (connect_error internal "get worktree: %w"), s)
        ]
      ]
