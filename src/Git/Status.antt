-- ===== src/Git/Status.antt =====
-- worker/git_status.go: gitStatus and mapGoGitStatus.
pub mod Deleted
use remote_hands.Shared.{
  Bool, true, false, ◌&&◌, ◌||◌, List, [], ◌∷◌, Text, codes, none, some, Result, ok, err, Error,
  connect_error, internal, if◌then◌else◌, map_err, ◌>>=◌, is_empty,
}
use remote_hands.Git.{
  StatusCode, untracked, modified, added, deleted, renamed, copied, FileStatus, GoGit,
  repo_path_error, open_repo_error,
}

unfoldable pub is_untracked : StatusCode → Bool
is_untracked untracked = true
is_untracked _ = false

unfoldable pub is_deleted : StatusCode → Bool
is_deleted deleted = true
is_deleted _ = false

unfoldable pub is_modified : StatusCode → Bool
is_modified modified = true
is_modified _ = false

-- The tests on the staging code alone.
unfoldable pub is_added : StatusCode → Bool
is_added added = true
is_added copied = true
is_added _ = false

unfoldable pub is_renamed : StatusCode → Bool
is_renamed renamed = true
is_renamed _ = false

-- mapGoGitStatus
unfoldable pub map_go_git_status : StatusCode → StatusCode → Text
unfolding is_untracked is_deleted is_modified is_added is_renamed
map_go_git_status staging worktree =
    if is_untracked staging && is_untracked worktree
    then codes "untracked"
    else if is_added staging
    then codes "added"
    else if is_deleted staging || is_deleted worktree
    then codes "deleted"
    else if is_modified staging || is_modified worktree
    then codes "modified"
    else if is_renamed staging
    then codes "modified"
    else []

-- GitFileStatus
pub record GitFileStatus : Type 0 where
  pub path : Text
  pub status : Text

-- The loop over the status, in the order in which the map is visited.
unfoldable pub file_statuses : List (Text × FileStatus) → List GitFileStatus
unfolding map_go_git_status
file_statuses [] = []
file_statuses ((path, fs) ∷ rest) =
    let mapped : Text = map_go_git_status fs.staging fs.worktree in
    let more = file_statuses rest in
    if is_empty mapped then more else record { path = path; status = mapped } ∷ more

-- gitStatus. `validate` is `ValidatePath` on the service's home directory.
unfoldable pub git_status :
    (git : GoGit)
    → (Text → Result Error Text)
    → git.State
    → Text
    → Result Error (List GitFileStatus)
unfolding file_statuses
git_status git validate s repo_path = do
  abs_path ← map_err (validate repo_path) repo_path_error
  repo ← map_err (git.plain_open s abs_path) open_repo_error
  if git.worktree_ok repo
      then elim (git.status s repo) [
        | none ↦ err (connect_error internal "worktree status: %w")
        | some entries ↦ ok (file_statuses entries)
      ]
      else err (connect_error internal "get worktree: %w")
