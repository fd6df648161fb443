-- ===== src/Git/Status/Deleted.antt =====
-- worker/git_status.go: which files are reported as deleted.
use remote_hands.Shared.{◌≡◌, refl, false, ◌||◌, codes, arith, if◌then◌else◌, text_eq}
use remote_hands.Git.{
  StatusCode, unmodified, untracked, modified, added, deleted, renamed, copied,
  updated_but_unmerged,
}
use remote_hands.Git.Status.{
  is_untracked, is_deleted, is_modified, is_added, is_renamed, map_go_git_status,
}

-- A file is reported as deleted exactly when it is deleted in the index or in the working tree and
-- not added or copied in the index.
pub map_go_git_status-deleted :
    (staging worktree : StatusCode)
    → text_eq (map_go_git_status staging worktree) (codes "deleted")
      ≡ (if is_added staging then false else is_deleted staging || is_deleted worktree)
unfolding map_go_git_status is_untracked is_deleted is_modified is_added is_renamed text_eq
map_go_git_status-deleted untracked unmodified = refl
map_go_git_status-deleted untracked untracked = refl
map_go_git_status-deleted untracked modified = refl
map_go_git_status-deleted untracked added = refl
map_go_git_status-deleted untracked deleted = refl
map_go_git_status-deleted untracked renamed = refl
map_go_git_status-deleted untracked copied = refl
map_go_git_status-deleted untracked updated_but_unmerged = refl
map_go_git_status-deleted added worktree = refl
map_go_git_status-deleted copied worktree = refl
map_go_git_status-deleted deleted worktree = refl
map_go_git_status-deleted unmodified worktree = ground arith
map_go_git_status-deleted modified worktree = ground arith
map_go_git_status-deleted renamed worktree = ground arith
map_go_git_status-deleted updated_but_unmerged worktree = ground arith
