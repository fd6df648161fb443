-- ===== src/Git/Diff.antt =====
-- worker/git_diff.go: the patches of a diff, and the request. The encoding of patches is a parameter.
pub mod Patch
pub mod Changed
pub mod Texts
use remote_hands.Shared.{
  ℕ, Bool, true, false, ◌&&◌, ◌||◌, not, List, [], ◌∷◌, Text, Text_eq, text_eq, codes, Option, none,
  some, Result, ok, err, Error, take, index_byte, connect_error, internal, permission_denied,
  path_traversal, if◌then◌else◌, map_err, ◌>>=◌, ◌>>◌, is_empty,
}
use remote_hands.Path.Lexical.{join_path}
use remote_hands.Git.{
  StatusCode, unmodified, untracked, added, deleted, FileStatus, GoGit, repo_path_error,
  open_repo_error,
}
use remote_hands.Git.Status.{is_untracked, is_deleted}
use remote_hands.Git.Diff.Patch.{
  DiffLibrary, FilePatch, no_side, index_side, tree_side, work_side, build_file_patch,
}

-- The files that a diff passes over: unchanged, untracked, or not the one asked for.
unfoldable pub is_unchanged : StatusCode → Bool
is_unchanged unmodified = true
is_unchanged untracked = true
is_unchanged _ = false

unfoldable pub is_left_out : Text → Text → StatusCode → Bool
unfolding is_unchanged text_eq
is_left_out filter_path name code =
    is_unchanged code || (not (is_empty filter_path) && not (text_eq name filter_path))

module _ (git : GoGit) (lib : DiffLibrary git) where
  -- A round of buildUnstagedDiff.
  unfoldable pub unstaged_patch :
      git.State
      → git.Repo
      → Text
      → List (Text × lib.Hash)
      → Text
      → FileStatus
      → Result Error (FilePatch git lib)
  unfolding index_side work_side build_file_patch is_deleted
  unstaged_patch s repo root entries name fs = do
    to ← (if is_deleted fs.worktree then ok (no_side git lib) else work_side git lib s root name)
    ok (
        build_file_patch git lib name false (is_deleted fs.worktree)
          (index_side git lib s repo entries name) to)

  -- Its loop over the status, in the order in which the map is visited.
  unfoldable pub unstaged_patches :
      git.State
      → git.Repo
      → Text
      → Text
      → List (Text × lib.Hash)
      → List (Text × FileStatus)
      → Result Error (List (FilePatch git lib))
  unfolding unstaged_patch is_left_out
  unstaged_patches s repo root filter_path entries [] = ok []
  unstaged_patches s repo root filter_path entries ((name, fs) ∷ status) =
      let rest = unstaged_patches s repo root filter_path entries status in
      let here : Result Error (List (FilePatch git lib)) = (do
        p ← unstaged_patch s repo root entries name fs
        ps ← rest
        ok (p ∷ ps)) in
      if is_left_out filter_path name fs.worktree then rest else here

  abbrev pub is_new : StatusCode → Bool
  is_new added = true
  is_new _ = false

  -- A round of buildStagedDiff.
  unfoldable pub staged_patch :
      git.State
      → git.Repo
      → Option lib.Tree
      → List (Text × lib.Hash)
      → Text
      → FileStatus
      → FilePatch git lib
  unfolding index_side tree_side build_file_patch is_deleted
  staged_patch s repo tree entries name fs =
      build_file_patch git lib name (is_new fs.staging) (is_deleted fs.staging)
        (tree_side git lib tree fs.staging name)
        (if is_deleted fs.staging then no_side git lib else index_side git lib s repo entries name)

  -- Its loop over the status.
  unfoldable pub staged_patches :
      git.State
      → git.Repo
      → Text
      → Option lib.Tree
      → List (Text × lib.Hash)
      → List (Text × FileStatus)
      → List (FilePatch git lib)
  unfolding staged_patch is_left_out
  staged_patches s repo filter_path tree entries [] = []
  staged_patches s repo filter_path tree entries ((name, fs) ∷ status) =
      let rest = staged_patches s repo filter_path tree entries status in
      if is_left_out filter_path name fs.staging
      then rest
      else staged_patch s repo tree entries name fs ∷ rest

  -- The entries of the index, or the error.
  unfoldable pub read_index : git.State → git.Repo → Result Error (List (Text × lib.Hash))
  read_index s repo = elim (lib.index_entries s repo) [
    | none ↦ err (connect_error internal "read index: %w")
    | some entries ↦ ok entries
  ]

  -- The tree of HEAD, if there is a HEAD.
  unfoldable pub head_tree : git.State → git.Repo → Result Error (Option lib.Tree)
  head_tree s repo = elim (lib.head s repo) [
    | none ↦ ok none
    | some hash ↦ elim (lib.commit_object s repo hash) [
      | none ↦ err (connect_error internal "get HEAD commit: %w")
      | some commit ↦ elim (lib.commit_tree commit) [
        | none ↦ err (connect_error internal "get HEAD tree: %w")
        | some tree ↦ ok (some tree)
      ]
    ]
  ]

  -- buildUnstagedDiff and buildStagedDiff.
  unfoldable pub build_unstaged_diff :
      git.State
      → git.Repo
      → List (Text × FileStatus)
      → Text
      → Text
      → Result Error (List (FilePatch git lib))
  unfolding read_index unstaged_patches
  build_unstaged_diff s repo status root filter_path =
      read_index s repo >>= λ entries. unstaged_patches s repo root filter_path entries status

  unfoldable pub build_staged_diff :
      git.State
      → git.Repo
      → List (Text × FileStatus)
      → Text
      → Result Error (List (FilePatch git lib))
  unfolding read_index head_tree staged_patches
  build_staged_diff s repo status filter_path = do
    tree ← head_tree s repo
    entries ← read_index s repo
    ok (staged_patches s repo filter_path tree entries status)

  -- The check of the file that a diff is asked for.
  unfoldable pub check_file : (Text → Result Error Text) → Text → Result Error (Unit {0})
  check_file validate file_path = if is_empty file_path then ok tt else elim (validate file_path) [
    | ok _ ↦ ok tt
    | err path_traversal ↦ err (connect_error permission_denied "path traversal attempt")
    | err _ ↦ err (connect_error internal "file path validation failed: %w")
  ]

  -- The patches become a text, unless there are none.
  unfoldable pub encode_patches :
      (List (FilePatch git lib) → Option Text) → List (FilePatch git lib) → Result Error Text
  encode_patches encode [] = ok []
  encode_patches encode (p ∷ ps) = elim (encode (p ∷ ps)) [
    | none ↦ err (connect_error internal "encode diff: %w")
    | some diff ↦ ok diff
  ]

  abbrev pub read_status : git.State → git.Repo → Result Error (List (Text × FileStatus))
  read_status s repo = elim (git.status s repo) [
    | none ↦ err (connect_error internal "worktree status: %w")
    | some status ↦ ok status
  ]

  -- gitDiff. `validate` is `ValidatePath` on the service's home directory, `encode` the encoder of
  -- unified diffs.
  unfoldable pub git_diff :
      (Text → Result Error Text)
      → (List (FilePatch git lib) → Option Text)
      → git.State
      → Text
      → Text
      → Bool
      → Result Error Text
  unfolding check_file build_staged_diff build_unstaged_diff encode_patches
  git_diff validate encode s repo_path file_path staged = do
    root ← map_err (validate repo_path) repo_path_error
    check_file validate file_path
    repo ← map_err (git.plain_open s root) open_repo_error
    (if git.worktree_ok repo then ok tt else err (connect_error internal "get worktree: %w"))
    status ← read_status s repo
    patches ←
        (if staged
          then build_staged_diff s repo status file_path
          else build_unstaged_diff s repo status root file_path)
    encode_patches encode patches
