-- ===== src/Git/Diff/Changed.antt =====
-- worker/git_diff.go: which files are in a diff.
use remote_hands.Shared.{
  ◌≡◌, ◌≢◌, refl, ◌⊎◌, inl, inr, Bool, true, false, ◌&&◌, not, List, [], ◌∷◌, map, Text, Text_eq,
  text_eq, text_eq_iff, Option, none, some, Result, ok, Error, if◌then◌else◌, ◌>>=◌, >>=-eq-ok,
  is_empty, Bool-cases,
}
use remote_hands.Git.{
  StatusCode, unmodified, untracked, modified, added, deleted, renamed, copied,
  updated_but_unmerged, FileStatus, GoGit,
}
use remote_hands.Git.Status.{is_deleted}
use remote_hands.Git.Diff.{
  read_index, head_tree, build_unstaged_diff, build_staged_diff, is_left_out, is_unchanged,
  unstaged_patch, unstaged_patches, staged_patch, staged_patches,
}
use remote_hands.Git.Diff.Patch.{
  DiffLibrary, FilePatch, Side, no_side, index_side, work_side, build_file_patch,
}

-- A file that a diff shows: changed, tracked, and asked for.
abbrev pub Shown : Text → Text → StatusCode → Type 0
Shown filter_path name code =
    (code ≢ unmodified) × (code ≢ untracked) × ((filter_path ≡ []) ⊎ (name ≡ filter_path))

-- The names of a status that are shown, in its order; `code` is the half of the status that counts.
pub data Changed (code : FileStatus → StatusCode) (filter_path : Text)
    : List (Text × FileStatus) → List (Option Text) → Type 0 where
  no_more : Changed code filter_path [] []
  shown :
      {status : List (Text × FileStatus)} {names : List (Option Text)} (name : Text)
      (fs : FileStatus)
      → Shown filter_path name (code fs)
      → Changed code filter_path status names
      → Changed code filter_path ((name, fs) ∷ status) (some name ∷ names)
  left_out :
      {status : List (Text × FileStatus)} {names : List (Option Text)} (name : Text)
      (fs : FileStatus)
      → ¬ Shown filter_path name (code fs)
      → Changed code filter_path status names
      → Changed code filter_path ((name, fs) ∷ status) names

is_unchanged-cases :
    (code : StatusCode)
    → ((is_unchanged code ≡ true) × ¬ ((code ≢ unmodified) × (code ≢ untracked)))
      ⊎ ((is_unchanged code ≡ false) × (code ≢ unmodified) × (code ≢ untracked))
unfolding is_unchanged
is_unchanged-cases unmodified = inl (refl, λ h. h.0 refl)
is_unchanged-cases untracked = inl (refl, λ h. h.1 refl)
is_unchanged-cases modified = inr (refl, (λ e. cc), (λ e. cc))
is_unchanged-cases added = inr (refl, (λ e. cc), (λ e. cc))
is_unchanged-cases deleted = inr (refl, (λ e. cc), (λ e. cc))
is_unchanged-cases renamed = inr (refl, (λ e. cc), (λ e. cc))
is_unchanged-cases copied = inr (refl, (λ e. cc), (λ e. cc))
is_unchanged-cases updated_but_unmerged = inr (refl, (λ e. cc), (λ e. cc))

asked-cases :
    (f name : Text) (code : StatusCode)
    → (code ≢ unmodified) × (code ≢ untracked)
    → (((not (is_empty f) && not (text_eq name f)) ≡ true) × ¬ Shown f name code)
      ⊎ (((not (is_empty f) && not (text_eq name f)) ≡ false) × Shown f name code)
asked-cases [] name code h = inr (refl, (h.0, h.1, inl refl))
asked-cases (c ∷ f) name code h = elim (Bool-cases (text_eq name (c ∷ f))) [
  | inl e ↦ inr (rw e refl, (h.0, h.1, inr ((text_eq_iff name (c ∷ f)).0 e)))
  | inr e ↦
      inl (rw e refl, λ k. elim k.2 [ inl z ↦ cc | inr z ↦ cc ((text_eq_iff name (c ∷ f)).1 z, e) ])
]

is_left_out-cases :
    (filter_path name : Text) (code : StatusCode)
    → ((is_left_out filter_path name code ≡ true) × ¬ Shown filter_path name code)
      ⊎ ((is_left_out filter_path name code ≡ false) × Shown filter_path name code)
unfolding is_left_out
is_left_out-cases filter_path name code = elim (is_unchanged-cases code) [
  | inl (u, h) ↦ inl (rw u refl, λ k. h (k.0, k.1))
  | inr (u, h0, h1) ↦ rw u (asked-cases filter_path name code (h0, h1))
]

-- The half of a status that a diff is about.
abbrev pub code_of : Bool → FileStatus → StatusCode
code_of true fs = fs.staging
code_of false fs = fs.worktree

module _ (git : GoGit) (lib : DiffLibrary git) where
  -- The path of a patch.
  abbrev pub path_of : FilePatch git lib → Option Text
  path_of p = elim p.from_file [
    | some f ↦ some f.path
    | none ↦ elim p.to_file [ some f ↦ some f.path | none ↦ none ]
  ]

  unstaged_patch-path :
      (s : git.State) (repo : git.Repo) (root : Text) (entries : List (Text × lib.Hash))
      (name : Text) (fs : FileStatus) (p : FilePatch git lib)
      → unstaged_patch git lib s repo root entries name fs ≡ ok p
      → path_of p ≡ some name
  unfolding unstaged_patch build_file_patch
  unstaged_patch-path s repo root entries name fs p e =
      let finish : Side git lib → Result Error (FilePatch git lib) = λ to. ok (
        build_file_patch git lib name false (is_deleted fs.worktree)
          (index_side git lib s repo entries name) to) in
      let (to, read, same) =
        >>=-eq-ok
          (if is_deleted fs.worktree then ok (no_side git lib) else work_side git lib s root name)
          finish e in
      let built : build_file_patch git lib name false (is_deleted fs.worktree)
            (index_side git lib s repo entries name) to
          ≡ p =
        cc same in
      rw (← built) refl

  staged_patch-path :
      (s : git.State) (repo : git.Repo) (tree : Option lib.Tree) (entries : List (Text × lib.Hash))
      (name : Text) (staging worktree : StatusCode)
      → path_of (
          staged_patch git lib s repo tree entries name
            (record { staging = staging; worktree = worktree }))
        ≡ some name
  unfolding staged_patch build_file_patch is_deleted
  staged_patch-path s repo tree entries name added worktree = refl
  staged_patch-path s repo tree entries name deleted worktree = refl
  staged_patch-path s repo tree entries name unmodified worktree = refl
  staged_patch-path s repo tree entries name untracked worktree = refl
  staged_patch-path s repo tree entries name modified worktree = refl
  staged_patch-path s repo tree entries name renamed worktree = refl
  staged_patch-path s repo tree entries name copied worktree = refl
  staged_patch-path s repo tree entries name updated_but_unmerged worktree = refl

  unstaged_patches-Changed :
      (s : git.State) (repo : git.Repo) (root filter_path : Text) (entries : List (Text × lib.Hash))
      (status : List (Text × FileStatus)) (ps : List (FilePatch git lib))
      → unstaged_patches git lib s repo root filter_path entries status ≡ ok ps
      → Changed (λ fs. fs.worktree) filter_path status (map path_of ps)
  unfolding unstaged_patches
  unstaged_patches-Changed s repo root filter_path entries [] ps e =
      let none_left : [] ≡ ps = cc in rw (← none_left) no_more
  unstaged_patches-Changed s repo root filter_path entries ((name, fs) ∷ status) ps e =
      elim (is_left_out-cases filter_path name fs.worktree) [
        | inl (out, h) ↦ left_out name fs h (
            unstaged_patches-Changed s repo root filter_path entries status ps
              (rw (out, unstaged_patches) at e))
        | inr (on, h) ↦
            let (p, made, more) =
              >>=-eq-ok (unstaged_patch git lib s repo root entries name fs) _
                (rw (on, unstaged_patches) at e) in
            let (rest, later, same) =
              >>=-eq-ok (unstaged_patches git lib s repo root filter_path entries status)
                (λ ps1. ok (p ∷ ps1)) more in
            let built : p ∷ rest ≡ ps = cc same in
            rw (← built) (
              rw (unstaged_patch-path s repo root entries name fs p made) (
                shown name fs h
                  (unstaged_patches-Changed s repo root filter_path entries status rest later)))
      ]

  staged_patches-Changed :
      (s : git.State) (repo : git.Repo) (filter_path : Text) (tree : Option lib.Tree)
      (entries : List (Text × lib.Hash)) (status : List (Text × FileStatus))
      → Changed
          (λ fs. fs.staging)
          filter_path
          status
          (map path_of (staged_patches git lib s repo filter_path tree entries status))
  unfolding staged_patches
  staged_patches-Changed s repo filter_path tree entries [] = no_more
  staged_patches-Changed s repo filter_path tree entries ((name, fs) ∷ status) =
      elim (is_left_out-cases filter_path name fs.staging) [
        | inl (out, h) ↦
            rw (out, staged_patches)
              (left_out name fs h (staged_patches-Changed s repo filter_path tree entries status))
        | inr (on, h) ↦
            rw (on, staged_patches)
              (rw (staged_patch-path s repo tree entries name fs.staging fs.worktree)
                (shown name fs h (staged_patches-Changed s repo filter_path tree entries status)))
      ]

  build_unstaged_diff-Changed :
      (s : git.State) (repo : git.Repo) (status : List (Text × FileStatus))
      (root filter_path : Text) (ps : List (FilePatch git lib))
      → build_unstaged_diff git lib s repo status root filter_path ≡ ok ps
      → Changed (λ fs. fs.worktree) filter_path status (map path_of ps)
  unfolding build_unstaged_diff
  build_unstaged_diff-Changed s repo status root filter_path ps e =
      let (entries, read, more) =
        >>=-eq-ok (read_index git lib s repo)
          (λ found. unstaged_patches git lib s repo root filter_path found status) e in
      unstaged_patches-Changed s repo root filter_path entries status ps more

  build_staged_diff-Changed :
      (s : git.State) (repo : git.Repo) (status : List (Text × FileStatus)) (filter_path : Text)
      (ps : List (FilePatch git lib))
      → build_staged_diff git lib s repo status filter_path ≡ ok ps
      → Changed (λ fs. fs.staging) filter_path status (map path_of ps)
  unfolding build_staged_diff
  build_staged_diff-Changed s repo status filter_path ps e =
      let after_tree : Option lib.Tree → Result Error (List (FilePatch git lib)) = λ tree.
        read_index git lib s repo
        >>= (λ found. ok (staged_patches git lib s repo filter_path tree found status)) in
      let (tree, headed, more) = >>=-eq-ok (head_tree git lib s repo) after_tree e in
      let (entries, read, same) =
        >>=-eq-ok (read_index git lib s repo)
          (λ found. ok (staged_patches git lib s repo filter_path tree found status)) more in
      let built : staged_patches git lib s repo filter_path tree entries status ≡ ps = cc same in
      rw (← built) (staged_patches-Changed s repo filter_path tree entries status)

  -- When a diff, staged or not, has its patches, they are those of the files of the status that are
  -- changed in the half that the diff is about, tracked and asked for: one for each, in the order of
  -- the status, under its name.
  pub build_diff-Changed :
      (staged : Bool) (s : git.State) (repo : git.Repo) (status : List (Text × FileStatus))
      (root filter_path : Text) (ps : List (FilePatch git lib))
      → (if staged
          then build_staged_diff git lib s repo status filter_path
          else build_unstaged_diff git lib s repo status root filter_path)
        ≡ ok ps
      → Changed (code_of staged) filter_path status (map path_of ps)
  build_diff-Changed true s repo status root filter_path ps e =
      build_staged_diff-Changed s repo status filter_path ps e
  build_diff-Changed false s repo status root filter_path ps e =
      build_unstaged_diff-Changed s repo status root filter_path ps e
