-- ===== src/Examples/Diffing.antt =====
-- Diffs of a repository with one changed file.
use remote_hands.Shared.{
  ◌≡◌, refl, true, false, List, [], ◌∷◌, map, Text, Text_eq, codes, none, some, ok, err, All, ◌≢◌,
  append-nil,
}
use remote_hands.Git.{GoGit, FileStatus, unmodified, modified, untracked, pushed}
use remote_hands.Git.Diff.{build_unstaged_diff}
use remote_hands.Git.Diff.Patch.{
  DiffLibrary, diff_insert, diff_delete, FilePatch, Side, Chunk, build_file_patch,
}
use remote_hands.Git.Diff.Changed.{Changed, path_of, code_of, build_diff-Changed}
use remote_hands.Git.Diff.Texts.{
  SplitsTexts, old_part, new_part, text_with, is_old, is_current, build_file_patch-texts,
}

abbrev files : List (Text × FileStatus)
files =
    (codes "a", record { staging = unmodified; worktree = modified })
    ∷ (codes "b", record { staging = untracked; worktree = untracked })
    ∷ []

abbrev pub one_changed : GoGit
one_changed = record {
  State = Text;
  Repo = Text;
  Auth = Text;
  plain_open = λ s p. ok p;
  worktree_ok = λ r. true;
  status = λ s r. some files;
  add = λ s r f. (true, f);
  commit = λ s r m u. (none, s);
  local_config = λ s r. none;
  global_config = λ s r. none;
  clone = λ s p o. (err true, s);
  remote_urls = λ s r n. none;
  push = λ s r o. (pushed, s);
}

-- A hash is the content, and the diff replaces the whole text.
abbrev pub whole_diff : DiffLibrary one_changed
whole_diff = record {
  Hash = Text;
  Blob = Text;
  Tree = Text;
  Commit = Text;
  no_hash = [];
  index_entries = λ s r. some ((codes "a", codes "old") ∷ []);
  get_blob = λ s r hash. some hash;
  blob_is_binary = λ b. some false;
  blob_contents = λ b. some b;
  head = λ s r. none;
  commit_object = λ s r hash. none;
  commit_tree = λ c. none;
  tree_file = λ t name. none;
  read_work_file = λ s path. some (codes "new");
  blob_hash = λ content. content;
  line_diff = λ a b. (diff_delete, a) ∷ (diff_insert, b) ∷ [];
}

whole_diff-SplitsTexts : SplitsTexts one_changed whole_diff
unfolding old_part new_part
whole_diff-SplitsTexts = record { old_is = λ a b. append-nil a; new_is = λ a b. append-nil b }

abbrev old_side : Side one_changed whole_diff
old_side = record { hash = codes "old"; content = codes "old"; binary = false }

abbrev new_side : Side one_changed whole_diff
new_side = record { hash = codes "new"; content = codes "new"; binary = false }

abbrev patch_a : FilePatch one_changed whole_diff
patch_a = build_file_patch one_changed whole_diff (codes "a") false false old_side new_side

build_file_patch-texts_example :
    (text_with is_old patch_a.chunks ≡ codes "old")
    × (text_with is_current patch_a.chunks ≡ codes "new")
    × All (λ (c : Chunk). c.content ≢ []) patch_a.chunks
build_file_patch-texts_example =
    build_file_patch-texts one_changed whole_diff (codes "a") false false old_side new_side
      whole_diff-SplitsTexts refl

one_patch :
    build_unstaged_diff one_changed whole_diff [] (codes "/r") files (codes "/r") []
    ≡ ok (patch_a ∷ [])
unfolding build_unstaged_diff
one_patch = refl

build_diff-Changed_example :
    Changed (code_of false) [] files (map (path_of one_changed whole_diff) (patch_a ∷ []))
build_diff-Changed_example =
    build_diff-Changed one_changed whole_diff false [] (codes "/r") files (codes "/r") []
      (patch_a ∷ []) one_patch
