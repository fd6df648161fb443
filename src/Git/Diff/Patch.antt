-- ===== src/Git/Diff/Patch.antt =====
-- worker/git_diff.go: a file patch and its two sides. The library go-git and the line diff are
-- parameters.
use remote_hands.Shared.{
  Bool, true, false, ◌||◌, List, [], ◌∷◌, Text, Text_eq, text_eq, Option, none, some, Result, ok,
  err, Error, take, index_byte, connect_error, internal, if◌then◌else◌, is_empty,
}
use remote_hands.Path.Lexical.{join_path}
use remote_hands.Git.{StatusCode, added, GoGit}

-- `diffmatchpatch.Operation`, and `fdiff.Operation`.
pub data DiffType : Type 0 where
  diff_insert diff_delete diff_equal : DiffType

pub data Operation : Type 0 where
  add delete equal : Operation

-- mapDiffOp
unfoldable pub map_diff_op : DiffType → Operation
map_diff_op diff_insert = add
map_diff_op diff_delete = delete
map_diff_op diff_equal = equal

-- chunk
pub record Chunk : Type 0 where
  pub content : Text
  pub op : Operation

-- The loop of buildChunks. Empty texts are passed over.
unfoldable pub chunks_of : List (DiffType × Text) → List Chunk
unfolding map_diff_op
chunks_of [] = []
chunks_of ((t, content) ∷ diffs) =
    let rest = chunks_of diffs in
    if is_empty content then rest else record { content = content; op = map_diff_op t } ∷ rest

-- isBinaryContent
unfoldable pub is_binary_content : Text → Bool
unfolding index_byte
is_binary_content content = elim (index_byte 0 (take 8000 content)) [ none ↦ false | some _ ↦ true ]

-- The libraries. A missing answer is an error.
pub record DiffLibrary (git : GoGit) : Type 1 where
  pub Hash : Type 0
  pub Blob : Type 0
  pub Tree : Type 0
  pub Commit : Type 0
  -- The zero value of a hash.
  pub no_hash : Hash
  pub index_entries : git.State → git.Repo → Option (List (Text × Hash))
  -- `object.GetBlob`, `IsBinary` and `Contents`.
  pub get_blob : git.State → git.Repo → Hash → Option Blob
  pub blob_is_binary : Blob → Option Bool
  pub blob_contents : Blob → Option Text
  -- `repo.Head`, `CommitObject` and `Tree` of a commit; `tree.File`.
  pub head : git.State → git.Repo → Option Hash
  pub commit_object : git.State → git.Repo → Hash → Option Commit
  pub commit_tree : Commit → Option Tree
  pub tree_file : Tree → Text → Option (Hash × Blob)
  -- `os.ReadFile`, and the hash of a blob.
  pub read_work_file : git.State → Text → Option Text
  pub blob_hash : Text → Hash
  -- `diff.Do`
  pub line_diff : Text → Text → List (DiffType × Text)

module _ (git : GoGit) (lib : DiffLibrary git) where
  -- file, of which the mode is always regular.
  pub record DiffFile : Type 0 where
    pub hash : lib.Hash
    pub path : Text

  -- filePatch
  pub record FilePatch : Type 0 where
    pub from_file : Option DiffFile
    pub to_file : Option DiffFile
    pub chunks : List Chunk
    pub is_binary : Bool

  -- One side of a patch: its hash, its content and whether that is binary.
  pub record Side : Type 0 where
    pub hash : lib.Hash
    pub content : Text
    pub binary : Bool

  abbrev pub no_side : Side
  no_side = record { hash = lib.no_hash; content = []; binary = false }

  -- A text that may be missing; nothing is left where an error stopped the reading.
  abbrev pub text_side : lib.Hash → Option Text → Side
  text_side hash none = record { hash = hash; content = []; binary = false }
  text_side hash (some content) = record { hash = hash; content = content; binary = false }

  unfoldable pub blob_side : lib.Hash → lib.Blob → Side
  blob_side hash blob = elim (lib.blob_is_binary blob) [
    | none ↦ record { hash = hash; content = []; binary = false }
    | some true ↦ record { hash = hash; content = []; binary = true }
    | some false ↦ text_side hash (lib.blob_contents blob)
  ]

  -- The first entry of the index under a name.
  unfoldable pub find_entry : Text → List (Text × lib.Hash) → Option lib.Hash
  unfolding text_eq
  find_entry name [] = none
  find_entry name ((at, hash) ∷ entries) =
      let later = find_entry name entries in if text_eq at name then some hash else later

  -- The side of a patch in the index.
  unfoldable pub index_side : git.State → git.Repo → List (Text × lib.Hash) → Text → Side
  unfolding find_entry blob_side
  index_side s repo entries name = elim (find_entry name entries) [
    | none ↦ no_side
    | some hash ↦ elim (lib.get_blob s repo hash) [
      | none ↦ record { hash = hash; content = []; binary = false }
      | some blob ↦ blob_side hash blob
    ]
  ]

  -- The side of a patch in the tree of HEAD.
  unfoldable pub tree_side : Option lib.Tree → StatusCode → Text → Side
  unfolding blob_side
  tree_side none staging name = no_side
  tree_side (some tree) added name = no_side
  tree_side (some tree) _ name = elim (lib.tree_file tree name) [
    | none ↦ no_side
    | some (hash, blob) ↦ blob_side hash blob
  ]

  -- The side of a patch in the working tree.
  unfoldable pub work_side : git.State → Text → Text → Result Error Side
  unfolding is_binary_content
  work_side s root name = elim (lib.read_work_file s (join_path root name)) [
    | none ↦ err (connect_error internal "read working tree file %s: %w")
    | some content ↦ ok (record {
      hash = lib.blob_hash content;
      content = if is_binary_content content then [] else content;
      binary = is_binary_content content;
    })
  ]

  -- buildChunks
  unfoldable pub build_chunks : Text → Text → List Chunk
  unfolding chunks_of
  build_chunks from_content to_content = chunks_of (lib.line_diff from_content to_content)

  -- buildFilePatchEx, and buildFilePatch where the file is not new.
  unfoldable pub build_file_patch : Text → Bool → Bool → Side → Side → FilePatch
  unfolding build_chunks
  build_file_patch name is_new is_delete from to = record {
    from_file = if is_new then none else some (record { hash = from.hash; path = name });
    to_file = if is_delete then none else some (record { hash = to.hash; path = name });
    chunks = if from.binary || to.binary then [] else build_chunks from.content to.content;
    is_binary = from.binary || to.binary;
  }
