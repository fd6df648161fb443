-- ===== src/File/Listing.antt =====
-- worker/file.go: listFiles, fileEntryFromPath and glob.
use remote_hands.Shared.{
  contains, ℕ, Bool, List, [], ◌∷◌, Option, none, some, Text, codes, text_eq, if◌then◌else◌, Result,
  ok, err, Error, connect_error, OsError, not_exist, invalid_argument, not_found, internal, ◌>>=◌,
  ◌>>◌, map_err, ◌/◌, ◌%◌, ◌+◌,
}
use remote_hands.Host.{Host, Info, DirEntry, Visit}
use remote_hands.Path.Lexical.{rel, join_path}
use remote_hands.Path.{validate_path}
use remote_hands.File.{path_error, guard}

-- The message FileEntry.
pub record FileEntry : Type 0 where
  pub path : Text
  pub type : Text
  pub size : ℕ
  pub modified_at : ℕ
  pub mode : Text

-- `%04o` of nine permission bits.
abbrev pub octal4 : ℕ → Text
octal4 n = (48 + n / 512 % 8) ∷ (48 + n / 64 % 8) ∷ (48 + n / 8 % 8) ∷ (48 + n % 8) ∷ []

unfoldable pub entry_type : Info → Text
entry_type info =
    if info.is_dir
    then codes "directory"
    else if info.is_symlink
    then codes "symlink"
    else codes "file"

-- fileEntryFromPath; `none` is an error, which the callers log.
unfoldable pub file_entry_from_path : Text → Text → DirEntry → Option FileEntry
unfolding entry_type rel
file_entry_from_path base abs_path d = elim d.info [
  | err _ ↦ none
  | ok info ↦ elim (rel base abs_path) [
    | none ↦ none
    | some rel_path ↦ some (record {
      path = rel_path;
      type = entry_type info;
      size = info.size;
      modified_at = info.mod_time;
      mode = octal4 info.perm;
    })
  ]
]

abbrev keep : Option FileEntry → List FileEntry → List FileEntry
keep none rest = rest
keep (some e) rest = e ∷ rest

-- The function that WalkDir is given, over its calls: errors and the root are skipped.
unfoldable pub walk_entries : Text → Text → List Visit → List FileEntry
unfolding file_entry_from_path text_eq
walk_entries base root [] = []
walk_entries base root (v ∷ visits) =
    let rest = walk_entries base root visits in
    elim v.entry [
      | err _ ↦ rest
      | ok d ↦ if text_eq v.path root then rest else keep (file_entry_from_path base v.path d) rest
    ]

unfoldable pub dir_entries : Text → Text → List DirEntry → List FileEntry
unfolding file_entry_from_path join_path
dir_entries base root [] = []
dir_entries base root (d ∷ ds) =
    keep (file_entry_from_path base (join_path root d.name) d) (dir_entries base root ds)

abbrev list_stat_error : OsError → Error
list_stat_error not_exist = connect_error not_found "path not found: %s"
list_stat_error _ = connect_error internal "failed to stat path: %w"

module _ (os : Host) where
  -- The directory that listFiles, glob and grep work in.
  unfoldable pub open_directory : Text → os.State → Text → Result Error Text
  open_directory home s path = do
    abs_path ← map_err (validate_path os s home path) path_error
    info ← map_err (os.stat s abs_path) list_stat_error
    guard info.is_dir (connect_error invalid_argument "path is not a directory: %s")
    ok abs_path

  -- listFiles
  unfoldable pub list_files : Text → os.State → Text → Bool → Result Error (List FileEntry)
  unfolding walk_entries dir_entries open_directory
  list_files home s path recursive = do
    abs_path ← open_directory home s path
    resolved_home ←
        map_err (os.eval_symlinks s home)
          (λ _. connect_error internal "failed to resolve home directory: %w")
    if recursive then ok (walk_entries resolved_home abs_path (os.walk_dir s abs_path)) else (do
      ds ←
          map_err (os.read_dir s abs_path)
            (λ _. connect_error internal "failed to read directory: %w")
      ok (dir_entries resolved_home abs_path ds))

  -- glob. `valid` is `doublestar.ValidatePattern`; `walk` is `doublestar.GlobWalk` on a directory
  -- and a pattern, with the text of its error.
  unfoldable pub glob :
      (Text → Bool)
      → (os.State → Text → Text → Result Text (List Text))
      → Text
      → os.State
      → Text
      → Text
      → Result Error (List Text)
  unfolding open_directory contains
  glob valid walk home s pattern base_path = do
    abs_base_path ← open_directory home s base_path
    guard (valid pattern) (connect_error invalid_argument "invalid glob pattern: %s")
    map_err (walk s abs_base_path pattern) (λ message.
        if contains message (codes "pattern")
        then connect_error invalid_argument "invalid glob pattern: %w"
        else connect_error internal "glob failed: %w")
