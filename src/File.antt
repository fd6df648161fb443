-- ===== src/File.antt =====
-- worker/file.go: reading, writing, deleting and listing, over the operating system (Host).
pub mod Listing
pub mod Safety
pub mod Written
use remote_hands.Shared.{
  ℕ, Bool, true, false, ◌&&◌, not, List, [], ◌∷◌, ◌++◌, Option, none, some, Text, codes, text_eq, ℤ,
  is_positive, to_ℕ, is_empty, if◌then◌else◌, Result, ok, err, Error, path_traversal, connect_error,
  plain, OsError, not_exist, permission, invalid_argument, not_found, permission_denied,
  failed_precondition, internal, ◌>>=◌, ◌>>◌, map_err,
}
use remote_hands.Host.{Host, Info, DirEntry, Visit}
use remote_hands.Path.Lexical.{dir, join_path}
use remote_hands.Path.{validate_path}

-- How the requests report `ValidatePath`'s errors.
abbrev pub path_error : Error → Error
path_error path_traversal = connect_error permission_denied "path traversal attempt"
path_error _ = connect_error internal "path validation failed: %w"

abbrev pub guard : Bool → Error → Result Error (Unit {0})
guard true e = ok tt
guard false e = err e

module _ (os : Host) where
  -- A request that may change the file system.
  abbrev pub Request {ℓ} : Type ℓ → Type ℓ
  Request A = os.State → Result Error A × os.State

  -- A Go statement that returns when its call fails, with the error as the request reports it.
  unfoldable pub then_do {ℓ} :
      {A : Type ℓ}
      → Result OsError (Unit {0}) × os.State
      → (OsError → Error)
      → Request A
      → Result Error A × os.State
  then_do (ok _, s) report rest = rest s
  then_do (err e, s) report rest = (err (report e), s)

  -- A check before any change.
  unfoldable pub checked {ℓ κ} :
      {A : Type ℓ} {B : Type κ} → Result Error A → (A → Request B) → Request B
  checked (ok a) rest s = rest a s
  checked (err e) rest s = (err e, s)

  unfoldable pub open_error : OsError → Error
  open_error not_exist = connect_error not_found "file not found: %s"
  open_error permission = connect_error permission_denied "permission denied: %s"
  open_error _ = connect_error internal "failed to open file: %w"

  unfoldable pub file_stat_error : OsError → Error
  file_stat_error not_exist = connect_error not_found "file not found: %s"
  file_stat_error _ = connect_error internal "failed to stat file: %w"

  -- The offset of readFile.
  unfoldable pub seek_to : ℤ → os.File → Result Error os.File
  seek_to offset file =
      if is_positive offset
      then map_err (os.seek file offset) (λ _. connect_error internal "failed to seek: %w")
      else ok file

  -- The limit of readFile.
  unfoldable pub read_rest : ℤ → os.File → Result Error Text
  read_rest limit file =
      map_err (if is_positive limit then os.read_limited file limit else os.read_all file)
        (λ _. connect_error internal "failed to read file: %w")

  -- readFile
  unfoldable pub read_file : Text → os.State → Text → ℤ → ℤ → Result Error Text
  unfolding open_error file_stat_error
  read_file home s path offset limit = do
    abs_path ← map_err (validate_path os s home path) path_error
    info ← map_err (os.stat s abs_path) file_stat_error
    guard (not info.is_dir) (connect_error invalid_argument "path is a directory: %s")
    file ← map_err (os.open_file s abs_path) open_error
    placed ← seek_to offset file
    read_rest limit placed

  unfoldable pub write_error : OsError → Error
  write_error permission = connect_error permission_denied "permission denied: %s"
  write_error _ = connect_error internal "failed to write file: %w"

  -- `fs.FileMode(0644)`, or the mode of the request.
  abbrev pub file_mode : ℤ → ℕ
  file_mode mode = if is_positive mode then to_ℕ mode else 0o644

  -- writeFile. A failing `Chmod` is only logged.
  unfoldable pub write_file : Text → Text → Text → ℤ → Request (Unit {0})
  unfolding checked then_do write_error
  write_file home path content mode s =
      if is_empty path
      then (err (connect_error invalid_argument "path is required"), s)
      else checked (map_err (validate_path os s home path) path_error)
          (λ abs_path. λ s'.
            then_do (os.mkdir_all s' (dir abs_path) 0o755)
              (λ _. connect_error internal "failed to create parent directories: %w")
              (λ s1.
                then_do (os.write_file s1 abs_path content (file_mode mode)) write_error
                  (λ s2. (ok tt, (os.chmod s2 abs_path (file_mode mode)).1))))
          s

  unfoldable pub delete_error : OsError → Error
  delete_error permission = connect_error permission_denied "permission denied: %s"
  delete_error _ = connect_error internal "failed to delete: %w"

  -- The test that a directory without `recursive` is empty.
  unfoldable pub check_empty : os.State → Text → Bool → Bool → Result Error (Unit {0})
  check_empty s abs_path is_dir recursive =
      if is_dir && not recursive
      then (do
        entries ←
            map_err (os.read_dir s abs_path)
              (λ _. connect_error internal "failed to read directory: %w")
        guard (is_empty entries) (
            connect_error failed_precondition
              "directory not empty, use recursive=true to delete: %s"))
      else ok tt

  -- The checks of deleteFile, with the path that they let through.
  unfoldable pub delete_target : Text → os.State → Text → Bool → Result Error Text
  unfolding check_empty file_stat_error text_eq
  delete_target home s path recursive = do
    guard (not (is_empty path)) (connect_error invalid_argument "path is required")
    abs_path ← map_err (validate_path os s home path) path_error
    guard (not (text_eq abs_path home))
        (connect_error invalid_argument "cannot delete home directory")
    info ← map_err (os.lstat s abs_path) file_stat_error
    check_empty s abs_path info.is_dir recursive
    ok abs_path

  -- deleteFile
  unfoldable pub delete_file : Text → Text → Bool → Request (Unit {0})
  unfolding checked then_do delete_error delete_target
  delete_file home path recursive s =
      checked (delete_target home s path recursive)
        (λ abs_path s'.
          then_do (if recursive then os.remove_all s' abs_path else os.remove s' abs_path)
            delete_error (λ s1. (ok tt, s1)))
        s
