-- ===== src/Host.antt =====
-- The operating system under the worker, as the calls of `os` and `path/filepath` that reach it.
-- Its state is unknown; a call that changes it returns the new state with its answer.
use remote_hands.Shared.{ℕ, Bool, Text, List, Result, OsError, ℤ}

-- `fs.FileInfo`, as far as it is read.
pub record Info : Type 0 where
  pub is_dir : Bool
  pub is_symlink : Bool
  pub size : ℕ
  pub mod_time : ℕ
  pub perm : ℕ

-- `fs.DirEntry`: `Info()` may fail.
pub record DirEntry : Type 0 where
  pub name : Text
  pub is_dir : Bool
  pub info : Result OsError Info

-- One call of the function that `filepath.WalkDir` is given: a path, and its entry or an error.
pub record Visit : Type 0 where
  pub path : Text
  pub entry : Result OsError DirEntry

pub record Host : Type 1 where
  pub State : Type 0
  -- `*os.File`
  pub File : Type 0
  pub getwd : State → Result OsError Text
  pub eval_symlinks : State → Text → Result OsError Text
  pub lstat : State → Text → Result OsError Info
  pub stat : State → Text → Result OsError Info
  pub open_file : State → Text → Result OsError File
  pub seek : File → ℤ → Result OsError File
  -- `io.ReadAll` of the file, and of an `io.LimitReader` over it.
  pub read_all : File → Result OsError Text
  pub read_limited : File → ℤ → Result OsError Text
  pub read_file : State → Text → Result OsError Text
  pub read_dir : State → Text → Result OsError (List DirEntry)
  pub walk_dir : State → Text → List Visit
  pub mkdir_all : State → Text → ℕ → Result OsError (Unit {0}) × State
  pub write_file : State → Text → Text → ℕ → Result OsError (Unit {0}) × State
  pub chmod : State → Text → ℕ → Result OsError (Unit {0}) × State
  pub remove : State → Text → Result OsError (Unit {0}) × State
  pub remove_all : State → Text → Result OsError (Unit {0}) × State
