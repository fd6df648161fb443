-- ===== src/Path.antt =====
-- worker/path.go: `ValidatePath` and its helpers, over the lexical functions of Go's
-- `path/filepath` (Path/Lexical) and the file system (Host).
pub mod Lexical
pub mod Requests
pub mod Termination
pub mod Validate
pub mod Containment
pub mod Cleaned
pub mod Components
use remote_hands.Shared.{
  ℕ, zero, suc, Bool, true, false, ◌||◌, ◌&&◌, not, List, [], ◌∷◌, ◌++◌, Text, text_eq, has_prefix,
  has_suffix, length, if◌then◌else◌, Result, ok, err, Error, path_traversal, plain, OsError,
  not_exist, ◌>>=◌, map_err, is_empty,
}
use remote_hands.Host.{Host}
use Lexical.{slash, dot, is_abs, clean, join_path, dir}

-- isUnderDir
unfoldable pub is_under_dir : Text → Text → Bool
unfolding has_suffix text_eq has_prefix
is_under_dir parent child =
    let with_sep : Text = if has_suffix parent (slash ∷ []) then parent else parent ++ slash ∷ [] in
    text_eq child parent || has_prefix child with_sep

-- How the loop of validateNonExistentPath ends: it returns, or it leaves by its condition or `break`.
-- `out_of_fuel` is no behaviour of the code.
pub data Walk : Type 0 where
  returned : Result Error Text → Walk
  left_loop : Walk
  out_of_fuel : Walk

-- The path that the request names, before symbolic links are followed.
unfoldable pub target_path : Text → Text → Text
unfolding is_abs clean join_path
target_path home requested =
    if is_abs requested then clean requested else clean (join_path home requested)

module _ (os : Host) (s : os.State) where
  -- The body of the loop: `rest` is what the next rounds do, from `parent` on.
  unfoldable pub probe : Text → Text → Text → Walk → Walk
  unfolding is_under_dir
  probe real_home target parent rest = elim (os.lstat s parent) [
    | err not_exist ↦ rest
    | err _ ↦ returned (err (plain "failed to stat parent: %w"))
    | ok _ ↦ elim (os.eval_symlinks s parent) [
      | err _ ↦ returned (err (plain "failed to evaluate symlink: %w"))
      | ok real_parent ↦
          if is_under_dir real_home real_parent
          then returned (ok target)
          else returned (err path_traversal)
    ]
  ]

  -- The loop over `current`.
  unfoldable pub walk_up : ℕ → Text → Text → Text → Walk
  unfolding probe text_eq
  walk_up zero real_home target current = out_of_fuel
  walk_up (suc fuel) real_home target current =
      let rest : Walk = walk_up fuel real_home target (dir current) in
      if not (text_eq current real_home)
        && (not (text_eq current (slash ∷ [])) && not (text_eq current dot))
      then if text_eq (dir current) current
        then left_loop
        else probe real_home target (dir current) rest
      else left_loop

  after_walk : Text → Text → Walk → Result Error Text
  unfolding is_under_dir
  after_walk real_home target (returned r) = r
  after_walk real_home target _ =
      if is_under_dir real_home target then ok target else err path_traversal

  -- validateNonExistentPath: each round drops an element of the target, so its length is fuel enough.
  unfoldable pub validate_non_existent_path : Text → Text → Result Error Text
  unfolding walk_up after_walk
  validate_non_existent_path real_home target =
      after_walk real_home target (walk_up (suc (length target)) real_home target target)

  -- `filepath.Abs`
  unfoldable pub abs : Text → Result OsError Text
  unfolding is_abs clean join_path
  abs p =
      if is_abs p
      then ok (clean p)
      else elim (os.getwd s) [ ok wd ↦ ok (join_path wd p) | err e ↦ err e ]

  -- The part of ValidatePath behind the resolution of the home directory.
  unfoldable pub check_target : Text → Text → Text → Result Error Text
  unfolding is_under_dir validate_non_existent_path
  check_target home real_home target =
      if not (is_under_dir home target) && not (is_under_dir real_home target)
      then err path_traversal
      else elim (os.eval_symlinks s target) [
        | err not_exist ↦ validate_non_existent_path real_home target
        | err _ ↦ err (plain "failed to evaluate path: %w")
        | ok real_path ↦
            if is_under_dir real_home real_path then ok real_path else err path_traversal
      ]

  -- The home directory, absolute and clean, and with its symbolic links followed.
  unfoldable pub resolve_home : Text → Result Error (Text × Text)
  unfolding abs clean
  resolve_home home_dir = do
    absolute ← map_err (abs home_dir) (λ _. plain "invalid home directory: %w")
    real_home ←
        map_err (os.eval_symlinks s (clean absolute))
          (λ _. plain "failed to resolve home directory: %w")
    ok (clean absolute, real_home)

  -- ValidatePath
  unfoldable pub validate_path : Text → Text → Result Error Text
  unfolding resolve_home check_target target_path
  validate_path home_dir requested = resolve_home home_dir >>= λ (home, real_home).
      if is_empty requested
      then ok real_home
      else check_target home real_home (target_path home requested)
