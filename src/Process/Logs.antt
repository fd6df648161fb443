-- ===== src/Process/Logs.antt =====
-- worker/process.go: `Logs` and `readLogFile`.
pub mod Limits
use remote_hands.Shared.{
  ℕ, ◌-◌, Bool, true, false, ◌&&◌, not, List, [], ◌∷◌, ◌++◌, Option, none, some, Text, codes, ℤ,
  is_positive, to_ℕ, length, take, drop, ltb, nat_eq, split, join, trim_right, decimal,
  if◌then◌else◌, Result, ok, err, Error, OsError, not_exist, connect_error, not_found,
  invalid_argument, internal, map_err, ◌>>=◌,
}
use remote_hands.Host.{Host}
use remote_hands.Path.Lexical.{join_path}
use remote_hands.Process.{ProcessManager, find}

abbrev pub newline : ℕ
newline = 10

abbrev pub is_newline : ℕ → Bool
is_newline c = nat_eq c newline

-- The lines that `head` and `tail` leave.
unfoldable pub limit_lines : ℤ → ℤ → List Text → List Text
limit_lines head tail lines =
    if is_positive head
    then (if ltb (to_ℕ head) (length lines) then take (to_ℕ head) lines else lines)
    else if is_positive tail
    then (if ltb (to_ℕ tail) (length lines) then drop (length lines - to_ℕ tail) lines else lines)
    else lines

-- readLogFile, behind the reading of the file.
unfoldable pub limit_log : ℤ → ℤ → Text → Text
unfolding limit_lines split join trim_right
limit_log head tail [] = []
limit_log head tail (c ∷ content) =
    if not (is_positive head) && not (is_positive tail)
    then c ∷ content
    else join newline (limit_lines head tail (split newline (trim_right is_newline (c ∷ content))))
      ++ newline ∷ []

module _ (os : Host) (s : os.State) where
  -- readLogFile
  unfoldable pub read_log_file : Text → ℤ → ℤ → Result OsError Text
  unfolding limit_log
  read_log_file path head tail = elim (os.read_file s path) [
    | ok content ↦ ok (limit_log head tail content)
    | err not_exist ↦ ok []
    | err e ↦ err e
  ]

  -- `filepath.Join(pm.logDir, fmt.Sprintf("%d.stdout", pid))`, and the same for stderr.
  unfoldable pub log_path : ProcessManager → ℕ → Text → Text
  unfolding join_path decimal
  log_path pm pid suffix = join_path pm.log_dir (decimal pid ++ suffix)

  -- Logs
  unfoldable pub logs : ProcessManager → ℕ → ℤ → ℤ → Result Error (Text × Text)
  unfolding read_log_file log_path
  logs pm pid head tail = elim (find pm pid) [
    | none ↦ err (connect_error not_found "process %d not found")
    | some _ ↦
        if is_positive head && is_positive tail
        then err (connect_error invalid_argument "head and tail are mutually exclusive")
        else do
          out ←
              map_err (read_log_file (log_path pm pid (codes ".stdout")) head tail)
                (λ _. connect_error internal "failed to read stdout log: %w")
          errors ←
              map_err (read_log_file (log_path pm pid (codes ".stderr")) head tail)
                (λ _. connect_error internal "failed to read stderr log: %w")
          ok (out, errors)
  ]
