-- ===== src/Grep/Ripgrep.antt =====
-- worker/grep.go: the run of ripgrep and the reading of its JSON lines.
pub mod Order
use remote_hands.Shared.{
  ℕ, Bool, true, false, ◌||◌, List, [], ◌∷◌, ◌++◌, Option, none, some, Text, codes, ℤ, pos, negsuc,
  int32, lt_ℤ, gt_ℤ, is_positive, to_ℕ, is_empty, trim_right, nat_eq, contains, decimal,
  if◌then◌else◌, Result, ok, err, Error, connect_error, plain, invalid_argument, internal, ◌>>=◌,
}
use remote_hands.Host.{Host}
use remote_hands.Path.Lexical.{rel}
use remote_hands.File.Listing.{open_directory}
use remote_hands.Grep.{GrepMatch, Matchers, rel_or_path, grep_with_go}

-- A line of `rg --json`, decoded. `skipped` is an empty line, one that does not decode, or one of
-- another type.
pub data RgLine : Type 0 where
  matched : Text → Text → ℕ → RgLine
  context : Text → Text → ℕ → RgLine
  begin : RgLine
  skipped : RgLine

-- The matches before the current one, and the current one: `currentMatch` points at the last
-- match of the list, or is nil.
pub record Scan : Type 0 where
  pub earlier : List GrepMatch
  pub current : Option GrepMatch

abbrev pub is_line_end : ℕ → Bool
is_line_end c = nat_eq c 10 || nat_eq c 13

abbrev pub all_matches : Scan → List GrepMatch
all_matches sc = elim sc.current [ none ↦ sc.earlier | some m ↦ sc.earlier ++ m ∷ [] ]

-- A context line goes to the current match, by its line number.
unfoldable pub add_context : Text → ℕ → GrepMatch → GrepMatch
add_context text n m =
    if lt_ℤ n m.line
    then record m { context_before = m.context_before ++ text ∷ [] }
    else if gt_ℤ n m.line
    then record m { context_after = m.context_after ++ text ∷ [] }
    else m

unfoldable pub new_match : Text → Text → Text → ℕ → GrepMatch
unfolding trim_right
new_match base path lines n = record {
  path = rel_or_path base path;
  line = int32 n;
  content = trim_right is_line_end lines;
  context_before = [];
  context_after = [];
}

unfoldable pub scan_line : Text → Scan → RgLine → Scan
unfolding add_context new_match
scan_line base sc (matched path lines n) = record {
  earlier = all_matches sc;
  current = some (new_match base path lines n);
}
scan_line base sc (context path lines n) = record sc {
  current = elim sc.current [
    | none ↦ none
    | some m ↦ some (add_context (trim_right is_line_end lines) n m)
  ];
}
scan_line base sc begin = record { earlier = all_matches sc; current = none }
scan_line base sc skipped = sc

unfoldable pub scan_lines : Text → Scan → List RgLine → Scan
unfolding scan_line
scan_lines base sc [] = sc
scan_lines base sc (l ∷ ls) = scan_lines base (scan_line base sc l) ls

-- parseRipgrepJSON. The scanner's error, if it has one, goes with the matches; the handler then
-- returns the error alone.
unfoldable pub parse_ripgrep_json :
    Text → List RgLine → Option Error → Result Error (List GrepMatch)
unfolding scan_lines
parse_ripgrep_json base lines (some e) = err e
parse_ripgrep_json base lines none =
    ok (all_matches (scan_lines base (record { earlier = []; current = none }) lines))

abbrev option {ℓ} : {A : Type ℓ} → Bool → List A → List A
option b xs = if b then xs else []

-- The arguments of `rg`.
unfoldable pub ripgrep_args : Text → Text → Text → Bool → ℤ → List Text
unfolding decimal
ripgrep_args abs_path pattern glob_filter ignore_case context_lines =
    (codes "--json" ∷ codes "--no-heading" ∷ codes "--line-number" ∷ [])
    ++ (option ignore_case (codes "-i" ∷ [])
        ++ (option (is_positive context_lines) (codes "-C" ∷ decimal (to_ℕ context_lines) ∷ [])
            ++ (elim glob_filter [ [] ↦ [] | c ∷ g ↦ codes "--glob" ∷ (c ∷ g) ∷ [] ]
                ++ (pattern ∷ abs_path ∷ []))))

-- How a run of a program ends: with exit code 0, with another one, or it could not be run.
pub data RunError : Type 0 where
  exited_with : ℤ → RunError
  not_run : RunError

-- What the run leaves: the decoded lines, the scanner's error on them, and stderr.
pub record RgRun : Type 0 where
  pub failure : Option RunError
  pub lines : List RgLine
  pub scan_error : Option Error
  pub stderr : Text

ripgrep_failure : Text → ℤ → Result Error (List GrepMatch)
unfolding contains
ripgrep_failure stderr (pos n) =
    if nat_eq n 1
    then ok []
    else if nat_eq n 2
    then (if contains stderr (codes "regex") || contains stderr (codes "parse")
        then err (connect_error invalid_argument "invalid regex pattern: %s")
        else err (connect_error internal "ripgrep error: %s"))
    else err (connect_error internal "ripgrep failed: %w")
ripgrep_failure stderr (negsuc n) = err (connect_error internal "ripgrep failed: %w")

-- grepWithRipgrep
unfoldable pub grep_with_ripgrep :
    (List Text → RgRun) → Text → Text → Text → Bool → ℤ → Result Error (List GrepMatch)
unfolding parse_ripgrep_json ripgrep_args ripgrep_failure
grep_with_ripgrep run abs_path pattern glob_filter ignore_case context_lines =
    let r = run (ripgrep_args abs_path pattern glob_filter ignore_case context_lines) in
    elim r.failure [
      | none ↦ parse_ripgrep_json abs_path r.lines r.scan_error
      | some not_run ↦ err (connect_error internal "ripgrep failed: %w")
      | some (exited_with code) ↦ ripgrep_failure r.stderr code
    ]

-- grep. `rg` is the program, if `LookPath` finds it.
unfoldable pub grep :
    (os : Host)
    → Matchers
    → Option (List Text → RgRun)
    → Text
    → os.State
    → Text
    → Text
    → Text
    → Bool
    → ℤ
    → Result Error (List GrepMatch)
unfolding grep_with_ripgrep
grep os m rg home s pattern path glob_filter ignore_case context_lines = do
  abs_path ← open_directory os home s path
  elim rg [
    | some run ↦ grep_with_ripgrep run abs_path pattern glob_filter ignore_case context_lines
    | none ↦ grep_with_go os m s abs_path pattern glob_filter ignore_case context_lines
  ]
