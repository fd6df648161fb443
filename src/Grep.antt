-- ===== src/Grep.antt =====
-- worker/grep.go: the search of one file, the walk, and the reading of ripgrep's output.
pub mod Search
pub mod Ripgrep
use remote_hands.Shared.{
  ℕ, suc, ◌+◌, ◌-◌, min, Bool, true, false, ◌&&◌, not, List, [], ◌∷◌, ◌++◌, Option, none, some,
  Text, codes, ℤ, int32, lt_ℤ, gt_ℤ, is_positive, to_ℕ, take, drop, length, index_byte, split,
  is_empty, trim_right, nat_eq, contains, decimal, if◌then◌else◌, ◌||◌, Result, ok, err, Error,
  connect_error, plain, invalid_argument, internal, ◌>>=◌,
}
use remote_hands.Host.{Host, DirEntry, Visit}
use remote_hands.Path.Lexical.{rel}
use remote_hands.File.Listing.{open_directory}

-- The message GrepMatch.
pub record GrepMatch : Type 0 where
  pub path : Text
  pub line : ℤ
  pub content : Text
  pub context_before : List Text
  pub context_after : List Text

-- `lines[lo:hi]`
abbrev pub slice {ℓ} : {A : Type ℓ} → ℕ → ℕ → List A → List A
slice lo hi xs = take (hi - lo) (drop lo xs)

-- The match on line i of the file.
unfoldable pub match_at : Text → ℤ → List Text → ℕ → Text → GrepMatch
match_at rel_path context_lines lines i line = record {
  path = rel_path;
  line = int32 (i + 1);
  content = line;
  context_before = if is_positive context_lines then slice (i - to_ℕ context_lines) i lines else [];
  context_after =
      if is_positive context_lines
      then slice (i + 1) (min (length lines) (i + to_ℕ context_lines + 1)) lines
      else [];
}

-- The loop over the lines from line i on. `re` is the compiled expression's `MatchString`.
unfoldable pub search_lines : (Text → Bool) → Text → ℤ → List Text → ℕ → List Text → List GrepMatch
unfolding match_at
search_lines re rel_path context_lines lines i [] = []
search_lines re rel_path context_lines lines i (line ∷ rest) =
    let more = search_lines re rel_path context_lines lines (i + 1) rest in
    if re line then match_at rel_path context_lines lines i line ∷ more else more

-- A null byte among the first 8 KB.
unfoldable pub is_binary : Text → Bool
unfolding index_byte
is_binary content = elim (index_byte 0 (take 8192 content)) [ none ↦ false | some _ ↦ true ]

-- searchFile, behind the reading of the file.
unfoldable pub search_content : (Text → Bool) → Text → ℤ → Text → List GrepMatch
unfolding search_lines is_binary split
search_content re rel_path context_lines content =
    if is_binary content
    then []
    else let lines : List Text = split 10 content in
      search_lines re rel_path context_lines lines 0 lines

abbrev pub rel_or_path : Text → Text → Text
rel_or_path base path = elim (rel base path) [ none ↦ path | some r ↦ r ]

-- `doublestar.Match` and `regexp.Compile`: an expression that does not compile is none.
pub record Matchers : Type 0 where
  pub glob_match : Text → Text → Bool
  pub compile : Text → Option (Text → Bool)

module _ (os : Host) (m : Matchers) where
  -- Whether the filter lets the file through. A pattern or a path that is in error lets none through.
  unfoldable pub passes_filter : Text → Text → Text → Bool
  passes_filter glob_filter abs_path walk_path =
      if is_empty glob_filter then true else elim (rel abs_path walk_path) [
        | none ↦ false
        | some rel_path ↦ m.glob_match glob_filter rel_path
      ]

  -- searchFile
  unfoldable pub search_file : os.State → (Text → Bool) → Text → Text → ℤ → List GrepMatch
  unfolding search_content
  search_file s re base file_path context_lines = elim (os.read_file s file_path) [
    | err _ ↦ []
    | ok content ↦ search_content re (rel_or_path base file_path) context_lines content
  ]

  -- The walk of grepWithGo, over the calls that `WalkDir` makes.
  unfoldable pub search_visits :
      os.State → (Text → Bool) → Text → Text → ℤ → List Visit → List GrepMatch
  unfolding search_file passes_filter
  search_visits s re abs_path glob_filter context_lines [] = []
  search_visits s re abs_path glob_filter context_lines (v ∷ visits) =
      let rest = search_visits s re abs_path glob_filter context_lines visits in
      elim v.entry [
        | err _ ↦ rest
        | ok d ↦
            if d.is_dir
            then rest
            else if passes_filter glob_filter abs_path v.path
            then search_file s re abs_path v.path context_lines ++ rest
            else rest
      ]

  -- grepWithGo
  unfoldable pub grep_with_go :
      os.State → Text → Text → Text → Bool → ℤ → Result Error (List GrepMatch)
  unfolding search_visits
  grep_with_go s abs_path pattern glob_filter ignore_case context_lines =
      elim (m.compile (if ignore_case then codes "(?i)" ++ pattern else pattern)) [
        | none ↦ err (connect_error invalid_argument "invalid regex pattern: %w")
        | some re ↦
            ok (search_visits s re abs_path glob_filter context_lines (os.walk_dir s abs_path))
      ]
