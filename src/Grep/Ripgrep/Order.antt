-- ===== src/Grep/Ripgrep/Order.antt =====
-- worker/grep.go: ripgrep's lines in the order of their numbers.
use remote_hands.Shared.{
  ℕ, ◌≡◌, ◌<◌, ◌≤◌, ltb, refl, true, false, List, [], ◌∷◌, arith, Text, pos, int32-small, Option,
  none, some, All, All-append, ok, trim_right,
}
use remote_hands.Grep.{GrepMatch}
use remote_hands.Grep.Ripgrep.{
  RgLine, matched, context, begin, skipped, Scan, all_matches, add_context, new_match, scan_line,
  scan_lines, parse_ripgrep_json, is_line_end,
}

-- Line numbers grow from `last` on until the next file begins, and fit 31 bits.
abbrev pub InOrder : ℕ → List RgLine → Type 0
InOrder last [] = Unit {0}
InOrder last (matched p t n ∷ ls) = (last < n) × (n < 2147483648) × InOrder n ls
InOrder last (context p t n ∷ ls) = (last < n) × (n < 2147483648) × InOrder n ls
InOrder last (begin ∷ ls) = InOrder 0 ls
InOrder last (skipped ∷ ls) = InOrder last ls

abbrev pub NoBefore : GrepMatch → Type 0
NoBefore m = m.context_before ≡ []

-- The current match has no context before it, and its line was read.
abbrev pub Behind : ℕ → Option GrepMatch → Type 0
Behind last none = Unit {0}
Behind last (some m) = NoBefore m × ((n : ℕ) × (m.line ≡ pos n) × (n ≤ last))

abbrev scan_of : List GrepMatch → Option GrepMatch → Scan
scan_of e c = record { earlier = e; current = c }

all_matches-NoBefore :
    (last : ℕ) (e : List GrepMatch) (c : Option GrepMatch)
    → All NoBefore e
    → Behind last c
    → All NoBefore (all_matches (scan_of e c))
all_matches-NoBefore last e none h b = h
all_matches-NoBefore last e (some m) h b = All-append NoBefore e (m ∷ []) h (b.0, tt)

add_context-Behind :
    (text : Text) (last n : ℕ) (m : GrepMatch)
    → last < n
    → Behind last (some m)
    → Behind n (some (add_context text n m))
unfolding add_context
add_context-Behind text last n m lt (none_before, (k, at, le)) =
    let behind : ltb n k ≡ false = ground arith in
    let beyond : ltb k n ≡ true = ground arith in
    rw (at, behind, beyond) (none_before, (k, refl, omega arith))

new_match-Behind :
    (base path text : Text) (n : ℕ) → n < 2147483648 → Behind n (some (new_match base path text n))
unfolding new_match
new_match-Behind base path text n small = (refl, (n, int32-small n small, omega arith))

scan_lines-NoBefore :
    (base : Text) (last : ℕ) (earlier : List GrepMatch) (current : Option GrepMatch)
    (ls : List RgLine)
    → InOrder last ls
    → All NoBefore earlier
    → Behind last current
    → All NoBefore (all_matches (scan_lines base (scan_of earlier current) ls))
unfolding scan_lines scan_line
scan_lines-NoBefore base last e none [] o h b = h
scan_lines-NoBefore base last e (some m) [] o h b = all_matches-NoBefore last e (some m) h b
scan_lines-NoBefore base last e c (matched p t n ∷ ls) o h b =
    scan_lines-NoBefore base n (all_matches (scan_of e c)) (some (new_match base p t n)) ls o.2
      (all_matches-NoBefore last e c h b) (new_match-Behind base p t n o.1)
scan_lines-NoBefore base last e none (context p t n ∷ ls) o h b =
    scan_lines-NoBefore base n e none ls o.2 h tt
scan_lines-NoBefore base last e (some m) (context p t n ∷ ls) o h b =
    scan_lines-NoBefore base n e (some (add_context (trim_right is_line_end t) n m)) ls o.2 h
      (add_context-Behind (trim_right is_line_end t) last n m o.0 b)
scan_lines-NoBefore base last e c (begin ∷ ls) o h b =
    scan_lines-NoBefore base 0 (all_matches (scan_of e c)) none ls o
      (all_matches-NoBefore last e c h b) tt
scan_lines-NoBefore base last e c (skipped ∷ ls) o h b = scan_lines-NoBefore base last e c ls o h b

-- The lines before a match are lost: when the line numbers of each file grow, as ripgrep writes
-- them, and fit 31 bits, the output is read, and no match has a line of context before it.
pub parse_ripgrep_json-NoBefore :
    (base : Text) (ls : List RgLine)
    → InOrder 0 ls
    → (ms : List GrepMatch) × (parse_ripgrep_json base ls none ≡ ok ms) × All NoBefore ms
unfolding parse_ripgrep_json
parse_ripgrep_json-NoBefore base ls o = (
  all_matches (scan_lines base (scan_of [] none) ls),
  refl,
  scan_lines-NoBefore base 0 [] none ls o tt tt,
)
