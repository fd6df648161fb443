-- ===== src/Examples/Logs.antt =====
-- A log of two lines with a blank one behind them.
use remote_hands.Shared.{
  ◌≡◌, List, [], ◌∷◌, ◌++◌, Text, codes, pos, drop, length, ◌-◌, replicate, arith, All, Lacks, refl,
}
use remote_hands.Process.Logs.{newline, limit_log}
use remote_hands.Process.Logs.Limits.{unlines, limit_log-tail, EndsInLine}

abbrev more_lines : List Text
more_lines = codes "two" ∷ []

no_newlines : All (Lacks newline) (codes "one" ∷ more_lines)
no_newlines = ground arith

ends_in_line : EndsInLine (codes "one" ∷ more_lines)
ends_in_line = λ e. cc

limit_log-tail_example :
    limit_log (pos 0) (pos 1) (unlines (codes "one" ∷ more_lines ++ replicate 1 []))
    ≡ unlines (drop (length (codes "one" ∷ more_lines) - 1) (codes "one" ∷ more_lines))
limit_log-tail_example =
    limit_log-tail (codes "one") more_lines 1 no_newlines ends_in_line 0 (pos 0) refl
