-- ===== src/Grpc/Printed.antt =====
-- worker/grpc.go: the reading of an error that grpcurl has printed.
use remote_hands.Shared.{
  ℕ, ◌≡◌, ◌≤◌, false, List, [], ◌∷◌, ◌++◌, some, Text, codes, lookup, arith, trim_prefix,
  trim_space, split, All, Lacks, join, Option-cases, Bool-cases, inl, inr, Text_eq, Map, ◌==◌,
  is_space,
}
use remote_hands.Grpc.{
  grpc_code_map, code_label, code_after, message_after, scan_error, parse_grpcurl_error,
}

module _ (P : ℕ → Type 0) where
  -- What holds of every code of the map holds of the code that is found.
  lookup-All :
      (key : Text) (m : Map Text ℕ) (code : ℕ)
      → All (λ entry. P entry.1) m
      → lookup key m ≡ some code
      → P code
  unfolding lookup
  lookup-All key [] code h e = absurd (cc)
  lookup-All key ((name, c) ∷ m) code h e = elim (Bool-cases (key == name)) [
    | inl same ↦ let found : c ≡ code = ground arith in rw (← found) h.0
    | inr differ ↦ lookup-All key m code h.1 (ground arith)
  ]

known_codes : All (λ entry. entry.1 ≤ 16) grpc_code_map
known_codes = ground arith

code_after-bound : (code : ℕ) (line : Text) → code ≤ 16 → code_after code line ≤ 16
unfolding code_after
code_after-bound code line h =
    elim (Option-cases (lookup (trim_prefix line code_label) grpc_code_map)) [
      | inl e ↦ ground arith
      | inr (c, e) ↦ ground (arith, lookup-All (λ n. n ≤ 16) _ grpc_code_map c known_codes e)
    ]

scan_error-bound :
    (code : ℕ) (message : Text) (lines : List Text)
    → code ≤ 16
    → (scan_error (code, message) lines).0 ≤ 16
unfolding scan_error
scan_error-bound code message [] h = h
scan_error-bound code message (line ∷ lines) h =
    scan_error-bound (code_after code (trim_space line)) (message_after message (trim_space line))
      lines (code_after-bound code (trim_space line) h)

-- Whatever grpcurl writes, the code that is read is one of gRPC's, from 0 to 16.
pub parse_grpcurl_error_bound : (stderr : Text) → (parse_grpcurl_error stderr).0 ≤ 16
unfolding parse_grpcurl_error
parse_grpcurl_error_bound stderr =
    scan_error-bound 2 (trim_space stderr) (split 10 stderr) (omega arith)

-- A text that is not empty, on one line, whose last byte is no space.
pub record OneLine (t : Text) : Type 0 where
  pub front : Text
  pub last : ℕ
  pub ends : t ≡ front ++ last ∷ []
  pub no_space : is_space last ≡ false
  pub no_newline : Lacks 10 t

-- The error as grpcurl prints it: each line with its end.
abbrev pub printed : Text → Text → Text
printed name message =
    join 10
      (codes "ERROR:" ∷ (codes "  Code: " ++ name) ∷ (codes "  Message: " ++ message) ∷ [] ∷ [])
