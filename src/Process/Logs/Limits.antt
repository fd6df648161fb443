-- ===== src/Process/Logs/Limits.antt =====
-- worker/process.go: what `head` and `tail` leave of a log that was written line by line.
use mathlib.Core.List.{reverse, reverse-reverse, reverse-append, reverse-cons}
use remote_hands.Shared.{
  ℕ, zero, suc, ◌-◌, ◌≡◌, ◌≢◌, refl, sym, ap, ◌∙◌, true, false, List, [], ◌∷◌, ◌++◌, append_assoc,
  arith, Text, ℤ, pos, is_positive, length, take, drop, replicate, All, Lacks, split, split-join,
  join, trim_left, trim_right, ltb, inl, inr, Bool-cases, ◌⊎◌, ◌≤◌, ◌<◌,
}
use remote_hands.Path.Cleaned.{All-reverse}
use remote_hands.Process.Logs.{newline, is_newline, limit_lines, limit_log}

-- The content of a log: `fmt.Fprintln` of each line.
abbrev pub unlines : List Text → Text
unlines [] = []
unlines (l ∷ ls) = l ++ newline ∷ unlines ls

-- The last byte of the last line is no newline, so trimming stops there.
abbrev pub EndsInLine : List Text → Type 0
EndsInLine [] = ⊥
EndsInLine (l ∷ []) = l ≢ []
EndsInLine (_ ∷ l ∷ ls) = EndsInLine (l ∷ ls)

trim_left-newlines :
    (k : ℕ) (t : Text) → trim_left is_newline (replicate k newline ++ t) ≡ trim_left is_newline t
unfolding trim_left
trim_left-newlines zero t = refl
trim_left-newlines (suc k) t = trim_left-newlines k t

trim_left-Lacks : (t u : Text) → Lacks newline t → t ≢ [] → trim_left is_newline (t ++ u) ≡ t ++ u
unfolding trim_left
trim_left-Lacks [] u h n = absurd (n refl)
trim_left-Lacks (c ∷ t) u h n = ground arith

replicate-snoc : (k : ℕ) → replicate k newline ++ newline ∷ [] ≡ newline ∷ replicate k newline
replicate-snoc zero = refl
replicate-snoc (suc k) = ap (λ t. newline ∷ t) (replicate-snoc k)

reverse-replicate : (k : ℕ) → reverse (replicate k newline) ≡ replicate k newline
reverse-replicate zero = refl
reverse-replicate (suc k) =
    reverse-cons newline (replicate k newline)
    ∙ ap (λ t. t ++ newline ∷ []) (reverse-replicate k)
    ∙ replicate-snoc k

reverse-ne-nil : (t : Text) → t ≢ [] → reverse t ≢ []
reverse-ne-nil t n e = n (sym (reverse-reverse t) ∙ ap reverse e)

-- Newlines behind a text that does not end in one go.
trim_right-newlines :
    (u l : Text) (k : ℕ)
    → Lacks newline l
    → l ≢ []
    → trim_right is_newline ((u ++ l) ++ replicate k newline) ≡ u ++ l
unfolding trim_right
trim_right-newlines u l k h n =
    ap (λ t. reverse (trim_left is_newline t))
      (reverse-append (u ++ l) (replicate k newline)
        ∙ ap (λ t. t ++ reverse (u ++ l)) (reverse-replicate k)
        ∙ ap (λ t. replicate k newline ++ t) (reverse-append u l))
    ∙ ap reverse (
        trim_left-newlines k (reverse l ++ reverse u)
        ∙ trim_left-Lacks (reverse l) (reverse u) (All-reverse _ l h) (reverse-ne-nil l n)
        ∙ sym (reverse-append u l))
    ∙ reverse-reverse (u ++ l)

-- The joined lines end in the last line.
join_end :
    (l : Text) (ls : List Text)
    → All (Lacks newline) (l ∷ ls)
    → EndsInLine (l ∷ ls)
    → (u : Text) × (e : Text) × Lacks newline e × (e ≢ []) × (join newline (l ∷ ls) ≡ u ++ e)
unfolding join
join_end l [] h n = ([], l, h.0, n, refl)
join_end l (m ∷ ls) h n =
    let (u, e, k, ne, eq) = join_end m ls h.1 n in
    (
      l ++ newline ∷ u,
      e,
      k,
      ne,
      ap (λ t. l ++ newline ∷ t) eq ∙ sym (append_assoc l (newline ∷ u) e),
    )

unlines-blank :
    (l : Text) (ls : List Text) (k : ℕ)
    → unlines (l ∷ ls ++ replicate k []) ≡ join newline (l ∷ ls) ++ replicate (suc k) newline
unfolding join
unlines-blank l [] k = ap (λ t. l ++ newline ∷ t) (blank k)
  where
    blank : (k : ℕ) → unlines (replicate k []) ≡ replicate k newline
    blank zero = refl
    blank (suc k) = ap (λ t. newline ∷ t) (blank k)
unlines-blank l (m ∷ ls) k =
    ap (λ t. l ++ newline ∷ t) (unlines-blank m ls k)
    ∙ sym (append_assoc l (newline ∷ join newline (m ∷ ls)) (replicate (suc k) newline))

join-unlines : (ls : List Text) → ls ≢ [] → join newline ls ++ newline ∷ [] ≡ unlines ls
unfolding join
join-unlines [] n = absurd (n refl)
join-unlines (l ∷ []) n = refl
join-unlines (l ∷ m ∷ ls) n =
    append_assoc l (newline ∷ join newline (m ∷ ls)) (newline ∷ [])
    ∙ ap (λ t. l ++ newline ∷ t) (join-unlines (m ∷ ls) (λ e. cc))

split-trimmed :
    (l : Text) (ls : List Text) (k : ℕ)
    → All (Lacks newline) (l ∷ ls)
    → EndsInLine (l ∷ ls)
    → split newline (trim_right is_newline (unlines (l ∷ ls ++ replicate k []))) ≡ l ∷ ls
split-trimmed l ls k h n =
    let (u, e, m, ne, eq) = join_end l ls h n in
    ap (λ t. split newline (trim_right is_newline t))
      (unlines-blank l ls k ∙ ap (λ t. t ++ replicate (suc k) newline) eq)
    ∙ ap (split newline) (trim_right-newlines u e (suc k) m ne ∙ sym eq)
    ∙ split-join newline l ls h

limit_log-limited :
    (head tail : ℤ) (content : Text)
    → content ≢ []
    → (is_positive head ≡ true) ⊎ (is_positive tail ≡ true)
    → limit_log head tail content
      ≡ join newline (limit_lines head tail (split newline (trim_right is_newline content)))
        ++ newline ∷ []
unfolding limit_log
limit_log-limited head tail [] n h = absurd (n refl)
limit_log-limited head tail (c ∷ content) n h = ground arith

unlines-ne-nil : (l : Text) (ls : List Text) → unlines (l ∷ ls) ≢ []
unlines-ne-nil [] ls e = cc
unlines-ne-nil (c ∷ l) ls e = cc

take_all {ℓ} : {A : Type ℓ} (n : ℕ) (xs : List A) → length xs ≤ n → take n xs ≡ xs
take_all zero [] h = refl
take_all zero (x ∷ xs) h = absurd (omega arith)
take_all (suc n) [] h = refl
take_all (suc n) (x ∷ xs) h = ap (λ t. x ∷ t) (take_all n xs (omega arith))

drop-ne-nil {ℓ} : {A : Type ℓ} (n : ℕ) (xs : List A) → n < length xs → drop n xs ≢ []
drop-ne-nil n [] h e = absurd (omega arith)
drop-ne-nil zero (x ∷ xs) h e = cc
drop-ne-nil (suc n) (x ∷ xs) h e = drop-ne-nil n xs (omega arith) e

limit_lines-head :
    (n : ℕ) (tail : ℤ) (lines : List Text)
    → limit_lines (pos (suc n)) tail lines ≡ take (suc n) lines
unfolding limit_lines
limit_lines-head n tail lines = ground (arith, take_all (suc n) lines)

limit_lines-tail :
    (n : ℕ) (head : ℤ) (lines : List Text)
    → is_positive head ≡ false
    → limit_lines head (pos (suc n)) lines ≡ drop (length lines - suc n) lines
unfolding limit_lines
limit_lines-tail n head lines h = elim (Bool-cases (ltb (suc n) (length lines))) [
  | inl more ↦ ground arith
  | inr all ↦
      let none_left : length lines - suc n ≡ 0 = ground arith in
      rw (h, all, none_left) (ground arith)
]

module _ (l : Text) (ls : List Text) (k : ℕ) (h : All (Lacks newline) (l ∷ ls))
    (e : EndsInLine (l ∷ ls)) where
  -- Of a log whose last k lines are blank and the one before them is not, `head` gives the first
  -- lines of what stands before the blank ones.
  pub limit_log-head :
      (n : ℕ) (tail : ℤ)
      → limit_log (pos (suc n)) tail (unlines (l ∷ ls ++ replicate k []))
        ≡ unlines (take (suc n) (l ∷ ls))
  limit_log-head n tail =
      limit_log-limited (pos (suc n)) tail (unlines (l ∷ ls ++ replicate k []))
        (unlines-ne-nil l (ls ++ replicate k [])) (inl (ground arith))
      ∙ ap (λ t. join newline (limit_lines (pos (suc n)) tail t) ++ newline ∷ [])
          (split-trimmed l ls k h e)
      ∙ ap (λ t. join newline t ++ newline ∷ []) (limit_lines-head n tail (l ∷ ls))
      ∙ join-unlines (take (suc n) (l ∷ ls)) (λ q. cc)

  -- Of a log whose last k lines are blank and the one before them is not, `tail` without `head` gives
  -- the last lines of what stands before the blank ones, which are lost.
  pub limit_log-tail :
      (n : ℕ) (head : ℤ)
      → is_positive head ≡ false
      → limit_log head (pos (suc n)) (unlines (l ∷ ls ++ replicate k []))
        ≡ unlines (drop (length (l ∷ ls) - suc n) (l ∷ ls))
  limit_log-tail n head hd =
      limit_log-limited head (pos (suc n)) (unlines (l ∷ ls ++ replicate k []))
        (unlines-ne-nil l (ls ++ replicate k [])) (inr (ground arith))
      ∙ ap (λ t. join newline (limit_lines head (pos (suc n)) t) ++ newline ∷ [])
          (split-trimmed l ls k h e)
      ∙ ap (λ t. join newline t ++ newline ∷ []) (limit_lines-tail n head (l ∷ ls) hd)
      ∙ join-unlines (drop (length (l ∷ ls) - suc n) (l ∷ ls))
          (drop-ne-nil (length (l ∷ ls) - suc n) (l ∷ ls) (omega arith))
