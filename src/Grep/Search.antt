-- ===== src/Grep/Search.antt =====
-- worker/grep.go: the matches of searchFile and the lines around them.
use remote_hands.Shared.{
  ℕ, zero, suc, ◌+◌, ◌-◌, ◌≤◌, ◌≡◌, refl, ap, Bool, true, false, List, [], ◌∷◌, ◌++◌, append-nil,
  append_assoc, arith, Text, ℤ, int32, is_positive, to_ℕ, take, drop, length, length-append, min,
  if◌then◌else◌, ◌⊎◌, inl, inr, Bool-cases, split, length-drop,
}
use remote_hands.Grep.{GrepMatch, slice, match_at, search_lines, search_content, is_binary}

-- How many lines of context are asked for.
abbrev pub width : ℤ → ℕ
width c = if is_positive c then to_ℕ c else 0

-- The match that belongs to a line between the lines before it and behind it: the last of the
-- former and the first of the latter.
abbrev pub around : Text → ℤ → List Text → Text → List Text → GrepMatch
around rel_path c front line back = record {
  path = rel_path;
  line = int32 (length front + 1);
  content = line;
  context_before = drop (length front - width c) front;
  context_after = take (width c) back;
}

drop_short {ℓ} :
    {A : Type ℓ} (k : ℕ) (xs ys : List A) → k ≤ length xs → drop k (xs ++ ys) ≡ drop k xs ++ ys
drop_short zero xs ys h = refl
drop_short (suc k) [] ys h = absurd (omega (arith, h))
drop_short (suc k) (x ∷ xs) ys h = drop_short k xs ys (omega (arith, h))

drop_over {ℓ} :
    {A : Type ℓ} (xs : List A) (x : A) (ys : List A) → drop (suc (length xs)) (xs ++ x ∷ ys) ≡ ys
drop_over [] x ys = refl
drop_over (z ∷ xs) x ys = drop_over xs x ys

drop_all {ℓ} : {A : Type ℓ} (xs : List A) → drop (length xs) xs ≡ []
drop_all [] = refl
drop_all (x ∷ xs) = drop_all xs

take_exact {ℓ} : {A : Type ℓ} (k : ℕ) (xs ys : List A) → k ≡ length xs → take k (xs ++ ys) ≡ xs
take_exact zero [] ys h = refl
take_exact zero (x ∷ xs) ys h = absurd (omega (arith, h))
take_exact (suc k) [] ys h = absurd (omega (arith, h))
take_exact (suc k) (x ∷ xs) ys h = ap (λ t. x ∷ t) (take_exact k xs ys (omega (arith, h)))

take_bounded {ℓ} :
    {A : Type ℓ} (k m : ℕ) (xs : List A) → m ≡ min (length xs) k → take m xs ≡ take k xs
take_bounded zero zero xs h = refl
take_bounded zero (suc m) xs h = absurd (omega (arith, h))
take_bounded (suc k) zero [] h = refl
take_bounded (suc k) zero (x ∷ xs) h = absurd (omega (arith, h))
take_bounded (suc k) (suc m) [] h = refl
take_bounded (suc k) (suc m) (x ∷ xs) h = ap (λ t. x ∷ t) (take_bounded k m xs (omega (arith, h)))

slice_before {ℓ} :
    {A : Type ℓ} (k : ℕ) (front back : List A)
    → slice (length front - k) (length front) (front ++ back) ≡ drop (length front - k) front
slice_before k front back = rw (drop_short (length front - k) front back (omega arith)) (
    take_exact _ (drop (length front - k) front) back
      (ground (arith, length-drop (length front - k) front)))

slice_after {ℓ} :
    {A : Type ℓ} (k : ℕ) (front : List A) (line : A) (back : List A)
    → slice
        (length front + 1)
        (min (length (front ++ line ∷ back)) (length front + k + 1))
        (front ++ line ∷ back)
      ≡ take k back
slice_after k front line back =
    let next : length front + 1 ≡ suc (length front) = omega arith in
    let over : drop (length front + 1) (front ++ line ∷ back) ≡ back =
      rw next (drop_over front line back) in
    rw over (take_bounded k _ back (omega (arith, length-append front (line ∷ back))))

match_at-around :
    (rel_path : Text) (c : ℤ) (front : List Text) (line : Text) (back : List Text)
    → match_at rel_path c (front ++ line ∷ back) (length front) line
      ≡ around rel_path c front line back
unfolding match_at
match_at-around rel_path c front line back = elim (Bool-cases (is_positive c)) [
  | inl h ↦
      let before = slice_before (to_ℕ c) front (line ∷ back) in
      let after = slice_after (to_ℕ c) front line back in rw (h, before, after) refl
  | inr h ↦
      let whole : length front - 0 ≡ length front = omega arith in
      let none_before : drop (length front - 0) front ≡ [] = rw whole (drop_all front) in
      rw (h, none_before) refl
]

-- The matches of the lines in order: each matching line of `back` gives the one around it.
abbrev pub all_around : (Text → Bool) → Text → ℤ → List Text → List Text → List GrepMatch
all_around re rel_path c front [] = []
all_around re rel_path c front (line ∷ back) =
    let more = all_around re rel_path c (front ++ line ∷ []) back in
    if re line then around rel_path c front line back ∷ more else more

search_lines-around :
    (re : Text → Bool) (rel_path : Text) (c : ℤ) (front back : List Text)
    → search_lines re rel_path c (front ++ back) (length front) back
      ≡ all_around re rel_path c front back
unfolding search_lines
search_lines-around re rel_path c front [] = refl
search_lines-around re rel_path c front (line ∷ back) =
    let rest : search_lines re rel_path c (front ++ line ∷ back) (length front + 1) back
        ≡ all_around re rel_path c (front ++ line ∷ []) back =
      rw (append_assoc front (line ∷ []) back, length-append front (line ∷ [])) at
        (search_lines-around re rel_path c (front ++ line ∷ []) back) in
    rw (rest, match_at-around rel_path c front line back) refl

-- `m` is the match of a line that the expression matches.
pub record Found (re : Text → Bool) (rel_path : Text) (c : ℤ) (lines : List Text) (m : GrepMatch)
    : Type 0 where
  pub front : List Text
  pub line : Text
  pub back : List Text
  pub split_at : lines ≡ front ++ line ∷ back
  pub matches : re line ≡ true
  pub shown : m ≡ around rel_path c front line back

abbrev pub Among : GrepMatch → List GrepMatch → Type 0
Among m [] = ⊥
Among m (n ∷ ns) = (m ≡ n) ⊎ Among m ns

all_around-Found :
    (re : Text → Bool) (rel_path : Text) (c : ℤ) (front back : List Text) (m : GrepMatch)
    → Among m (all_around re rel_path c front back)
    → Found re rel_path c (front ++ back) m
all_around-Found re rel_path c front [] m a = absurd a
all_around-Found re rel_path c front (line ∷ back) m a =
    let later : Among m (all_around re rel_path c (front ++ line ∷ []) back)
        → Found re rel_path c (front ++ line ∷ back) m =
      λ b.
        rw (append_assoc front (line ∷ []) back) at
          (all_around-Found re rel_path c (front ++ line ∷ []) back m b) in
    elim (Bool-cases (re line)) [
      | inr h ↦ later (rw h at a)
      | inl h ↦
          let here : (m ≡ around rel_path c front line back)
              ⊎ Among m (all_around re rel_path c (front ++ line ∷ []) back) =
            rw h at a in
          elim here [
            | inl same ↦ record {
              front = front;
              line = line;
              back = back;
              split_at = refl;
              matches = h;
              shown = same;
            }
            | inr rest ↦ later rest
          ]
    ]

all_around_complete :
    (re : Text → Bool) (rel_path : Text) (c : ℤ) (front mid : List Text) (line : Text)
    (back : List Text)
    → re line ≡ true
    → Among
        (around rel_path c (front ++ mid) line back)
        (all_around re rel_path c front (mid ++ line ∷ back))
all_around_complete re rel_path c front [] line back h = rw (append-nil front, h) (inl refl)
all_around_complete re rel_path c front (x ∷ mid) line back h =
    let rest : Among (around rel_path c (front ++ x ∷ mid) line back)
        (all_around re rel_path c (front ++ x ∷ []) (mid ++ line ∷ back)) =
      rw (append_assoc front (x ∷ []) mid) at
        (all_around_complete re rel_path c (front ++ x ∷ []) mid line back h) in
    elim (Bool-cases (re x)) [ inl g ↦ rw g (inr rest) | inr g ↦ rw g rest ]

-- On a file that is not binary, the matches are exactly those of the matching lines: each match
-- belongs to a line that the expression matches, with its number and at most the asked number of
-- lines next to it on both sides as context, and each line that matches has its match.
pub search_content_lem :
    (re : Text → Bool) (rel_path : Text) (c : ℤ) (content : Text)
    → is_binary content ≡ false
    → ((m : GrepMatch)
        → Among m (search_content re rel_path c content)
        → Found re rel_path c (split 10 content) m)
      × ((front : List Text) (line : Text) (back : List Text)
          → split 10 content ≡ front ++ line ∷ back
          → re line ≡ true
          → Among (around rel_path c front line back) (search_content re rel_path c content))
unfolding search_content
search_content_lem re rel_path c content b =
    let all : search_content re rel_path c content
        ≡ all_around re rel_path c [] (split 10 content) =
      rw b (search_lines-around re rel_path c [] (split 10 content)) in
    (
      λ m a. all_around-Found re rel_path c [] (split 10 content) m (rw all at a),
      λ front line back e h. rw (all, e) (all_around_complete re rel_path c [] front line back h),
    )
