-- ===== src/Browser/Selecting.antt =====
-- worker/browser.go: what `parseSelector` and `parseRoleSpec` read.
use remote_hands.Shared.{
  ℕ, zero, suc, ◌≡◌, ◌≢◌, ◌↔◌, refl, ap, inl, inr, true, false, [], ◌∷◌, ◌++◌, some, Text,
  text_eq_iff, codes, index_byte, take, drop, length, take-append, drop-append, has_prefix, Lacks,
  All, Option-cases, arith,
}
use remote_hands.Browser.Selector.{
  Strategy, css, xpath, text, role, ref, known_prefix, parse_selector, is_quote, up_to_quote,
  quoted_name, name_here, find_name, parse_role_spec,
}

index_byte-Lacks : (c : ℕ) (p s : Text) → Lacks c p → index_byte c (p ++ c ∷ s) ≡ some (length p)
unfolding index_byte
index_byte-Lacks c [] s h = ground arith
index_byte-Lacks c (b ∷ p) s h = ground (arith, index_byte-Lacks c p s h.1)

drop-suc : (p : Text) (c : ℕ) (s : Text) → drop (suc (length p)) (p ++ c ∷ s) ≡ s
drop-suc [] c s = refl
drop-suc (b ∷ p) c s = drop-suc p c s

abbrev pub Unquoted : Text → Type 0
Unquoted = All (λ c. is_quote c ≡ false)

up_to_quote-Unquoted :
    (name : Text) (q : ℕ) (rest : Text)
    → Unquoted name
    → is_quote q ≡ true
    → up_to_quote (name ++ q ∷ rest) ≡ some name
unfolding up_to_quote
up_to_quote-Unquoted [] q rest h k = rw (k, up_to_quote) refl
up_to_quote-Unquoted (c ∷ name) q rest h k =
    rw (h.0, up_to_quote) (rw (up_to_quote-Unquoted name q rest h.1 k) refl)

-- A name in quotes, and a text that begins with one behind `name=`.
module _ (c : ℕ) (name : Text) (q0 q1 : ℕ) (rest : Text) where
  unfoldable pub named_role : Text
  named_role = codes "[name=" ++ (q0 ∷ (c ∷ name) ++ (q1 ∷ rest))

  quoted_name-Unquoted :
      Unquoted (c ∷ name)
      → is_quote q0 ≡ true
      → is_quote q1 ≡ true
      → quoted_name (q0 ∷ (c ∷ name) ++ (q1 ∷ rest)) ≡ some (c ∷ name)
  unfolding quoted_name
  quoted_name-Unquoted h k0 k1 =
      rw (k0, quoted_name) (rw (up_to_quote-Unquoted (c ∷ name) q1 rest h k1) refl)

  find_name-named_role :
      Unquoted (c ∷ name)
      → is_quote q0 ≡ true
      → is_quote q1 ≡ true
      → find_name named_role ≡ some (c ∷ name)
  unfolding find_name name_here has_prefix named_role
  find_name-named_role h k0 k1 = rw (quoted_name-Unquoted h k0 k1, find_name) refl

  index_byte-named_role :
      (wanted : Text)
      → Lacks 91 wanted
      → index_byte 91 (wanted ++ named_role) ≡ some (length wanted)
  unfolding named_role
  index_byte-named_role wanted h = index_byte-Lacks 91 wanted _ h

  -- A role followed by `[name=`, a quote, a name that is not empty and a quote is read as the role and
  -- the name, where the role has no `[` and the name no quote of either kind. What follows the second
  -- quote does not matter, nor whether the quotes are of one kind.
  pub parse_role_spec-named_role :
      (wanted : Text)
      → Lacks 91 wanted
      → Unquoted (c ∷ name)
      → is_quote q0 ≡ true
      → is_quote q1 ≡ true
      → parse_role_spec (wanted ++ named_role) ≡ (wanted, c ∷ name)
  unfolding parse_role_spec
  parse_role_spec-named_role wanted hw hn k0 k1 =
      rw (index_byte-named_role wanted hw, parse_role_spec)
        (rw
          (
            drop-append wanted named_role,
            find_name-named_role hn k0 k1,
            take-append wanted named_role,
          )
          refl)

-- The text of a strategy's prefix.
unfoldable pub prefix_of : Strategy → Text
prefix_of css = []
prefix_of xpath = codes "xpath"
prefix_of text = codes "text"
prefix_of role = codes "role"
prefix_of ref = codes "ref"

known_prefix-prefix_of : (st : Strategy) → st ≢ css → known_prefix (prefix_of st) ≡ some st
unfolding known_prefix prefix_of
known_prefix-prefix_of css h = absurd (h refl)
known_prefix-prefix_of xpath h = refl
known_prefix-prefix_of text h = refl
known_prefix-prefix_of role h = refl
known_prefix-prefix_of ref h = refl

prefix_of-Lacks : (st : Strategy) → Lacks b'=' (prefix_of st)
unfolding prefix_of
prefix_of-Lacks css = tt
prefix_of-Lacks xpath = omega arith
prefix_of-Lacks text = omega arith
prefix_of-Lacks role = omega arith
prefix_of-Lacks ref = omega arith

parse_selector-prefix_of :
    (st : Strategy) (value : Text)
    → st ≢ css
    → parse_selector (prefix_of st ++ b'=' ∷ value) ≡ (st, value)
unfolding parse_selector
parse_selector-prefix_of st value h =
    rw (index_byte-Lacks b'=' (prefix_of st) value (prefix_of-Lacks st), parse_selector)
      (rw (take-append (prefix_of st) (b'=' ∷ value), known_prefix-prefix_of st h)
        (ap (λ t. (st, t)) (drop-suc (prefix_of st) b'=' value)))

known_prefix-eq-some : (p : Text) (st : Strategy) → known_prefix p ≡ some st → p ≡ prefix_of st
unfolding known_prefix prefix_of
known_prefix-eq-some p st h = ground (
  arith,
  text_eq_iff p (codes "xpath"),
  text_eq_iff p (codes "text"),
  text_eq_iff p (codes "role"),
  text_eq_iff p (codes "ref"),
)

index_byte-eq-some :
    (c : ℕ) (s : Text) (i : ℕ) → index_byte c s ≡ some i → s ≡ take i s ++ c ∷ drop (suc i) s
unfolding index_byte
index_byte-eq-some c [] i h = cc
index_byte-eq-some c (b ∷ s) zero h = ground arith
index_byte-eq-some c (b ∷ s) (suc i) h = ground (arith, index_byte-eq-some c s i)

parse_selector-eq :
    (selector : Text) (st : Strategy) (value : Text)
    → st ≢ css
    → parse_selector selector ≡ (st, value)
    → selector ≡ prefix_of st ++ b'=' ∷ value
unfolding parse_selector
parse_selector-eq selector st value h e = elim (Option-cases (index_byte b'=' selector)) [
  | inl o ↦ ground (arith, o)
  | inr (i, o) ↦ elim (Option-cases (known_prefix (take i selector))) [
    | inl k ↦ ground (arith, o, k)
    | inr (found, k) ↦ ground (
      arith,
      o,
      k,
      known_prefix-eq-some (take i selector) found,
      index_byte-eq-some b'=' selector i,
    )
  ]
]

-- A selector is read as a strategy other than CSS, with a value, exactly when it is the strategy's
-- prefix, `=` and the value.
pub parse_selector_iff :
    (selector : Text) (st : Strategy) (value : Text)
    → st ≢ css
    → (parse_selector selector ≡ (st, value)) ↔ (selector ≡ prefix_of st ++ b'=' ∷ value)
parse_selector_iff selector st value h =
    (parse_selector-eq selector st value h, λ e. rw e (parse_selector-prefix_of st value h))
