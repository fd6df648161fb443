-- ===== src/Path/Containment.antt =====
-- worker/path.go: `isUnderDir` and the lists of elements of clean rooted paths.
use mathlib.Core.List.{reverse, reverse-reverse, reverse-append}
use remote_hands.Shared.{
  ◌≡◌, ◌≢◌, ◌↔◌, refl, ap, sym, ◌∙◌, inl, inr, true, false, List, [], ◌∷◌, ◌++◌, append-nil,
  append_assoc, arith, Text, text_eq, text_eq_iff, split_from, All, Bool-cases, has_prefix,
  has_suffix,
}
use remote_hands.Path.Lexical.{slash, render}
use remote_hands.Path.Components.{
  NoSlash, IsName, spine, spine-append, render-spine, split_from-spine, split-spine,
}
use remote_hands.Path.Cleaned.{NoSlash-of_names, All-reverse}
use remote_hands.Path.{is_under_dir}

pub has_prefix-append : (p r : Text) → has_prefix (p ++ r) p ≡ true
unfolding has_prefix
has_prefix-append [] [] = refl
has_prefix-append [] (c ∷ r) = refl
has_prefix-append (c ∷ p) r = ground (arith, has_prefix-append p r)

pub has_prefix-cut : (s p : Text) → has_prefix s p ≡ true → (r : Text) × (s ≡ p ++ r)
unfolding has_prefix
has_prefix-cut s [] h = (s, refl)
has_prefix-cut [] (b ∷ p) h = absurd (cc)
has_prefix-cut (a ∷ s) (b ∷ p) h =
    let (r, e) = has_prefix-cut s p (ground arith) in (r, ground (arith, e))

-- A text whose last element holds no slash does not end in one.
not_slash_first : (r u : Text) → r ≢ [] → NoSlash r → has_prefix (r ++ u) (slash ∷ []) ≡ false
unfolding has_prefix
not_slash_first [] u n h = absurd (n refl)
not_slash_first (c ∷ r) u n h = ground arith

reverse-ne-nil : (c : Text) → c ≢ [] → reverse c ≢ []
reverse-ne-nil c n e = n (sym (reverse-reverse c) ∙ ap reverse e)

has_suffix-slash : (t c : Text) → c ≢ [] → NoSlash c → has_suffix (t ++ c) (slash ∷ []) ≡ false
unfolding has_suffix
has_suffix-slash t c n h =
    rw (reverse-append t c)
      (not_slash_first (reverse c) (reverse t) (reverse-ne-nil c n) (All-reverse _ c h))

last_element :
    (c : Text) (cs : List Text)
    → All IsName (c ∷ cs)
    → (t : Text) × (l : Text) × IsName l × (spine (c ∷ cs) ≡ t ++ l)
last_element c [] h = (slash ∷ [], c, h.0, ap (λ t. slash ∷ t) (append-nil c))
last_element c (d ∷ cs) h =
    let (t, l, n, e) = last_element d cs h.1 in
    (slash ∷ (c ++ t), l, n, ap (λ u. slash ∷ u) (ap (λ u. c ++ u) e ∙ sym (append_assoc c t l)))

render-has_suffix :
    (c : Text) (cs : List Text)
    → All IsName (c ∷ cs)
    → has_suffix (render (c ∷ cs)) (slash ∷ []) ≡ false
render-has_suffix c cs h =
    let (t, l, n, e) = last_element c cs h in
    rw (render-spine c cs ∙ e) (has_suffix-slash t l n.nonempty n.no_slash)

-- What splitting a clean path gives behind the empty element at its front.
abbrev listed : List Text → List Text
listed [] = [] ∷ []
listed (c ∷ cs) = c ∷ cs

split-render : (ps : List Text) → All IsName ps → split_from slash [] (render ps) ≡ [] ∷ listed ps
unfolding render split_from
split-render [] h = refl
split-render (c ∷ cs) h =
    ap (split_from slash []) (render-spine c cs) ∙ split-spine c cs [] (NoSlash-of_names (c ∷ cs) h)

tail_of : List Text → List Text
tail_of [] = []
tail_of (_ ∷ cs) = cs

cons-injective : {a b : Text} {ps qs : List Text} → a ∷ ps ≡ b ∷ qs → ps ≡ qs
unfolding tail_of
cons-injective e = ap tail_of e

listed-injective :
    (ps qs : List Text) → All IsName ps → All IsName qs → listed ps ≡ listed qs → ps ≡ qs
listed-injective [] [] h k e = refl
listed-injective [] (q ∷ qs) h k e = ground (arith, k.0.nonempty, e)
listed-injective (p ∷ ps) [] h k e = ground (arith, h.0.nonempty, e)
listed-injective (p ∷ ps) (q ∷ qs) h k e = e

-- Clean rooted paths are equal only if their elements are.
pub render-injective :
    (ps qs : List Text) → All IsName ps → All IsName qs → render ps ≡ render qs → ps ≡ qs
render-injective ps qs h k e =
    listed-injective ps qs h k
      (cons-injective (sym (split-render ps h) ∙ ap (split_from slash []) e ∙ split-render qs k))

-- `qs` begins with the elements of `ps`.
abbrev pub Extends : List Text → List Text → Type 0
Extends ps qs = (rest : List Text) × (qs ≡ ps ++ rest)

under_prefix :
    (c : Text) (cs qs : List Text) (r : Text)
    → All IsName (c ∷ cs)
    → All IsName qs
    → render qs ≡ (render (c ∷ cs) ++ slash ∷ []) ++ r
    → Extends (c ∷ cs) qs
under_prefix c cs qs r h k e =
    let split_qs : [] ∷ listed qs ≡ [] ∷ (c ∷ cs ++ split_from slash [] r) =
      sym (split-render qs k)
      ∙ ap (split_from slash []) (
          e
          ∙ append_assoc (render (c ∷ cs)) (slash ∷ []) r
          ∙ ap (λ t. t ++ slash ∷ r) (render-spine c cs))
      ∙ split_from-spine (c ∷ cs) [] r (NoSlash-of_names (c ∷ cs) h) in
    (split_from slash [] r, not_root qs (cons-injective split_qs))
  where
    not_root :
        (qs : List Text)
        → listed qs ≡ c ∷ (cs ++ split_from slash [] r)
        → qs ≡ c ∷ (cs ++ split_from slash [] r)
    not_root [] e = ground (arith, h.0.nonempty, e)
    not_root (q ∷ qs) e = e

under-Extends :
    (ps qs : List Text)
    → All IsName ps
    → All IsName qs
    → is_under_dir (render ps) (render qs) ≡ true
    → Extends ps qs
unfolding is_under_dir
under-Extends [] qs h k e = (qs, refl)
under-Extends (c ∷ cs) qs h k e = elim (Bool-cases (text_eq (render qs) (render (c ∷ cs)))) [
  | inl same ↦
      ([], render-injective qs (c ∷ cs) k h ((text_eq_iff _ _).0 same) ∙ sym (append-nil _))
  | inr differ ↦
      let (r, cut) =
        has_prefix-cut (render qs) (render (c ∷ cs) ++ slash ∷ [])
          (ground (arith, render-has_suffix c cs h)) in
      under_prefix c cs qs r h k cut
]

extended_prefix :
    (c : Text) (cs : List Text) (d : Text) (rest : List Text)
    → has_prefix (render (c ∷ (cs ++ d ∷ rest))) (render (c ∷ cs) ++ slash ∷ []) ≡ true
extended_prefix c cs d rest =
    rw
      (render-spine c (cs ++ d ∷ rest)
        ∙ spine-append (c ∷ cs) (d ∷ rest)
        ∙ ap (λ t. t ++ spine (d ∷ rest)) (sym (render-spine c cs))
        ∙ sym (append_assoc (render (c ∷ cs)) (slash ∷ []) (d ++ spine rest)))
      (has_prefix-append (render (c ∷ cs) ++ slash ∷ []) (d ++ spine rest))

extends_under :
    (ps rest : List Text) → All IsName ps → is_under_dir (render ps) (render (ps ++ rest)) ≡ true
unfolding is_under_dir
extends_under ps [] h = rw (append-nil ps) (ground (arith, text_eq_iff (render ps) (render ps)))
extends_under [] (d ∷ rest) h = unfold render has_prefix in ground arith
extends_under (c ∷ cs) (d ∷ rest) h =
    rw (render-has_suffix c cs h) (ground (arith, extended_prefix c cs d rest))

-- Of two clean rooted paths, given by their elements, the code takes the second to be under the
-- first exactly when its elements begin with the first one's.
pub is_under_dir_iff :
    (ps qs : List Text)
    → All IsName ps
    → All IsName qs
    → (is_under_dir (render ps) (render qs) ≡ true) ↔ Extends ps qs
is_under_dir_iff ps qs h k = (under-Extends ps qs h k, λ (rest, e). rw e (extends_under ps rest h))
