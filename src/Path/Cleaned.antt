-- ===== src/Path/Cleaned.antt =====
-- worker/path.go: what `Clean` and `Dir` make of rooted paths.
use mathlib.Core.List.{reverse, reverse-reverse, reverse-cons}
use remote_hands.Shared.{
  ◌≡◌, refl, ap, sym, ◌∙◌, Bool, true, List, [], ◌∷◌, ◌++◌, append-nil, append_assoc, arith, Text,
  text_eq_iff, split, All, All-append,
}
use remote_hands.Path.Lexical.{
  slash, dot, dot_dot, is_abs, element, elements, render, clean, up_to_slash, dir,
}
use remote_hands.Path.Components.{
  NoSlash, IsName, spine, spine-append, render-spine, split_from-NoSlash, split-spine,
}

element-IsName :
    (kept : List Text) (c : Text) → All IsName kept → NoSlash c → All IsName (element true kept c)
unfolding element
element-IsName kept [] h n = h
element-IsName [] (b ∷ c) h n = ground (arith, text_eq_iff (b ∷ c) dot, text_eq_iff (b ∷ c) dot_dot)
element-IsName (k ∷ kept) (b ∷ c) h n = ground (
  arith,
  text_eq_iff (b ∷ c) dot,
  text_eq_iff (b ∷ c) dot_dot,
  text_eq_iff k dot_dot,
  h.0.not_dot_dot,
)

pub elements-IsName :
    (kept cs : List Text) → All IsName kept → All NoSlash cs → All IsName (elements true kept cs)
unfolding elements
elements-IsName kept [] h n = h
elements-IsName kept (c ∷ cs) h n =
    elements-IsName (element true kept c) cs (element-IsName kept c h n.0) n.1

pub All-reverse {ℓ κ} : {A : Type ℓ} (P : A → Type κ) (xs : List A) → All P xs → All P (reverse xs)
All-reverse P [] h = tt
All-reverse P (x ∷ xs) h =
    rw reverse-cons (All-append P (reverse xs) (x ∷ []) (All-reverse P xs h.1) (h.0, tt))

-- What `Clean` makes of a rooted path has names for elements only: no `..`, no `.`, no empty one.
pub clean-render :
    (p : Text) → is_abs p ≡ true → (cs : List Text) × (All IsName cs) × (clean p ≡ render cs)
unfolding is_abs clean
clean-render [] h = cc
clean-render (c ∷ p) h = (
  reverse (elements true [] (split slash (c ∷ p))),
  All-reverse IsName _
      (elements-IsName [] (split slash (c ∷ p)) tt (split_from-NoSlash (c ∷ p) [] tt)),
  ground arith,
)

element-name : (kept : List Text) (c : Text) → IsName c → element true kept c ≡ c ∷ kept
unfolding element
element-name kept [] h = absurd (h.nonempty refl)
element-name kept (b ∷ c) h =
    ground (arith, text_eq_iff (b ∷ c) dot, text_eq_iff (b ∷ c) dot_dot, h.not_dot, h.not_dot_dot)

pub elements-append :
    (rooted : Bool) (kept cs ds : List Text)
    → elements rooted kept (cs ++ ds) ≡ elements rooted (elements rooted kept cs) ds
unfolding elements
elements-append rooted kept [] ds = refl
elements-append rooted kept (c ∷ cs) ds = elements-append rooted (element rooted kept c) cs ds

pub elements-names :
    (kept cs : List Text) → All IsName cs → elements true kept cs ≡ reverse cs ++ kept
unfolding elements
elements-names kept [] h = refl
elements-names kept (c ∷ cs) h =
    rw (element-name kept c h.0, elements-names (c ∷ kept) cs h.1, reverse-cons, append_assoc)

pub NoSlash-of_names : (cs : List Text) → All IsName cs → All NoSlash cs
NoSlash-of_names [] h = tt
NoSlash-of_names (c ∷ cs) h = (h.0.no_slash, NoSlash-of_names cs h.1)

-- `Clean` of a rooted spelling, by its elements.
pub clean-spine :
    (c : Text) (cs : List Text)
    → All NoSlash (c ∷ cs)
    → clean (spine (c ∷ cs)) ≡ render (reverse (elements true [] (c ∷ cs)))
unfolding clean
clean-spine c cs h = rw (split-spine c cs [] h)

-- A trailing slash goes.
clean-trailing : (cs : List Text) → All IsName cs → clean (spine (cs ++ [] ∷ [])) ≡ render cs
unfolding elements
clean-trailing [] h = clean-spine [] [] (tt, tt)
clean-trailing (c ∷ cs) h =
    clean-spine c (cs ++ [] ∷ [])
      (h.0.no_slash, All-append NoSlash cs ([] ∷ []) (NoSlash-of_names cs h.1) (tt, tt))
    ∙ ap (λ t. render (reverse t))
        (elements-append true [] (c ∷ cs) ([] ∷ []) ∙ elements-names [] (c ∷ cs) h ∙ append-nil _)
    ∙ ap render (reverse-reverse (c ∷ cs))

up_to_slash-none : (c : Text) → NoSlash c → up_to_slash c ≡ []
unfolding up_to_slash
up_to_slash-none [] h = refl
up_to_slash-none (b ∷ c) h = ground (arith, up_to_slash-none c h.1)

up_to_slash-append : (p c : Text) → NoSlash c → up_to_slash (p ++ slash ∷ c) ≡ p ++ slash ∷ []
unfolding up_to_slash
up_to_slash-append [] c h = ground (arith, up_to_slash-none c h)
up_to_slash-append (b ∷ []) c h = rw (up_to_slash-none c h)
up_to_slash-append (b ∷ d ∷ p) c h = rw (up_to_slash-append (d ∷ p) c h)

render-append : (cs : List Text) (c : Text) → render (cs ++ c ∷ []) ≡ spine cs ++ slash ∷ c
render-append [] c = render-spine c [] ∙ ap (λ t. slash ∷ t) (append-nil c)
render-append (d ∷ cs) c =
    render-spine d (cs ++ c ∷ [])
    ∙ spine-append (d ∷ cs) (c ∷ [])
    ∙ ap (λ t. spine (d ∷ cs) ++ slash ∷ t) (append-nil c)

-- `Dir` of a clean rooted path drops its last element.
pub dir-render :
    (cs : List Text) (c : Text) → All IsName cs → IsName c → dir (render (cs ++ c ∷ [])) ≡ render cs
unfolding dir
dir-render cs c h n =
    ap (λ t. clean (up_to_slash t)) (render-append cs c)
    ∙ ap clean (up_to_slash-append (spine cs) c n.no_slash)
    ∙ ap clean (sym (spine-append cs ([] ∷ [])))
    ∙ clean-trailing cs h

-- At the root it stays.
pub dir_root : dir (render []) ≡ render []
unfolding dir
dir_root = refl
