-- ===== src/Path/Components.antt =====
-- worker/path.go: rooted paths as lists of elements.
use remote_hands.Shared.{
  ◌≡◌, ◌≢◌, refl, ap, List, [], ◌∷◌, ◌++◌, append-nil, append_assoc, Text, split_from, All, Lacks,
  split_from-append, split_from-sep, split_from_end, split_from-Lacks,
}
use remote_hands.Path.Lexical.{slash, dot, dot_dot, render}

-- No byte of the text is a slash.
abbrev pub NoSlash : Text → Type 0
NoSlash = Lacks slash

-- An element that `Clean` keeps where it stands.
pub record IsName (c : Text) : Type 0 where
  pub nonempty : c ≢ []
  pub no_slash : NoSlash c
  pub not_dot : c ≢ dot
  pub not_dot_dot : c ≢ dot_dot

-- Each element behind a slash.
abbrev pub spine : List Text → Text
spine [] = []
spine (c ∷ cs) = slash ∷ (c ++ spine cs)

pub spine-append : (cs ds : List Text) → spine (cs ++ ds) ≡ spine cs ++ spine ds
spine-append [] ds = refl
spine-append (c ∷ cs) ds = ap (λ t. slash ∷ t) (simp (spine-append cs ds, append_assoc))

pub render-spine : (c : Text) (cs : List Text) → render (c ∷ cs) ≡ spine (c ∷ cs)
unfolding render
render-spine c [] = rw append-nil
render-spine c (d ∷ cs) = ap (λ t. slash ∷ (c ++ t)) (render-spine d cs)

-- Splitting cuts at each element, whatever follows.
pub split_from-spine :
    (cs : List Text) (cur rest : Text)
    → All NoSlash cs
    → split_from slash cur (spine cs ++ slash ∷ rest) ≡ cur ∷ (cs ++ split_from slash [] rest)
split_from-spine [] cur rest h = split_from-sep slash cur rest
split_from-spine (c ∷ cs) cur rest h =
    rw (append_assoc, split_from-sep, split_from-append slash c [] _ h.0)
      (ap (λ t. cur ∷ t) (split_from-spine cs c rest h.1))

pub split_from-NoSlash : (s cur : Text) → NoSlash cur → All NoSlash (split_from slash cur s)
split_from-NoSlash = split_from-Lacks slash

pub split-spine :
    (c : Text) (cs : List Text) (cur : Text)
    → All NoSlash (c ∷ cs)
    → split_from slash cur (spine (c ∷ cs)) ≡ cur ∷ c ∷ cs
split-spine c [] cur h =
    rw (append-nil, split_from-sep) (ap (λ t. cur ∷ t) (split_from_end slash c [] h.0))
split-spine c (d ∷ cs) cur h =
    rw (split_from-sep, split_from-append slash c [] _ h.0)
      (ap (λ t. cur ∷ t) (split-spine d cs c h.1))
