-- ===== src/Path/Requests.antt =====
-- worker/path.go: which relative requests pass the lexical check of `ValidatePath`, and which are turned away.
use mathlib.Core.List.{reverse, reverse-reverse, reverse-append}
use remote_hands.Shared.{
  ◌≡◌, ◌≢◌, refl, ap, ◌∙◌, inl, inr, true, false, List, [], ◌∷◌, ◌++◌, append-nil, append_assoc,
  arith, Text, text_eq, text_eq_iff, split, split_from, All, Bool-cases, ok, err, path_traversal,
  is_empty, ◌||◌,
}
use remote_hands.Host.{Host}
use remote_hands.Path.Lexical.{
  slash, dot, dot_dot, is_abs, element, elements, render, clean, join_path,
}
use remote_hands.Path.Components.{IsName, render-spine, split_from-spine, split_from-NoSlash}
use remote_hands.Path.Cleaned.{
  All-reverse, NoSlash-of_names, clean-spine, elements-names, elements-append, elements-IsName,
}
use remote_hands.Path.Containment.{Extends, is_under_dir_iff}
use remote_hands.Path.{is_under_dir, target_path, check_target, resolve_home, validate_path}

-- `Clean` leaves a clean path alone.
pub clean-render_names : (cs : List Text) → All IsName cs → clean (render cs) ≡ render cs
unfolding elements
clean-render_names [] h = unfold clean render in refl
clean-render_names (c ∷ cs) h =
    ap clean (render-spine c cs)
    ∙ clean-spine c cs (NoSlash-of_names (c ∷ cs) h)
    ∙ ap (λ t. render (reverse t)) (elements-names [] (c ∷ cs) h ∙ append-nil _)
    ∙ ap render (reverse-reverse (c ∷ cs))

joined-split :
    (hs : List Text) (requested : Text)
    → All IsName hs
    → elements true [] (split_from slash [] (render hs ++ slash ∷ requested))
      ≡ elements true (reverse hs) (split slash requested)
unfolding elements split
joined-split [] requested h = unfold render split_from element in refl
joined-split (c ∷ cs) requested h =
    ap (λ t. elements true [] (split_from slash [] (t ++ slash ∷ requested))) (render-spine c cs)
    ∙ ap (elements true []) (split_from-spine (c ∷ cs) [] requested (NoSlash-of_names (c ∷ cs) h))
    ∙ elements-append true [] (c ∷ cs) (split_from slash [] requested)
    ∙ ap (λ t. elements true t (split_from slash [] requested))
        (elements-names [] (c ∷ cs) h ∙ append-nil (reverse (c ∷ cs)))

-- The elements of the path that a relative request names, from those of the home directory.
abbrev pub target_elements : List Text → Text → List Text
target_elements hs requested = reverse (elements true (reverse hs) (split slash requested))

target_elements-IsName :
    (hs : List Text) (requested : Text) → All IsName hs → All IsName (target_elements hs requested)
unfolding split
target_elements-IsName hs requested h = All-reverse IsName _ (
    elements-IsName (reverse hs) (split slash requested) (All-reverse IsName hs h)
      (split_from-NoSlash requested [] tt))

clean-joined :
    (hs : List Text) (requested : Text)
    → All IsName hs
    → join_path (render hs) requested ≡ render (target_elements hs requested)
unfolding join_path clean render is_abs
clean-joined hs requested h = ap (λ t. render (reverse t)) (joined-split hs requested h)

pub target_path-render :
    (hs : List Text) (requested : Text)
    → All IsName hs
    → is_abs requested ≡ false
    → target_path (render hs) requested ≡ render (target_elements hs requested)
unfolding target_path
target_path-render hs requested h rel = rw rel (
    ap clean (clean-joined hs requested h)
    ∙ clean-render_names (target_elements hs requested) (target_elements-IsName hs requested h))

-- No element is `..`.
abbrev pub NoDotDot : List Text → Type 0
NoDotDot = All (λ c. c ≢ dot_dot)

elements_keep :
    (kept cs : List Text)
    → NoDotDot cs
    → (more : List Text) × (elements true kept cs ≡ more ++ kept)
unfolding elements element
elements_keep kept [] h = ([], refl)
elements_keep kept (c ∷ cs) h = elim (Bool-cases (is_empty c || text_eq c dot)) [
  | inl skip ↦ let (more, e) = elements_keep kept cs h.1 in (more, ground (arith, e))
  | inr name ↦
      let (more, e) = elements_keep (c ∷ kept) cs h.1 in
      (
        more ++ c ∷ [],
        ground (arith, e, text_eq_iff c dot_dot, h.0, append_assoc more (c ∷ []) kept),
      )
]

-- A relative request with no `..` element names a path under the home directory.
pub target_path-is_under_dir :
    (hs : List Text) (requested : Text)
    → All IsName hs
    → is_abs requested ≡ false
    → NoDotDot (split slash requested)
    → is_under_dir (render hs) (target_path (render hs) requested) ≡ true
target_path-is_under_dir hs requested h rel n =
    let (more, e) = elements_keep (reverse hs) (split slash requested) n in
    rw (target_path-render hs requested h rel) (
      (is_under_dir_iff hs (target_elements hs requested) h
          (target_elements-IsName hs requested h)).1
        (
          reverse more,
          ap reverse e
              ∙ reverse-append more (reverse hs)
              ∙ ap (λ t. t ++ reverse more) (reverse-reverse hs),
        ))

-- A relative request that names a path outside the home directory, as spelled and as resolved, is
-- refused with `ErrPathTraversal`, whatever the file system holds.
pub validate_path_refuses :
    (os : Host) (s : os.State) (home_dir : Text) (hs rs : List Text) (requested : Text)
    → resolve_home os s home_dir ≡ ok (render hs, render rs)
    → All IsName hs
    → All IsName rs
    → requested ≢ []
    → is_abs requested ≡ false
    → ¬ Extends hs (target_elements hs requested)
    → ¬ Extends rs (target_elements hs requested)
    → validate_path os s home_dir requested ≡ err path_traversal
unfolding validate_path check_target
validate_path_refuses os s home_dir hs rs [] v h k n rel out real_out = absurd (n refl)
validate_path_refuses os s home_dir hs rs (c ∷ p) v h k n rel out real_out =
    let ts = target_elements hs (c ∷ p) in
    let names : All IsName ts = target_elements-IsName hs (c ∷ p) h in
    rw (v, target_path-render hs (c ∷ p) h rel)
      (ground (
        arith,
        λ (e : is_under_dir (render hs) (render ts) ≡ true).
            out ((is_under_dir_iff hs ts h names).0 e),
        λ (e : is_under_dir (render rs) (render ts) ≡ true).
            real_out ((is_under_dir_iff rs ts k names).0 e),
      ))
