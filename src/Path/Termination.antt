-- ===== src/Path/Termination.antt =====
-- worker/path.go: the fuel of the loop of `validateNonExistentPath`.
use remote_hands.Shared.{
  ℕ, zero, suc, ◌<◌, ◌≤◌, ◌≡◌, ◌≢◌, refl, ap, ◌⊎◌, inl, inr, true, List, [], ◌∷◌, ◌++◌, arith, Text,
  length, length-append, All,
}
use remote_hands.Host.{Host}
use remote_hands.Path.Lexical.{dir, render, clean, is_abs}
use remote_hands.Path.Components.{IsName, spine, render-spine}
use remote_hands.Path.Cleaned.{dir-render, clean-render}
use remote_hands.Path.{Walk, out_of_fuel, probe, walk_up}

-- A list is empty or has a last element.
pub unsnoc {ℓ} :
    {A : Type ℓ} (xs : List A) → (xs ≡ []) ⊎ ((front : List A) × (x : A) × (xs ≡ front ++ x ∷ []))
unsnoc [] = inl refl
unsnoc (x ∷ xs) = elim (unsnoc xs) [
  | inl e ↦ inr ([], x, ap (λ t. x ∷ t) e)
  | inr (front, y, e) ↦ inr (x ∷ front, y, ap (λ t. x ∷ t) e)
]

pub All-front {ℓ κ} :
    {A : Type ℓ} (P : A → Type κ) (xs ys : List A) → All P (xs ++ ys) → All P xs × All P ys
All-front P [] ys h = (tt, h)
All-front P (x ∷ xs) ys h = let r = All-front P xs ys h.1 in ((h.0, r.0), r.1)

module _ (os : Host) (s : os.State) (real_home target : Text) where
  probe_ends :
      (parent : Text) (rest : Walk)
      → rest ≢ out_of_fuel
      → probe os s real_home target parent rest ≢ out_of_fuel
  unfolding probe
  probe_ends parent rest h = ground arith

  walk_up_root : (fuel : ℕ) → walk_up os s (suc fuel) real_home target (render []) ≢ out_of_fuel
  unfolding walk_up render
  walk_up_root fuel = ground arith

  -- A path of fewer elements than the fuel is walked to the end.
  walk_up_ends :
      (fuel : ℕ) (cs : List Text)
      → All IsName cs
      → length cs < fuel
      → walk_up os s fuel real_home target (render cs) ≢ out_of_fuel
  unfolding walk_up
  walk_up_ends zero cs h l = absurd (omega arith)
  walk_up_ends (suc fuel) cs h l = elim (unsnoc cs) [
    | inl e ↦ rw e (walk_up_root fuel)
    | inr (front, c, e) ↦
        let n = All-front IsName front (c ∷ []) (rw e at h) in
        let d : dir (render cs) ≡ render front = rw e (dir-render front c n.0 n.1.0) in
        let size : length front < fuel = omega (arith, ap length e, length-append front (c ∷ [])) in
        let ih : walk_up os s fuel real_home target (dir (render cs)) ≢ out_of_fuel =
          rw d (walk_up_ends fuel front n.0 size) in
        ground (
          arith,
          probe_ends (dir (render cs)) (walk_up os s fuel real_home target (dir (render cs))) ih,
        )
  ]

  length-spine : (cs : List Text) → length cs ≤ length (spine cs)
  length-spine [] = omega arith
  length-spine (c ∷ cs) = omega (arith, length-spine cs, length-append c (spine cs))

  length-render : (cs : List Text) → length cs ≤ length (render cs)
  length-render [] = omega arith
  length-render (c ∷ cs) = omega (arith, length-spine (c ∷ cs), ap length (render-spine c cs))

-- For every rooted target the fuel that validateNonExistentPath starts with is enough.
pub walk_up_terminates :
    (os : Host) (s : os.State) (real_home p : Text)
    → is_abs p ≡ true
    → walk_up os s (suc (length (clean p))) real_home (clean p) (clean p) ≢ out_of_fuel
walk_up_terminates os s real_home p h =
    let (cs, n, e) = clean-render p h in
    rw e (
      walk_up_ends os s real_home (render cs) (suc (length (render cs))) cs n
        (omega (arith, length-render os s real_home (render cs) cs)))
