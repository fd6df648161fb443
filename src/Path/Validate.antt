-- ===== src/Path/Validate.antt =====
-- worker/path.go: what `ValidatePath` has checked of a path that it accepts.
use remote_hands.Shared.{
  ℕ, zero, suc, ◌≡◌, refl, ◌⊎◌, inl, inr, true, [], ◌∷◌, arith, Text, text_eq_iff, length,
  if◌then◌else◌, ok, err, OsError, not_exist, is_empty, Result-cases,
}
use remote_hands.Host.{Host}
use remote_hands.Path.Lexical.{dir}
use remote_hands.Path.{
  is_under_dir, Walk, returned, left_loop, out_of_fuel, probe, walk_up, after_walk,
  validate_non_existent_path, resolve_home, check_target, target_path, validate_path,
}

-- The directories over a path: itself, its `Dir`, and so on.
pub data Above (p : Text) : Text → Type 0 where
  self : Above p p
  up : {q : Text} → Above p q → Above p (dir q)

module _ (os : Host) (s : os.State) (real_home : Text) where
  -- The path lies under the real home directory, or it does not exist and the real path of a
  -- directory above it lies there.
  pub data Contained (p : Text) : Type 0 where
    inside : is_under_dir real_home p ≡ true → Contained p
    created :
        {q : Text} (r : Text)
        → os.eval_symlinks s p ≡ err not_exist
        → Above p q
        → os.eval_symlinks s q ≡ ok r
        → is_under_dir real_home r ≡ true
        → Contained p

  probe_ok :
      (target parent : Text) (rest : Walk) {r : Text}
      → probe os s real_home target parent rest ≡ returned (ok r)
      → (rest ≡ returned (ok r))
        ⊎ ((real_parent : Text) × (os.eval_symlinks s parent ≡ ok real_parent)
            × (is_under_dir real_home real_parent ≡ true)
            × (r ≡ target))
  unfolding probe
  probe_ok target parent rest e = elim (Result-cases (os.lstat s parent)) [
    | inr (not_exist, l) ↦ inl (ground arith)
    | inr (OsError.permission, l) ↦ absurd (ground arith)
    | inr (OsError.other, l) ↦ absurd (ground arith)
    | inl (i, l) ↦ elim (Result-cases (os.eval_symlinks s parent)) [
      | inr (f, v) ↦ absurd (ground arith)
      | inl (real_parent, v) ↦ inr (real_parent, v, ground arith, ground arith)
    ]
  ]

  walk_up_ok :
      (fuel : ℕ) (target current : Text) {r : Text}
      → os.eval_symlinks s target ≡ err not_exist
      → Above target current
      → walk_up os s fuel real_home target current ≡ returned (ok r)
      → (r ≡ target) × Contained target
  unfolding walk_up
  walk_up_ok zero target current n a e = absurd (cc)
  walk_up_ok (suc fuel) target current {r} n a e =
      elim (probe_ok target (dir current) (walk_up os s fuel real_home target (dir current)) {r = r}
        (ground arith)) [
          | inl e' ↦ walk_up_ok fuel target (dir current) n (up a) e'
          | inr (real_parent, v, u, same) ↦ (same, created real_parent n (up a) v u)
        ]

  after_walk_ok :
      (target : Text) (w : Walk) {r : Text}
      → os.eval_symlinks s target ≡ err not_exist
      → ((r : Text) → w ≡ returned (ok r) → (r ≡ target) × Contained target)
      → after_walk os s real_home target w ≡ ok r
      → (r ≡ target) × Contained target
  unfolding after_walk
  after_walk_ok target (returned (ok q)) {r} n h e =
      let (same, c) = h q refl in (ground (arith, same), c)
  after_walk_ok target (returned (err x)) n h e = absurd (cc)
  after_walk_ok target left_loop n h e = (ground arith, inside (ground arith))
  after_walk_ok target out_of_fuel n h e = (ground arith, inside (ground arith))

  check_target_ok :
      (home target : Text) {r : Text} → check_target os s home real_home target ≡ ok r → Contained r
  unfolding check_target validate_non_existent_path
  check_target_ok home target {r} e = elim (Result-cases (os.eval_symlinks s target)) [
    | inl (real_path, v) ↦ inside (ground arith)
    | inr (not_exist, v) ↦
        let (same, c) =
          after_walk_ok target _ {r = r} v
            (λ q. walk_up_ok (suc (length target)) target target {r = q} v self) (ground arith) in
        rw same c
    | inr (OsError.permission, v) ↦ absurd (ground arith)
    | inr (OsError.other, v) ↦ absurd (ground arith)
  ]

  pub is_under_dir_refl : (p : Text) → is_under_dir p p ≡ true
  unfolding is_under_dir
  is_under_dir_refl p = ground (arith, text_eq_iff p p)

  resolved_ok :
      (home requested : Text) {r : Text}
      → (if is_empty requested
          then ok real_home
          else check_target os s home real_home (target_path home requested))
        ≡ ok r
      → Contained r
  resolved_ok home [] {r} e =
      inside (let same : real_home ≡ r = ground arith in rw (← same) (is_under_dir_refl real_home))
  resolved_ok home (c ∷ p) e = check_target_ok home (target_path home (c ∷ p)) e

-- Whatever `ValidatePath` accepts is contained in the real home directory that it resolved.
pub validate_path-Contained :
    (os : Host) (s : os.State) (home_dir requested r : Text)
    → validate_path os s home_dir requested ≡ ok r
    → (home : Text) × (real_home : Text) × (resolve_home os s home_dir ≡ ok (home, real_home))
      × Contained os s real_home r
unfolding validate_path
validate_path-Contained os s home_dir requested r e =
    elim (Result-cases (resolve_home os s home_dir)) [
      | inr (x, v) ↦ absurd (ground arith)
      | inl ((home, real_home), v) ↦
          (home, real_home, v, resolved_ok os s real_home home requested (rw v at e))
    ]
