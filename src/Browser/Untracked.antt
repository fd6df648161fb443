-- ===== src/Browser/Untracked.antt =====
-- worker/browser.go: what `ClosePage` leaves, when it succeeds and when it fails.
use remote_hands.Shared.{
  ◌≡◌, ◌≢◌, ◌⊎◌, refl, sym, ap, ◌∙◌, inl, inr, Bool, true, false, [], ◌∷◌, some, Text, Text_eq,
  text_eq_iff, lookup, erase, Map, Result, ok, err, Error, plain, Option-cases, if◌then◌else◌,
  arith,
}
use mathlib.Core.Path.{subst}
use remote_hands.Action.{bind-ok, bind-err, ◌>>=◌, ◌>>◌}
use remote_hands.Rod.{Rod}
use remote_hands.Browser.{
  not_started, no_such_page, change, Session, some_page_id, tracked_page, browse, untrack_page,
  close_page, when_running,
}
use remote_hands.Browser.Rules.{browse-none, browse-some}

-- The page that becomes current is one of those that are left, if there is one.
some_page_id_lem :
    {A : Type 0} (m : Map Text A)
    → ((some_page_id m ≡ []) × (m ≡ [])) ⊎ ((a : A) × (lookup (some_page_id m) m ≡ some a))
unfolding lookup
some_page_id_lem [] = inl (refl, refl)
some_page_id_lem ((key, a) ∷ m) = inr (a, ground (arith, text_eq_iff key key))

-- What a test chooses.
if_with {ℓ κ} :
    {A : Type ℓ} (Q : A → Type κ) (b : Bool) (x y : A)
    → (b ≡ true → Q x)
    → (b ≡ false → Q y)
    → Q (if b then x else y)
if_with Q true x y hx hy = hx refl
if_with Q false x y hx hy = hy refl

module _ (rod : Rod) where
  -- A page is closed: its ID is no longer tracked, the current page stays unless it is this one, and
  -- then a page that is left becomes current, if there is one.
  pub record Untracked (id : Text) (s s1 : Session rod) : Type 0 where
    pub page : rod.Page
    pub tracked : lookup id s.bm.pages ≡ some page
    pub pages : s1.bm.pages ≡ erase id s.bm.pages
    pub runs : s1.bm.running ≡ s.bm.running
    pub refs : s1.bm.ref_map ≡ s.bm.ref_map
    pub other_stays : s.bm.last_page_id ≢ id → s1.bm.last_page_id ≡ s.bm.last_page_id
    pub another :
        s.bm.last_page_id ≡ id
        → ((s1.bm.last_page_id ≡ []) × (s1.bm.pages ≡ []))
          ⊎ ((left : rod.Page) × (lookup s1.bm.last_page_id s1.bm.pages ≡ some left))

  untrack_page-Untracked :
      (id : Text) (page : rod.Page) (s s1 : Session rod)
      → lookup id s.bm.pages ≡ some page
      → s1.bm ≡ untrack_page rod id s.bm
      → Untracked id s s1
  unfolding untrack_page
  untrack_page-Untracked id page s s1 l e = record {
    page = page;
    tracked = l;
    pages = ap (λ b. b.pages) e;
    runs = ap (λ b. b.running) e;
    refs = ap (λ b. b.ref_map) e;
    other_stays =
        λ n. ap (λ b. b.last_page_id) e ∙ ground (arith, text_eq_iff s.bm.last_page_id id, n);
    another = λ same.
        let current : s1.bm.last_page_id ≡ some_page_id (erase id s.bm.pages) =
          ap (λ b. b.last_page_id) e ∙ ground (arith, text_eq_iff s.bm.last_page_id id, same) in
        let rest : s1.bm.pages ≡ erase id s.bm.pages = ap (λ b. b.pages) e in
        elim (some_page_id_lem (erase id s.bm.pages)) [
          | inl (none_named, none_left) ↦ inl (current ∙ none_named, rest ∙ none_left)
          | inr (left, found) ↦ inr (left, (λ i. lookup (current i) (rest i)) ∙ found)
        ];
  }

  abbrev pub ClosedOr : Text → Session rod → Result Error (Unit {0}) × Session rod → Type 0
  ClosedOr id s end =
      ((s.bm.running ≡ true) × (end.0 ≡ ok tt) × Untracked id s end.1)
      ⊎ ((e : Error) × (end.0 ≡ err e) × (end.1.bm ≡ s.bm))

  -- The part behind the guard.
  close_tracked :
      (id : Text) (page : rod.Page) (s : Session rod)
      → s.bm.running ≡ true
      → lookup id s.bm.pages ≡ some page
      → ClosedOr id s (
          (browse rod (rod.close_page page) (plain "close page: %w")
              >> change rod (untrack_page rod id))
            s)
  close_tracked id page s h l =
      let call = rod.close_page page in
      elim (Option-cases (call s.world).0) [
        | inl o ↦
            subst (ClosedOr id s)
              (sym (bind-err _ _ s (browse-none rod call (plain "close page: %w") s o)))
              (inr (plain "close page: %w", refl, refl))
        | inr (u, o) ↦
            let behind : Session rod = record s { world = (call s.world).1 } in
            subst (ClosedOr id s)
              (sym (bind-ok _ _ s (browse-some rod call (plain "close page: %w") s u o)))
              (inl (
                h,
                refl,
                untrack_page-Untracked id page s (record behind { bm = untrack_page rod id s.bm }) l
                    refl,
              ))
      ]

  close_running :
      (id : Text) (s : Session rod)
      → s.bm.running ≡ true
      → ClosedOr id s (
          (tracked_page rod id >>= λ page.
          browse rod (rod.close_page page) (plain "close page: %w")
          >> change rod (untrack_page rod id))
            s)
  unfolding tracked_page
  close_running id s h = elim (Option-cases (lookup id s.bm.pages)) [
    | inl o ↦
        let missing : tracked_page rod id s ≡ (err no_such_page, s) = rw (tracked_page, o) refl in
        subst (ClosedOr id s) (sym (bind-err _ _ s missing)) (inr (no_such_page, refl, refl))
    | inr (page, o) ↦
        let found : tracked_page rod id s ≡ (ok page, s) = rw (tracked_page, o) refl in
        subst (ClosedOr id s) (sym (bind-ok _ _ s found)) (close_tracked id page s h o)
  ]

  -- A `ClosePage` that succeeds closes the page that was tracked under the ID; one that fails leaves
  -- the manager as it was.
  pub close_page_lem : (id : Text) (s : Session rod) → ClosedOr id s (close_page rod id s)
  unfolding close_page when_running
  close_page_lem id s =
      if_with (ClosedOr id s) s.bm.running _ _ (λ h. close_running id s h)
        (λ h. inr (not_started, refl, refl))
