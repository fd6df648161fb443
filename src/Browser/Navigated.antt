-- ===== src/Browser/Navigated.antt =====
-- worker/browser.go: what a navigation leaves, and the requests that leave the manager alone.
use remote_hands.Shared.{
  ◌≡◌, ◌≢◌, refl, sym, ap, ◌∙◌, inl, inr, Bool, true, false, [], ◌∷◌, Option, some, Text, Text_eq,
  lookup, insert, is_empty, Result, ok, err, Error, plain, Option-cases, if◌then◌else◌,
}
use remote_hands.Action.{Keeps, bind-eq-ok}
use remote_hands.Rod.{Rod}
use remote_hands.Browser.{
  BrowserManager, Session, Method, named, browse, tracked_page, open_target, open_tracked,
  track_page, page_result, navigate, PageResult, when_running,
}
use remote_hands.Browser.Rules.{Blind, browse-Keeps, tracked_page-Keeps}
use remote_hands.Browser.Untouched.{blind_rules, page_result-Keeps}

-- A text that is not empty passes the test.
if_named {ℓ} : {A : Type ℓ} (x y : A) (t : Text) → t ≢ [] → (if is_empty t then x else y) ≡ y
if_named x y [] h = absurd (h refl)
if_named x y (c ∷ t) h = refl

-- A guard that lets a success through.
if-eq-ok {ℓ κ} :
    {S : Type ℓ} {A : Type κ} (b : Bool) (x : Result Error A × S) (e : Error) (s s1 : S) (a : A)
    → (if b then x else (err e, s)) ≡ (ok a, s1)
    → (b ≡ true) × (x ≡ (ok a, s1))
if-eq-ok true x e s s1 a h = (refl, h)
if-eq-ok false x e s s1 a h = cc

module _ (rod : Rod) where
  abbrev At : BrowserManager rod.Page → Session rod → Type 0
  At b s = s.bm ≡ b

  at : (b : BrowserManager rod.Page) → Blind rod (At b)
  at b = record { moves = λ s w q. q }

  open_target-At :
      (b : BrowserManager rod.Page) (url : Text) (page_id : Option Text)
      → Keeps (At b) (open_target rod url page_id)
  unfolding open_target open_tracked
  open_target-At b url page_id = search (blind_rules, at b, tracked_page-Keeps)

  -- What an operation that keeps the manager leaves.
  behind-At {ℓ} :
      {A : Type ℓ} (m : Method rod A) (s s1 : Session rod) (a : A)
      → ((b : BrowserManager rod.Page) → Keeps (At b) m)
      → m s ≡ (ok a, s1)
      → s1.bm ≡ s.bm
  behind-At m s s1 a still e = ap (λ p. p.1.bm) (sym e) ∙ Keeps.keeps (still s.bm) s refl

  tracked_page-eq :
      (id : Text) (page : rod.Page) (s s1 : Session rod)
      → tracked_page rod id s ≡ (ok page, s1)
      → lookup id s.bm.pages ≡ some page
  unfolding tracked_page
  tracked_page-eq id page s s1 e = elim (Option-cases (lookup id s.bm.pages)) [
    | inl o ↦ cc (rw (o, tracked_page) at e)
    | inr (found, o) ↦ o ∙ ap some (cc (rw (o, tracked_page) at e))
  ]

  open_tracked-eq :
      (url id : Text) (page : rod.Page) (s s1 : Session rod)
      → open_tracked rod url id s ≡ (ok page, s1)
      → lookup id s.bm.pages ≡ some page
  unfolding open_tracked
  open_tracked-eq url id page s s1 e =
      let (found, s2, got, more) = bind-eq-ok _ _ s e in
      let (u, s3, went, same) = bind-eq-ok _ _ s2 more in
      tracked_page-eq id found s s2 got ∙ ap some (cc same)

  open_target-eq :
      (url : Text) (page_id : Option Text) (page : rod.Page) (s s1 : Session rod)
      → named page_id ≢ []
      → open_target rod url page_id s ≡ (ok page, s1)
      → lookup (named page_id) s.bm.pages ≡ some page
  unfolding open_target
  open_target-eq url page_id page s s1 h e =
      open_tracked-eq url (named page_id) page s s1
        (ap (λ (m : Method rod rod.Page). m s) (sym (if_named _ _ (named page_id) h)) ∙ e)

  page_result-eq :
      (id : Text) (page : rod.Page) (x : Error) (s s1 : Session rod) (r : PageResult)
      → page_result rod id page x s ≡ (ok r, s1)
      → r.page_id ≡ id
  unfolding page_result
  page_result-eq id page x s s1 r e =
      let (info, s2, got, same) = bind-eq-ok _ _ s e in
      let told : record { page_id = id; url = info.0; title = info.1 } ≡ r = cc same in
      ap (λ (p : PageResult). p.page_id) (sym told)

  -- What a navigation leaves.
  abbrev pub Navigated : Option Text → Session rod → PageResult → Session rod → Type 0
  Navigated page_id s r s1 =
      (page : rod.Page) × (r.page_id ≡ rod.target_id page)
      × (s1.bm ≡ record s.bm {
        pages = insert (rod.target_id page) page s.bm.pages;
        last_page_id = rod.target_id page;
        ref_map = [];
      })
      × (named page_id ≢ [] → lookup (named page_id) s.bm.pages ≡ some page)

  -- A navigation that succeeds had the browser running, and answers with the ID of its page; all that
  -- it changes in the manager is that this page is tracked and current and that no references are
  -- left. If it was given an ID, its page is the one that was tracked under it.
  pub navigate-Navigated :
      (url : Text) (page_id : Option Text) (s s1 : Session rod) (r : PageResult)
      → navigate rod url page_id s ≡ (ok r, s1)
      → (s.bm.running ≡ true) × Navigated page_id s r s1
  unfolding navigate when_running track_page
  navigate-Navigated url page_id s s1 r e =
      let (running, visit) = if-eq-ok s.bm.running _ _ s s1 r e in
      let (page, s2, opened, more) = bind-eq-ok _ _ s visit in
      let (u, s3, loaded, more3) = bind-eq-ok _ _ s2 more in
      let (v, s4, changed, told) = bind-eq-ok _ _ s3 more3 in
      let kept2 : s2.bm ≡ s.bm = behind-At _ s s2 page (λ b. open_target-At b url page_id) opened in
      let kept3 : s3.bm ≡ s2.bm =
        behind-At (browse rod (rod.wait_load page) (plain "wait for page load: %w")) s2 s3 u
          (λ b. browse-Keeps rod (At b) (at b) _ _) loaded in
      let kept1 : s1.bm ≡ s4.bm =
        behind-At (page_result rod (rod.target_id page) page (plain "get page info: %w")) s4 s1 r
          (λ b. page_result-Keeps rod (At b) (at b) (rod.target_id page) page _) told in
      (
        running,
        (
          page,
          page_result-eq (rod.target_id page) page (plain "get page info: %w") s4 s1 r told,
          kept1 ∙ sym (ap (λ p. p.1.bm) changed) ∙ ap (track_page rod page) (kept3 ∙ kept2),
          λ h. open_target-eq url page_id page s s2 h opened,
        ),
      )
