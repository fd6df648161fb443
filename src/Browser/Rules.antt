-- ===== src/Browser/Rules.antt =====
-- What is true of the manager behind every request of the browser: a predicate that each change of
-- the manager keeps holds behind each request.
use remote_hands.Shared.{
  ◌≡◌, refl, inl, inr, Bool, true, false, List, Option, none, some, Text, if◌then◌else◌, Result, ok,
  err, Error, Option-cases, Result-cases, lookup, Text_eq,
}
use remote_hands.Action.{gets, Keeps}
use remote_hands.Rod.{Rod, AxNode}
use remote_hands.Browser.{
  BrowserManager, Session, Method, browse, observe, on_error, outcome, wrapped, when_running,
  mark_started, mark_stopped, tracked_page, track_page, untrack_page, current_page, get_page,
}
use remote_hands.Browser.Snapshot.{refer, count_snapshot}

module _ (rod : Rod) where
  -- `P` is kept by each change. The changes to pages and references come only while it runs.
  pub record Closed {ℓ} (P : BrowserManager rod.Page → Type ℓ) : Type ℓ where
    pub starts : (b : BrowserManager rod.Page) → b.running ≡ false → P b → P (mark_started rod b)
    pub stops : (b : BrowserManager rod.Page) → P b → P (mark_stopped rod b)
    pub tracks :
        (page : rod.Page) (b : BrowserManager rod.Page)
        → b.running ≡ true
        → P b
        → P (track_page rod page b)
    pub untracks :
        (id : Text) (b : BrowserManager rod.Page)
        → b.running ≡ true
        → P b
        → P (untrack_page rod id b)
    pub refers :
        (nodes : List AxNode) (b : BrowserManager rod.Page)
        → b.running ≡ true
        → P b
        → P (refer rod nodes b)
    pub counts : (b : BrowserManager rod.Page) → b.running ≡ true → P b → P (count_snapshot rod b)

  module _ {ℓ} {A : Type ℓ} (call : rod.World → Option A × rod.World) (e : Error)
      (s : Session rod) where
    pub browse-none :
        (call s.world).0 ≡ none
        → browse rod call e s ≡ (err e, record s { world = (call s.world).1 })
    unfolding browse
    browse-none o = rw (o, browse) refl

    pub browse-some :
        (a : A)
        → (call s.world).0 ≡ some a
        → browse rod call e s ≡ (ok a, record s { world = (call s.world).1 })
    unfolding browse
    browse-some a o = rw (o, browse) refl

  -- A predicate on the manager, of the session.
  abbrev pub OfManager {ℓ} : (BrowserManager rod.Page → Type ℓ) → Session rod → Type ℓ
  OfManager P s = P s.bm

  -- The same while the browser runs.
  abbrev pub Running {ℓ} : (BrowserManager rod.Page → Type ℓ) → Session rod → Type ℓ
  Running P s = (s.bm.running ≡ true) × P s.bm

  module _ {ℓ} (Q : Session rod → Type ℓ) where
    -- A predicate that does not look at the browser.
    pub record Blind : Type ℓ where
      pub moves : (s : Session rod) (w : rod.World) → Q s → Q (record s { world = w })

    module _ (blind : Blind) where
      pub browse-Keeps {κ} :
          {A : Type κ} (call : rod.World → Option A × rod.World) (e : Error)
          → Keeps Q (browse rod call e)
      unfolding browse
      browse-Keeps call e = record {
        keeps = λ s q. elim (Option-cases (call s.world).0) [
          | inl o ↦ rw (o, browse) (Blind.moves blind s (call s.world).1 q)
          | inr (a, o) ↦ rw (o, browse) (Blind.moves blind s (call s.world).1 q)
        ];
      }

      pub observe-Keeps {κ} :
          {A : Type κ} (call : rod.World → A × rod.World) → Keeps Q (observe rod call)
      unfolding observe
      observe-Keeps call = record { keeps = λ s q. Blind.moves blind s (call s.world).1 q }

      pub gets-Keeps {κ} : {A : Type κ} (f : Session rod → A) → Keeps Q (gets f)
      gets-Keeps f = record { keeps = λ s q. q }

      pub tracked_page-Keeps : (id : Text) → Keeps Q (tracked_page rod id)
      unfolding tracked_page
      tracked_page-Keeps id = record {
        keeps = λ s q. elim (Option-cases (lookup id s.bm.pages)) [
          | inl o ↦ rw (o, tracked_page) q
          | inr (page, o) ↦ rw (o, tracked_page) q
        ];
      }

      pub current_page-Keeps : (page_id : Option Text) → Keeps Q (current_page rod page_id)
      unfolding current_page
      current_page-Keeps page_id = record {
        keeps = λ s q. elim (Result-cases (get_page s.bm.pages s.bm.last_page_id page_id)) [
          | inl (a, o) ↦ rw (o, current_page) q
          | inr (e, o) ↦ rw (o, current_page) q
        ];
      }

      pub on_error-Keeps {κ} :
          {A : Type κ} {m : Method rod A} {cleanup : Method rod (Unit {0})}
          → Keeps Q m
          → Keeps Q cleanup
          → Keeps Q (on_error rod m cleanup)
      unfolding on_error
      on_error-Keeps {m} {cleanup} hm hc = record {
        keeps = λ s q. elim (Result-cases (m s).0) [
          | inl (a, o) ↦ rw (o, on_error) (Keeps.keeps hm s q)
          | inr (e, o) ↦ rw (o, on_error) (Keeps.keeps hc (m s).1 (Keeps.keeps hm s q))
        ];
      }

      pub outcome-Keeps {κ} : {A : Type κ} {m : Method rod A} → Keeps Q m → Keeps Q (outcome rod m)
      unfolding outcome
      outcome-Keeps hm = record { keeps = λ s q. Keeps.keeps hm s q }

      pub wrapped-Keeps {κ} :
          {A : Type κ} {m : Method rod A} (e : Error) → Keeps Q m → Keeps Q (wrapped rod m e)
      unfolding wrapped
      wrapped-Keeps {m} e hm = record {
        keeps = λ s q. elim (Result-cases (m s).0) [
          | inl (a, o) ↦ rw (o, wrapped) (Keeps.keeps hm s q)
          | inr (_, o) ↦ rw (o, wrapped) (Keeps.keeps hm s q)
        ];
      }

      pub option-Keeps {κ μ} :
          {A : Type κ} {B : Type μ} (o : Option A) {m : Method rod B} {f : A → Method rod B}
          → Keeps Q m
          → ((a : A) → Keeps Q (f a))
          → Keeps Q (elim o as (λ _. Method rod B) [ none ↦ m | some a ↦ f a ])
      option-Keeps none hm hf = hm
      option-Keeps (some a) hm hf = hf a

  -- What a test chooses.
  pub if_behind {ℓ κ} :
      {A : Type κ} (Q : Session rod → Type ℓ) (b : Bool) (x y : Result Error A × Session rod)
      → (b ≡ true → Q x.1)
      → (b ≡ false → Q y.1)
      → Q (if b then x else y).1
  if_behind Q true x y hx hy = hx refl
  if_behind Q false x y hx hy = hy refl

  module _ {ℓ} (P : BrowserManager rod.Page → Type ℓ) where
    pub Running-Blind : Blind (Running P)
    Running-Blind = record { moves = λ s w q. q }

    pub OfManager-Blind : Blind (OfManager P)
    OfManager-Blind = record { moves = λ s w q. q }

    -- The guard of a method gives that the browser runs.
    pub when_running-Keeps {κ} :
        {A : Type κ} {m : Method rod A}
        → Keeps (Running P) m
        → Keeps (OfManager P) (when_running rod m)
    unfolding when_running
    when_running-Keeps {m} hm = record {
      keeps = λ s p.
          if_behind (OfManager P) s.bm.running (m s) _ (λ h. (Keeps.keeps hm s (h, p)).1) (λ h. p);
    }

    -- A guard inside another.
    pub when_running_again-Keeps {κ} :
        {A : Type κ} {m : Method rod A}
        → Keeps (Running P) m
        → Keeps (Running P) (when_running rod m)
    unfolding when_running
    when_running_again-Keeps {m} hm = record {
      keeps = λ s p. if_behind (Running P) s.bm.running (m s) _ (λ h. Keeps.keeps hm s p) (λ h. p);
    }
