-- ===== src/Browser/Acted.antt =====
-- worker/browser.go: what `Act` does with a list of actions.
use remote_hands.Shared.{
  ℕ, zero, suc, ◌≡◌, refl, ap, inl, inr, true, false, List, [], ◌∷◌, Option, none, some, Text,
  length, replicate, ok, err, Error, Result-cases,
}
use remote_hands.Action.{◌>>=◌, Keeps}
use remote_hands.Rod.{Rod}
use remote_hands.Browser.{Session, outcome}
use remote_hands.Browser.Untouched.Actions.{act_all-Keeps}
use remote_hands.Browser.Acting.{
  BrowserAction, ActionResult, action_result, skipped_result, execute_action, results_from, act_all,
}

module _ (rod : Rod) (page : rod.Page) where
  -- Actions from one session to another with their results: they run in order until one fails.
  pub data Acted
      : List (BrowserAction rod) → Session rod → List ActionResult → Session rod → Type 1 where
    finished : (s : Session rod) → Acted [] s [] s
    succeeded :
        (a : BrowserAction rod) (rest : List (BrowserAction rod)) (s s1 s2 : Session rod)
        (v : Option Text) (results : List ActionResult)
        → execute_action rod a.action_type page a s ≡ (ok v, s1)
        → Acted rest s1 results s2
        → Acted (a ∷ rest) s (record { success = true; value = v; error = none } ∷ results) s2
    failed :
        (a : BrowserAction rod) (rest : List (BrowserAction rod)) (s s1 : Session rod) (e : Error)
        → execute_action rod a.action_type page a s ≡ (err e, s1)
        → Acted
            (a ∷ rest)
            s
            (record { success = false; value = none; error = some e }
              ∷ replicate (length rest) skipped_result)
            s1

  -- The answer of `Act` is a list of results, with the session behind the actions that ran.
  abbrev pub Answered : List (BrowserAction rod) → Session rod → Type 1
  Answered actions s =
      (results : List ActionResult) × (s1 : Session rod) × (act_all rod page actions s
        ≡ (ok results, s1))
      × Acted actions s results s1
      × (length results ≡ length actions)

  length-replicate : (n : ℕ) (r : ActionResult) → length (replicate n r) ≡ n
  length-replicate zero r = refl
  length-replicate (suc n) r = ap suc (length-replicate n r)

  act_all-ok :
      (a : BrowserAction rod) (rest : List (BrowserAction rod)) (s s1 s2 : Session rod)
      (v : Option Text) (results : List ActionResult)
      → execute_action rod a.action_type page a s ≡ (ok v, s1)
      → act_all rod page rest s1 ≡ (ok results, s2)
      → act_all rod page (a ∷ rest) s ≡ (ok (action_result (ok v) ∷ results), s2)
  unfolding act_all ◌>>=◌ outcome results_from
  act_all-ok a rest s s1 s2 v results e f =
      rw e (rw (f, results_from, ◌>>=◌) (ap (λ x. (ok (action_result (ok v) ∷ results), x.1)) f))

  act_all-err :
      (a : BrowserAction rod) (rest : List (BrowserAction rod)) (s s1 : Session rod) (e : Error)
      → execute_action rod a.action_type page a s ≡ (err e, s1)
      → act_all rod page (a ∷ rest) s
        ≡ (ok (action_result (err e) ∷ replicate (length rest) skipped_result), s1)
  unfolding act_all ◌>>=◌ outcome results_from
  act_all-err a rest s s1 e h = rw h refl

  -- `Act` on a page always answers with one result for each action. The actions run in order, each from
  -- the session behind the one before it, until one fails; the rest are skipped, and have no effect.
  pub act_all-Acted : (actions : List (BrowserAction rod)) (s : Session rod) → Answered actions s
  act_all-Acted [] s = ([], s, unfold act_all in refl, finished s, refl)
  act_all-Acted (a ∷ rest) s = elim (Result-cases (execute_action rod a.action_type page a s).0) [
    | inl (v, r) ↦
        let s1 : Session rod = (execute_action rod a.action_type page a s).1 in
        let ran : execute_action rod a.action_type page a s ≡ (ok v, s1) = ap (λ x. (x, s1)) r in
        let (results, s2, e, acted, n) = act_all-Acted rest s1 in
        (
          _,
          s2,
          act_all-ok a rest s s1 s2 v results ran e,
          succeeded a rest s s1 s2 v results ran acted,
          ap suc n,
        )
    | inr (x, r) ↦
        let s1 : Session rod = (execute_action rod a.action_type page a s).1 in
        let ran : execute_action rod a.action_type page a s ≡ (err x, s1) = ap (λ y. (y, s1)) r in
        (
          _,
          s1,
          act_all-err a rest s s1 x ran,
          failed a rest s s1 x ran,
          ap suc (length-replicate (length rest) skipped_result),
        )
  ]

  -- Whatever the actions are, the manager is as it was.
  pub act_all-bm :
      (actions : List (BrowserAction rod)) (s : Session rod)
      → (act_all rod page actions s).1.bm ≡ s.bm
  act_all-bm actions s =
      Keeps.keeps
        (act_all-Keeps rod (λ s1. s1.bm ≡ s.bm) (record { moves = λ s1 w e. e }) page actions) s
        refl
