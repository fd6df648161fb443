-- ===== src/Browser/Polling.antt =====
-- worker/browser.go: `pollUntil` ends.
use remote_hands.Shared.{
  ℕ, zero, suc, ◌+◌, ◌≤◌, ◌<◌, ◌≡◌, refl, ◌⊎◌, inl, inr, some, ltb, ltb→lt, Result, ok, err, Error,
  plain, Result-cases, Option-cases, Bool-cases, arith,
}
use remote_hands.Action.{◌>>=◌, ◌>>◌, bind-ok, bind-err}
use remote_hands.Rod.{Rod}
use remote_hands.Browser.{Session, Method, outcome, observe, browse}
use remote_hands.Browser.Rules.{browse-none, browse-some}
use remote_hands.Browser.Waiting.{next_round, after_test, poll_rounds, poll_until}

module _ (rod : Rod) where
  -- A clock of the browser's machine in milliseconds: `now` reads it, nothing turns it back, and a
  -- wait that is not cut short takes its time.
  pub record Clock (clock : rod.World → ℕ) : Type 0 where
    pub reads : (w : rod.World) → (rod.now w).0 ≡ clock w
    pub runs : (w : rod.World) → clock w ≤ clock (rod.now w).1
    pub waits :
        (n : ℕ) (w : rod.World)
        → (rod.sleep n w).0 ≡ some tt
        → clock w + n ≤ clock (rod.sleep n w).1

  abbrev pub timed_out : Error
  timed_out = plain "timed out after %v"

  abbrev pub cancelled : Error
  cancelled = plain "context canceled"

  module _ (clock : rod.World → ℕ) (real : Clock clock) (interval : ℕ)
      (test : Method rod (Unit {0})) (slow : 0 < interval)
      (onward : (s : Session rod) → clock s.world ≤ clock (test s).1.world) where
    -- How the loop may end: by its test, after the deadline, or by a cancelled request.
    abbrev pub Ended : ℕ → Result Error (Unit {0}) × Session rod → Type 0
    Ended deadline end =
        (end.0 ≡ ok tt)
        ⊎ ((end.0 ≡ err timed_out) × (deadline < clock end.1.world))
        ⊎ (end.0 ≡ err cancelled)

    -- Enough rounds are left for the time that is left.
    abbrev Enough : ℕ → ℕ → rod.World → Type 0
    Enough rounds deadline w = (0 < rounds) × (deadline + 1 < clock w + rounds)

    slept-Ended :
        (deadline : ℕ) (again : Method rod (Unit {0})) (s : Session rod)
        → ((s1 : Session rod)
            → clock s.world + interval ≤ clock s1.world
            → Ended deadline (again s1))
        → Ended deadline ((browse rod (rod.sleep interval) cancelled >> again) s)
    slept-Ended deadline again s go = elim (Option-cases (rod.sleep interval s.world).0) [
      | inl o ↦
          rw (bind-err _ (λ _. again) s (browse-none rod (rod.sleep interval) cancelled s o))
            (inr (inr refl))
      | inr (u, o) ↦
          rw (bind-ok _ (λ _. again) s (browse-some rod (rod.sleep interval) cancelled s u o))
            (go _ (real.waits interval s.world o))
    ]

    next_round-Ended :
        (deadline : ℕ) (again : Method rod (Unit {0})) (s : Session rod)
        → ((s1 : Session rod)
            → clock s.world ≤ deadline
            → clock s.world + interval ≤ clock s1.world
            → Ended deadline (again s1))
        → Ended deadline (next_round rod deadline interval again s)
    unfolding next_round observe ◌>>=◌
    next_round-Ended deadline again s go =
        let s1 : Session rod = record s { world = (rod.now s.world).1 } in
        elim (Bool-cases (ltb deadline (rod.now s.world).0)) [
          | inl late ↦ rw late (
              inr (
                inl (
                  refl,
                  omega (
                    arith,
                    ltb→lt deadline (rod.now s.world).0 late,
                    real.reads s.world,
                    real.runs s.world,
                  ),
                )))
          | inr early ↦ rw early (
              slept-Ended deadline again s1 (λ s2 m.
                go s2 (ground (arith, early, real.reads s.world))
                  (omega (arith, m, real.runs s.world))))
        ]

    poll_rounds-Ended :
        (rounds deadline : ℕ) (s : Session rod)
        → Enough rounds deadline s.world
        → Ended deadline (poll_rounds rod rounds deadline interval test s)
    unfolding poll_rounds ◌>>=◌ outcome after_test
    poll_rounds-Ended zero deadline s h = absurd (omega arith)
    poll_rounds-Ended (suc rounds) deadline s h = elim (Result-cases (test s).0) [
      | inl (u, r) ↦ rw r (inl refl)
      | inr (e, r) ↦ rw r (
          next_round-Ended deadline (poll_rounds rod rounds deadline interval test) (test s).1
            (λ s2 on_time later.
              poll_rounds-Ended rounds deadline s2
                (omega (arith, onward s, on_time, later), omega (arith, onward s, on_time, later))))
    ]

    -- With a clock that runs, an interval that is not zero and a test that does not turn the clock
    -- back, `pollUntil` ends: with success when a test succeeds, with a time-out once its deadline has
    -- passed, or cancelled. It never runs out of rounds.
    pub poll_until-Ended :
        (timeout : ℕ) (s : Session rod)
        → Ended (clock s.world + timeout) (poll_until rod timeout interval test s)
    unfolding poll_until ◌>>=◌ observe
    poll_until-Ended timeout s = rw (← real.reads s.world) (
        poll_rounds-Ended (suc (suc timeout)) ((rod.now s.world).0 + timeout) _
          (omega arith, omega (arith, real.reads s.world, real.runs s.world)))
