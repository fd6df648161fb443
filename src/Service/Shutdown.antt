-- ===== src/Service/Shutdown.antt =====
-- worker/service.go: `Close`.
use remote_hands.Shared.{ℕ, ◌≡◌, ◌⊎◌, refl, false, ok, plain, Option-cases, inl, inr}
use remote_hands.Process.Start.{Signal, sigterm, sigkill}
use remote_hands.Process.Stop.{StopAnswers}
use remote_hands.Process.Stop.Signals.{In, Running, stop_all_lem}
use remote_hands.Action.{◌>>=◌, ◌>>◌}
use remote_hands.Rod.{Rod}
use remote_hands.Browser.{
  Session, stop_browser, shut_down, reset_browser, mark_stopped, observe, on_error, browse,
  close_pages,
}
use remote_hands.Browser.Rules.{if_behind}
use remote_hands.Service.{Environment, Service}
use remote_hands.Service.Handlers.{close}

-- However the closing of the browser ends, no browser runs.
closing-stopped :
    (rod : Rod) (s : Session rod)
    → ((on_error rod (browse rod rod.close_browser (plain "close browser: %w")) (reset_browser rod)
          >> reset_browser rod)
        s).1.bm.running
      ≡ false
unfolding reset_browser mark_stopped on_error browse observe ◌>>=◌
closing-stopped rod s = elim (Option-cases (rod.close_browser s.world).0) [
  | inl e ↦ rw (◌>>=◌, on_error, browse, e) (rw (on_error, browse, e) refl)
  | inr (u, e) ↦ rw (◌>>=◌, on_error, browse, e) refl
]

stop_browser-stopped : (rod : Rod) (s : Session rod) → (stop_browser rod s).1.bm.running ≡ false
unfolding stop_browser shut_down observe ◌>>=◌
stop_browser-stopped rod s =
    if_behind rod (λ t. t.bm.running ≡ false) s.bm.running (shut_down rod s) (ok tt, s)
      (λ h. closing-stopped rod (record s { world = close_pages rod s.bm.pages s.world })) (λ h. h)

module _ (env : Environment) where
  -- The shutdown signals each tracked process that runs with SIGTERM, and no process but these; with
  -- SIGKILL only one that did not end in time. Behind it no browser runs, and all but the browser and
  -- the processes is as it was.
  pub close_lem :
      (stops : ℕ → StopAnswers) (s : Service env)
      → ((pid : ℕ) → Running s.process pid → In (sigterm pid) (close env stops s).0)
        × ((sent : Signal)
            → In sent (close env stops s).0
            → (pid : ℕ) × Running s.process pid
              × ((sent ≡ sigterm pid)
                  ⊎ ((sent ≡ sigkill pid) × ((stops pid).done_in_time ≡ false))))
        × ((close env stops s).2.session.bm.running ≡ false)
        × ((close env stops s).2 ≡ record s {
          process = (close env stops s).2.process;
          session = (close env stops s).2.session;
        })
  unfolding close
  close_lem stops s =
      let (terminated, only) = stop_all_lem stops s.process in
      (terminated, only, stop_browser-stopped env.rod s.session, refl)
