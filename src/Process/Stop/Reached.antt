-- ===== src/Process/Stop/Reached.antt =====
-- worker/process.go: what `Stop` and `StopAll` leave is reached by steps of the manager's goroutines.
use remote_hands.Shared.{
  ℕ, ◌≡◌, refl, true, false, List, [], ◌∷◌, Text, Option, none, some, arith, Bool-cases,
  Option-cases, inl, inr,
}
use remote_hands.Process.{TrackedProcess, ProcessManager, Status, running, exited, is_exited, find}
use remote_hands.Process.Output.{wait_for_exit, close_done}
use remote_hands.Process.Reach.{waited, closed_done, Reachable, next}
use remote_hands.Process.Stop.{
  StopAnswers, KillResult, delivered, no_such_process, kill_failed, recorded, closed_done_of,
  await_done, after_kill, after_term, stop_found, stop_each, stop_all, stop, running_pids,
}

pub is_running : (st : Status) → is_exited st ≡ false → st ≡ running
is_running running e = refl
is_running exited e = absurd (ground arith)

is_over : (st : Status) → is_exited st ≡ true → st ≡ exited
is_over exited e = refl
is_over running e = absurd (ground arith)

module _ {home log : Text} {self : ℕ} where
  recorded-Reachable :
      {pm : ProcessManager} (r : ℕ) (os : StopAnswers)
      → Reachable home log self pm
      → Reachable home log self (recorded pm r os)
  unfolding recorded
  recorded-Reachable {pm = pm} r os v = elim (Option-cases (pm.heap r)) [
    | inl e ↦ rw (recorded, e) v
    | inr (p, e) ↦ elim (Bool-cases (is_exited p.status)) [
      | inl h ↦ rw (recorded, e, h) v
      | inr h ↦ elim (Option-cases (wait_for_exit pm r os.wait os.now)) [
        | inl w ↦ rw (recorded, e, h, w) v
        | inr (pm', w) ↦
            rw (recorded, e, h, w) (next v (waited r p os.wait os.now e (is_running p.status h) w))
      ]
    ]
  ]

  closed_done_of-Reachable :
      {pm : ProcessManager} (r : ℕ)
      → Reachable home log self pm
      → Reachable home log self (closed_done_of pm r)
  unfolding closed_done_of
  closed_done_of-Reachable {pm = pm} r v = elim (Option-cases (pm.heap r)) [
    | inl e ↦ rw (closed_done_of, e) v
    | inr (p, e) ↦ elim (Bool-cases (is_exited p.status)) [
      | inr h ↦ rw (closed_done_of, e, h) v
      | inl h ↦ elim (Option-cases (close_done pm r)) [
        | inl w ↦ rw (closed_done_of, e, h, w) v
        | inr (pm', w) ↦
            rw (closed_done_of, e, h, w) (next v (closed_done r p e (is_over p.status h) w))
      ]
    ]
  ]

  await_done-Reachable :
      {pm : ProcessManager} (r : ℕ) (os : StopAnswers)
      → Reachable home log self pm
      → Reachable home log self (await_done pm r os)
  unfolding await_done
  await_done-Reachable r os v = closed_done_of-Reachable r (recorded-Reachable r os v)

  after_kill-Reachable :
      {pm : ProcessManager} (r pid : ℕ) (os : StopAnswers) (k : KillResult)
      → Reachable home log self pm
      → Reachable home log self (after_kill pm r pid os k).manager
  unfolding after_kill
  after_kill-Reachable r pid os delivered v = await_done-Reachable r os v
  after_kill-Reachable r pid os no_such_process v = await_done-Reachable r os v
  after_kill-Reachable r pid os kill_failed v = v

  after_term-Reachable :
      {pm : ProcessManager} (r pid : ℕ) (os : StopAnswers) (k : KillResult)
      → Reachable home log self pm
      → Reachable home log self (after_term pm r pid os k).manager
  unfolding after_term
  after_term-Reachable r pid os kill_failed v = v
  after_term-Reachable r pid os k v = elim (Bool-cases os.done_in_time) [
    | inl h ↦ rw (after_term, h) (await_done-Reachable r os v)
    | inr h ↦ rw (after_term, h) (after_kill-Reachable r pid os os.kill v)
  ]

  stop_found-Reachable :
      {pm : ProcessManager} (os : StopAnswers) (pid : ℕ) (found : Option (ℕ × TrackedProcess))
      → Reachable home log self pm
      → Reachable home log self (stop_found os pm pid found).manager
  unfolding stop_found
  stop_found-Reachable os pid none v = v
  stop_found-Reachable os pid (some (r, p)) v = elim (Bool-cases (is_exited p.status)) [
    | inl h ↦ rw (stop_found, h) v
    | inr h ↦ rw (stop_found, h) (after_term-Reachable r pid os os.term v)
  ]

  pub stop-Reachable :
      {pm : ProcessManager} (os : StopAnswers) (pid : ℕ)
      → Reachable home log self pm
      → Reachable home log self (stop os pm pid).manager
  unfolding stop
  stop-Reachable {pm = pm} os pid v = stop_found-Reachable os pid (find pm pid) v

  stop_each-Reachable :
      {pm : ProcessManager} (stops : ℕ → StopAnswers) (seen : ProcessManager) (pids : List ℕ)
      → Reachable home log self pm
      → Reachable home log self (stop_each stops seen pm pids).1
  unfolding stop_each
  stop_each-Reachable {pm = pm} stops seen [] v = v
  stop_each-Reachable {pm = pm} stops seen (pid ∷ pids) v =
      stop_each-Reachable {pm = (stop_found (stops pid) pm pid (find seen pid)).manager} stops seen
        pids (stop_found-Reachable (stops pid) pid (find seen pid) v)

  pub stop_all-Reachable :
      {pm : ProcessManager} (stops : ℕ → StopAnswers)
      → Reachable home log self pm
      → Reachable home log self (stop_all stops pm).1
  unfolding stop_all
  stop_all-Reachable {pm = pm} stops v =
      stop_each-Reachable stops pm (running_pids pm.heap pm.processes) v
