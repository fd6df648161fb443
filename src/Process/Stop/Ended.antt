-- ===== src/Process/Stop/Ended.antt =====
-- worker/process.go: what a `Stop` that succeeds has done.
use remote_hands.Shared.{
  ℕ, ◌≡◌, refl, ap, ◌∙◌, true, false, [], Text, some, ok, arith, Bool-cases, Option-cases, inl, inr,
  ℕ_eq, lookup,
}
use remote_hands.Process.{
  TrackedProcess, ProcessManager, Channels, running, exited, is_exited, find, find-heap, write,
}
use remote_hands.Process.Output.{wait_for_exit, close_done, exit_code_of}
use remote_hands.Process.Channels.{close_all_lem}
use remote_hands.Process.Invariant.{Inv}
use remote_hands.Process.Reach.{Reachable, Reachable-Inv}
use remote_hands.Process.Stop.Reached.{is_running}
use remote_hands.Process.Stop.Signals.{find-lookup}
use remote_hands.Process.Stop.{
  StopAnswers, KillResult, delivered, no_such_process, kill_failed, recorded, closed_done_of,
  await_done, after_kill, after_term, stop_found, stop,
}

-- The process as its wait goroutine leaves it.
abbrev ended : StopAnswers → TrackedProcess → TrackedProcess
ended os p = record p {
  status = exited;
  exit_code = some (exit_code_of os.wait);
  exited_at = some os.now;
  subscribers = [];
}

abbrev with_channels : Channels → ProcessManager → ProcessManager
with_channels chans pm = record pm { channels = chans }

written_at : (pm : ProcessManager) (r : ℕ) (p : TrackedProcess) → (write pm r p).heap r ≡ some p
written_at pm r p = ground arith

module _ (os : StopAnswers) (pm : ProcessManager) (v : Inv pm) (r : ℕ) (p : TrackedProcess)
    (e : pm.heap r ≡ some p) (live : is_exited p.status ≡ false) where
  recorded_lem :
      (after : Channels) × (recorded pm r os ≡ with_channels after (write pm r (ended os p)))
  unfolding recorded wait_for_exit
  recorded_lem =
      let k = v.each r p e in
      let (after, closed, _) = close_all_lem p.subscribers pm.channels k.all_open k.distinct in
      let w : wait_for_exit pm r os.wait os.now
          ≡ some (with_channels after (write pm r (ended os p))) =
        rw (e, closed) in
      (after, rw (recorded, e, live, w) refl)

  closed_lem :
      (pm1 : ProcessManager)
      → pm1.heap r ≡ some (ended os p)
      → closed_done_of pm1 r ≡ write pm1 r (record (ended os p) { done = true })
  unfolding closed_done_of close_done
  closed_lem pm1 h =
      let open_still : p.done ≡ false = (v.each r p e).running_done (is_running p.status live) in
      let w : close_done pm1 r ≡ some (write pm1 r (record (ended os p) { done = true })) =
        rw (h, open_still) in
      rw (closed_done_of, h, w) refl

  -- What is left of the process when `done` is closed.
  await_done_lem :
      (await_done pm r os).heap r ≡ some (record (ended os p) { done = true })
      × ((await_done pm r os).processes ≡ pm.processes)
  unfolding await_done
  await_done_lem =
      let (after, rec) = recorded_lem in
      let pm1 : ProcessManager = with_channels after (write pm r (ended os p)) in
      let done = closed_lem pm1 (written_at pm r (ended os p)) in
      (rw (rec, done) (written_at pm1 r (record (ended os p) { done = true })), rw (rec, done) refl)

  -- A success means that the process was waited for.
  after_kill-ok :
      (pid : ℕ) (k : KillResult)
      → (after_kill pm r pid os k).result ≡ ok tt
      → (after_kill pm r pid os k).manager ≡ await_done pm r os
  unfolding after_kill
  after_kill-ok pid delivered h = refl
  after_kill-ok pid no_such_process h = refl
  after_kill-ok pid kill_failed h = absurd (ground arith)

  after_term-ok :
      (pid : ℕ) (k : KillResult)
      → (after_term pm r pid os k).result ≡ ok tt
      → (after_term pm r pid os k).manager ≡ await_done pm r os
  unfolding after_term
  after_term-ok pid kill_failed h = absurd (ground arith)
  after_term-ok pid k h = elim (Bool-cases os.done_in_time) [
    | inl q ↦ rw (after_term, q) refl
    | inr q ↦ rw (after_term, q) (after_kill-ok pid os.kill (rw (after_term, q) at h))
  ]

find-made :
    (pm : ProcessManager) (pid r : ℕ) (p : TrackedProcess)
    → lookup pid pm.processes ≡ some r
    → pm.heap r ≡ some p
    → find pm pid ≡ some (r, p)
unfolding find
find-made pm pid r p l e = rw (find, l, e) refl

-- In every reachable manager, a `Stop` that succeeds was of a tracked process that ran; behind it the
-- process is tracked still, is recorded as exited, with the exit code of its wait, and is done.
pub stop_lem :
    {home log : Text} {self : ℕ} {pm : ProcessManager} (os : StopAnswers) (pid : ℕ)
    → Reachable home log self pm
    → (stop os pm pid).result ≡ ok tt
    → (r : ℕ) × (p q : TrackedProcess) × (find pm pid ≡ some (r, p))
      × (p.status ≡ running)
      × (find (stop os pm pid).manager pid ≡ some (r, q))
      × (q.status ≡ exited)
      × (q.exit_code ≡ some (exit_code_of os.wait))
      × (q.done ≡ true)
unfolding stop stop_found
stop_lem {pm = pm} os pid reach h = elim (Option-cases (find pm pid)) [
  | inl f ↦ absurd (ground arith)
  | inr ((r, p), f) ↦ elim (Bool-cases (is_exited p.status)) [
    | inl x ↦ absurd (ground arith)
    | inr x ↦
        let v = Reachable-Inv reach in
        let e = find-heap pm pid r p f in
        let (held, same) = await_done_lem os pm v r p e x in
        let left : (stop os pm pid).manager ≡ await_done pm r os =
          rw (stop, stop_found, f, x)
            (after_term-ok os pm v r p e x pid os.term (rw (stop, stop_found, f, x) at h)) in
        (
          r,
          p,
          record (ended os p) { done = true },
          f,
          is_running p.status x,
          rw left (
              find-made (await_done pm r os) pid r _
                (ap (lookup pid) same ∙ find-lookup pm pid r p f) held),
          refl,
          refl,
          refl,
        )
  ]
]
