-- ===== src/Process/Invariant.antt =====
-- worker/process.go: the invariant of the process manager between two steps of its goroutines.
use remote_hands.Shared.{
  ℕ, ◌≤◌, ◌<◌, ◌≡◌, ◌≢◌, true, false, [], ◌⊎◌, none, some, arith, length, ◌==◌, ℕ_eq, Bool-cases,
  inl, inr,
}
use remote_hands.Process.{running, exited, TrackedProcess, capacity, ProcessManager, update}
use remote_hands.Process.Channels.{mem, Distinct, AllOpen}

-- The exit code agrees with the status, and `done` is closed only behind the exit; an exited process has no subscribers; a
-- subscriber's channel is open, in use, and subscribed once.
pub record ProcessOk (pm : ProcessManager) (p : TrackedProcess) : Type 0 where
  pub running_code : p.status ≡ running → p.exit_code ≡ none
  pub running_done : p.status ≡ running → p.done ≡ false
  pub exited_code : p.status ≡ exited → p.exit_code ≢ none
  pub exited_quiet : p.status ≡ exited → p.subscribers ≡ []
  pub distinct : Distinct p.subscribers
  pub all_open : AllOpen p.subscribers pm.channels
  pub in_use : (ch : ℕ) → mem ch p.subscribers ≡ true → ch < pm.next_channel_ref

pub record Inv (pm : ProcessManager) : Type 0 where
  pub each : (r : ℕ) (p : TrackedProcess) → pm.heap r ≡ some p → ProcessOk pm p
  -- Two processes share no channel.
  pub apart :
      (r q : ℕ) (p o : TrackedProcess) (ch : ℕ)
      → pm.heap r ≡ some p
      → pm.heap q ≡ some o
      → mem ch p.subscribers ≡ true
      → mem ch o.subscribers ≡ true
      → r ≡ q
  pub bounded : (ch : ℕ) → length (pm.channels ch).buffer ≤ capacity
  pub fresh : (r : ℕ) → pm.next_process ≤ r → pm.heap r ≡ none

-- A step that writes one process `p0` at `r0`: what is to be shown for the invariant.
pub record Written (pm pm' : ProcessManager) (r0 : ℕ) (p0 : TrackedProcess) : Type 0 where
  pub heap : (r : ℕ) → pm'.heap r ≡ update pm.heap r0 (some p0) r
  pub more_channels : pm.next_channel_ref ≤ pm'.next_channel_ref
  pub more_processes : pm.next_process ≤ pm'.next_process
  pub allocated : r0 < pm'.next_process
  pub written_ok : ProcessOk pm' p0
  -- The channels of the other processes stay open.
  pub others_open :
      (q ch : ℕ) (o : TrackedProcess)
      → r0 ≢ q
      → pm.heap q ≡ some o
      → mem ch o.subscribers ≡ true
      → (pm'.channels ch).closed ≡ false
  -- A subscriber of the written process was one before, or its channel is new.
  pub subscribers_old :
      (ch : ℕ)
      → mem ch p0.subscribers ≡ true
      → (pm.next_channel_ref ≤ ch)
        ⊎ ((p : TrackedProcess) × (pm.heap r0 ≡ some p) × (mem ch p.subscribers ≡ true))
  pub bounded : (ch : ℕ) → length (pm'.channels ch).buffer ≤ capacity

module _ {pm pm' : ProcessManager} {r0 : ℕ} {p0 : TrackedProcess} (v : Inv pm)
    (w : Written pm pm' r0 p0) where
  other_ok : (q : ℕ) (o : TrackedProcess) → r0 ≢ q → pm.heap q ≡ some o → ProcessOk pm' o
  other_ok q o n e =
      let k = v.each q o e in
      record {
        running_code = k.running_code;
        running_done = k.running_done;
        exited_code = k.exited_code;
        exited_quiet = k.exited_quiet;
        distinct = k.distinct;
        all_open = λ ch m. w.others_open q ch o n e m;
        in_use = λ ch m. omega (arith, k.in_use ch m, w.more_channels);
      }

  -- The written process shares no channel with another.
  written_apart :
      (q : ℕ) (o : TrackedProcess) (ch : ℕ)
      → r0 ≢ q
      → pm.heap q ≡ some o
      → mem ch p0.subscribers ≡ true
      → mem ch o.subscribers ≡ true
      → ⊥
  written_apart q o ch n e m m' = elim (w.subscribers_old ch m) [
    | inl new ↦ omega (arith, (v.each q o e).in_use ch m')
    | inr (p, f, k) ↦ n (v.apart r0 q p o ch f e k m')
  ]

  pub written-Inv : Inv pm'
  written-Inv = record {
    each = λ r p e. elim (Bool-cases (r0 == r)) [
      | inl same ↦ let q : p0 ≡ p = ground (arith, w.heap r) in rw (← q) w.written_ok
      | inr n ↦ other_ok r p (ground arith) (ground (arith, w.heap r))
    ];
    apart = λ r q p o ch e f m m'. elim (Bool-cases (r0 == r)) [
      | inl same ↦ elim (Bool-cases (r0 == q)) [
        | inl both ↦ ground arith
        | inr n ↦ absurd (
            written_apart q o ch (ground arith) (ground (arith, w.heap q))
              (ground (arith, w.heap r)) m')
      ]
      | inr n ↦ elim (Bool-cases (r0 == q)) [
        | inl same ↦ absurd (
            written_apart r p ch (ground arith) (ground (arith, w.heap r))
              (ground (arith, w.heap q)) m)
        | inr n' ↦ v.apart r q p o ch (ground (arith, w.heap r)) (ground (arith, w.heap q)) m m'
      ]
    ];
    bounded = w.bounded;
    fresh = λ r l. ground (arith, w.heap r, v.fresh r, w.more_processes, w.allocated);
  }
