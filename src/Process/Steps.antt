-- ===== src/Process/Steps.antt =====
-- worker/process.go: the steps of the manager's goroutines and the invariant.
use remote_hands.Shared.{
  ℕ, ◌≤◌, ◌<◌, ◌≡◌, refl, Bool, true, [], ◌∷◌, some, arith, Text, length, length-append, ℕ_eq, inl,
  inr, Bool-cases,
}
use remote_hands.Process.{
  TailEvent, running, exited, TrackedProcess, Channel, capacity, ProcessManager, write,
}
use remote_hands.Process.Output.{
  read_line, log_line, wait_for_exit, close_done, WaitResult, exit_code_of,
}
use remote_hands.Process.Start.{track}
use remote_hands.Process.Channels.{offered, fan_out_lem, close_all_lem}
use remote_hands.Process.Invariant.{Inv, written-Inv}

module _ (pm : ProcessManager) (v : Inv pm) where
  -- A process that is started gets a reference of its own, and has no subscribers.
  pub track-Inv :
      (pid : ℕ) (name command work_dir : Text) (now : ℕ)
      → Inv (track pm pid name command work_dir now)
  unfolding track
  track-Inv pid name command work_dir now = written-Inv v (record {
    heap = λ r. refl;
    more_channels = omega arith;
    more_processes = omega arith;
    allocated = omega arith;
    written_ok = record {
      running_code = λ _. refl;
      running_done = λ _. refl;
      exited_code = λ e. cc;
      exited_quiet = λ _. refl;
      distinct = tt;
      all_open = λ ch m. cc;
      in_use = λ ch m. absurd (cc);
    };
    others_open = λ q ch o n e m. (v.each q o e).all_open ch m;
    subscribers_old = λ ch m. absurd (cc);
    bounded = v.bounded;
  })

  pub below_next : (r : ℕ) (p : TrackedProcess) → pm.heap r ≡ some p → r < pm.next_process
  below_next r p e = ground (arith, v.fresh r)

  offered-bounded :
      (evt : TailEvent) (c : Channel)
      → length c.buffer ≤ capacity
      → length (offered evt c).buffer ≤ capacity
  offered-bounded evt c h = ground (arith, length-append c.buffer (evt ∷ []))

  -- A line of a running process is written and offered without a panic.
  pub read_line-Inv :
      (r : ℕ) (p : TrackedProcess) (is_stdout : Bool) (line : Text)
      → pm.heap r ≡ some p
      → p.status ≡ running
      → (pm' : ProcessManager) × (read_line pm r is_stdout line ≡ some pm') × Inv pm'
  unfolding read_line
  read_line-Inv r p is_stdout line e live =
      let k = v.each r p e in
      let evt : TailEvent = record { stdout = is_stdout; line = line } in
      let (after, sent, at) = fan_out_lem evt p.subscribers pm.channels k.all_open k.distinct in
      (
        record (write pm r (log_line is_stdout line p)) { channels = after },
        rw (e, sent),
        written-Inv v (record {
          heap = λ q. refl;
          more_channels = omega arith;
          more_processes = omega arith;
          allocated = below_next r p e;
          written_ok = record {
            running_code = k.running_code;
            running_done = k.running_done;
            exited_code = k.exited_code;
            exited_quiet = k.exited_quiet;
            distinct = k.distinct;
            all_open = λ ch m. ground (arith, at ch, k.all_open ch m);
            in_use = k.in_use;
          };
          others_open = λ q ch o n f m. ground (arith, at ch, (v.each q o f).all_open ch m);
          subscribers_old = λ ch m. inr (p, e, m);
          bounded = λ ch. ground (arith, at ch, v.bounded ch, offered-bounded evt (pm.channels ch));
        }),
      )

  -- The exit of a process closes its subscribers' channels without a panic.
  pub wait_for_exit-Inv :
      (r : ℕ) (p : TrackedProcess) (result : WaitResult) (now : ℕ)
      → pm.heap r ≡ some p
      → (pm' : ProcessManager) × (wait_for_exit pm r result now ≡ some pm') × Inv pm'
  unfolding wait_for_exit
  wait_for_exit-Inv r p result now e =
      let k = v.each r p e in
      let (after, closed, at) = close_all_lem p.subscribers pm.channels k.all_open k.distinct in
      (
        record (write pm r (record p {
          status = exited;
          exit_code = some (exit_code_of result);
          exited_at = some now;
          subscribers = [];
        })) { channels = after },
        rw (e, closed),
        written-Inv v (record {
          heap = λ q. refl;
          more_channels = omega arith;
          more_processes = omega arith;
          allocated = below_next r p e;
          written_ok = record {
            running_code = λ h. absurd (cc);
            running_done = λ h. absurd (cc);
            exited_code = λ _ h. cc;
            exited_quiet = λ _. refl;
            distinct = tt;
            all_open = λ ch m. cc;
            in_use = λ ch m. absurd (cc);
          };
          others_open = λ q ch o n f m.
              ground (arith, at ch, (v.each q o f).all_open ch m, v.apart r q p o ch e f);
          subscribers_old = λ ch m. absurd (cc);
          bounded = λ ch. ground (arith, at ch, v.bounded ch);
        }),
      )

  -- The channel `done` is closed behind the exit.
  pub close_done-Inv :
      (r : ℕ) (p : TrackedProcess)
      → pm.heap r ≡ some p
      → p.status ≡ exited
      → (pm' : ProcessManager) → close_done pm r ≡ some pm'
      → Inv pm'
  unfolding close_done
  close_done-Inv r p e over pm' h = elim (Bool-cases p.done) [
    | inl d ↦ absurd (ground (arith, e))
    | inr d ↦
        let k = v.each r p e in
        let made : write pm r (record p { done = true }) ≡ pm' = ground (arith, e) in
        rw (← made) (
          written-Inv v (record {
            heap = λ q. refl;
            more_channels = omega arith;
            more_processes = omega arith;
            allocated = below_next r p e;
            written_ok = record {
              running_code = k.running_code;
              running_done = λ live. absurd (cc);
              exited_code = k.exited_code;
              exited_quiet = k.exited_quiet;
              distinct = k.distinct;
              all_open = k.all_open;
              in_use = k.in_use;
            };
            others_open = λ q ch o n f m. (v.each q o f).all_open ch m;
            subscribers_old = λ ch m. inr (p, e, m);
            bounded = v.bounded;
          }))
  ]
