-- ===== src/Process/Reach.antt =====
-- worker/process.go: subscribers that come and go, and the states that the goroutines can reach.
use remote_hands.Shared.{
  ℕ, suc, ◌≡◌, refl, ap, ◌∙◌, Bool, true, false, List, [], ◌∷◌, ◌++◌, Option, some, arith, Text,
  length, ℕ_eq, Bool-cases, Option-cases, inl, inr,
}
use remote_hands.Process.{
  TailEvent, running, exited, TrackedProcess, ProcessManager, update, write, find, new_channel,
  find-heap, is_exited, new_process_manager,
}
use remote_hands.Process.Output.{read_line, wait_for_exit, close_done, WaitResult}
use remote_hands.Process.Start.{track}
use remote_hands.Process.Tail.{
  subscribe, ProcessTailEvent, tail_round, receive, continued, remove_first, remove_subscriber,
}
use remote_hands.Process.Channels.{mem, Distinct, mem-append, Distinct-append}
use remote_hands.Process.Invariant.{Inv, written-Inv}
use remote_hands.Process.Steps.{
  track-Inv, below_next, read_line-Inv, wait_for_exit-Inv, close_done-Inv,
}

remove_first-mem :
    (ch j : ℕ) (subs : List ℕ) → mem j (remove_first ch subs) ≡ true → mem j subs ≡ true
unfolding remove_first
remove_first-mem ch j [] h = h
remove_first-mem ch j (sub ∷ subs) h = ground (arith, remove_first-mem ch j subs)

remove_first-Distinct : (ch : ℕ) (subs : List ℕ) → Distinct subs → Distinct (remove_first ch subs)
unfolding remove_first
remove_first-Distinct ch [] d = tt
remove_first-Distinct ch (sub ∷ subs) d =
    ground (arith, remove_first-Distinct ch subs d.1, remove_first-mem ch sub subs, d.0)

module _ (pm : ProcessManager) (v : Inv pm) where
  subscribed-Inv :
      (r : ℕ) (p : TrackedProcess)
      → pm.heap r ≡ some p
      → p.status ≡ running
      → Inv
          (record (write pm r
            (record p { subscribers = p.subscribers ++ pm.next_channel_ref ∷ [] })) {
              channels = update pm.channels pm.next_channel_ref new_channel;
              next_channel_ref = suc pm.next_channel_ref;
            })
  subscribed-Inv r p e live =
      let k = v.each r p e in
      let n = pm.next_channel_ref in
      written-Inv v (record {
        heap = λ q. refl;
        more_channels = omega arith;
        more_processes = omega arith;
        allocated = below_next pm v r p e;
        written_ok = record {
          running_code = k.running_code;
          running_done = k.running_done;
          exited_code = k.exited_code;
          exited_quiet = λ h. absurd (cc);
          distinct = Distinct-append n p.subscribers k.distinct (ground (arith, k.in_use n));
          all_open = λ ch m. ground (arith, mem-append ch p.subscribers (n ∷ []), k.all_open ch);
          in_use = λ ch m. ground (arith, mem-append ch p.subscribers (n ∷ []), k.in_use ch);
        };
        others_open = λ q ch o d f m.
            ground (arith, (v.each q o f).all_open ch m, (v.each q o f).in_use ch m);
        subscribers_old = λ ch m. elim (Bool-cases (mem ch p.subscribers)) [
          | inl old ↦ inr (p, e, old)
          | inr new ↦ inl (ground (arith, mem-append ch p.subscribers (n ∷ [])))
        ];
        bounded = λ ch. ground (arith, v.bounded ch);
      })

  pub subscribe-Inv : (pid : ℕ) → Inv (subscribe pm pid).1
  unfolding subscribe
  subscribe-Inv pid = elim (Option-cases (find pm pid)) [
    | inl e ↦ rw (e, subscribe) v
    | inr ((r, p), e) ↦ elim (Bool-cases (is_exited p.status)) [
      | inl h ↦ rw (e, subscribe, h) v
      | inr h ↦ rw (e, subscribe, h) (subscribed-Inv r p (find-heap pm pid r p e) (ground arith))
    ]
  ]

  pub remove_subscriber-Inv : (pid ch : ℕ) → Inv (remove_subscriber pm pid ch)
  unfolding remove_subscriber
  remove_subscriber-Inv pid ch = elim (Option-cases (find pm pid)) [
    | inl e ↦ rw (e, remove_subscriber) v
    | inr ((r, p), e) ↦
        let f = find-heap pm pid r p e in
        let k = v.each r p f in
        rw (e, remove_subscriber)
          (written-Inv v (record {
            heap = λ q. refl;
            more_channels = omega arith;
            more_processes = omega arith;
            allocated = below_next pm v r p f;
            written_ok = record {
              running_code = k.running_code;
              running_done = k.running_done;
              exited_code = k.exited_code;
              exited_quiet =
                  λ h. ap (remove_first ch) (k.exited_quiet h) ∙ unfold remove_first in refl;
              distinct = remove_first-Distinct ch p.subscribers k.distinct;
              all_open = λ j m. k.all_open j (remove_first-mem ch j p.subscribers m);
              in_use = λ j m. k.in_use j (remove_first-mem ch j p.subscribers m);
            };
            others_open = λ q j o d g m. (v.each q o g).all_open j m;
            subscribers_old = λ j m. inr (p, f, remove_first-mem ch j p.subscribers m);
            bounded = v.bounded;
          }))
  ]

  taken-Inv :
      (ch : ℕ) (evt : TailEvent) (rest : List TailEvent)
      → (pm.channels ch).buffer ≡ evt ∷ rest
      → Inv (record pm {
        channels = update pm.channels ch (record (pm.channels ch) { buffer = rest });
      })
  taken-Inv ch evt rest e = record {
    each = λ r p f.
        let k = v.each r p f in
        record {
          running_code = k.running_code;
          running_done = k.running_done;
          exited_code = k.exited_code;
          exited_quiet = k.exited_quiet;
          distinct = k.distinct;
          all_open = λ j m. ground (arith, k.all_open j m);
          in_use = k.in_use;
        };
    apart = v.apart;
    bounded = λ j. ground (arith, v.bounded j, ap length e);
    fresh = v.fresh;
  }

  receive-Inv :
      (r ch : ℕ) (send : ProcessTailEvent → Bool) (closed : Bool) (buffer : List TailEvent)
      → (pm.channels ch).buffer ≡ buffer
      → (evt : ProcessTailEvent) (pm' : ProcessManager)
      → receive pm r ch send closed buffer ≡ continued evt pm'
      → Inv pm'
  unfolding receive
  receive-Inv r ch send true [] e evt pm' h = absurd (cc)
  receive-Inv r ch send false [] e evt pm' h = absurd (cc)
  receive-Inv r ch send closed (sent ∷ rest) e evt pm' h =
      let same : record pm {
        channels = update pm.channels ch (record (pm.channels ch) { buffer = rest });
      }
          ≡ pm' =
        ground arith in
      rw (← same) (taken-Inv ch sent rest e)

  pub tail_round-Inv :
      (cancelled : Bool) (send : ProcessTailEvent → Bool) (r ch : ℕ) (evt : ProcessTailEvent)
      (pm' : ProcessManager)
      → tail_round cancelled send pm r ch ≡ continued evt pm'
      → Inv pm'
  unfolding tail_round
  tail_round-Inv true send r ch evt pm' h = absurd (cc)
  tail_round-Inv false send r ch evt pm' h =
      receive-Inv r ch send (pm.channels ch).closed (pm.channels ch).buffer refl evt pm' h

-- One critical section of some goroutine, or of a request.
pub data Step (pm : ProcessManager) : ProcessManager → Type 0 where
  started :
      (pid : ℕ) (name command work_dir : Text) (now : ℕ)
      → Step pm (track pm pid name command work_dir now)
  -- The pipe readers and the wait goroutine of a process work until its exit is recorded.
  read :
      {pm' : ProcessManager} (r : ℕ) (p : TrackedProcess) (is_stdout : Bool) (line : Text)
      → pm.heap r ≡ some p
      → p.status ≡ running
      → read_line pm r is_stdout line ≡ some pm'
      → Step pm pm'
  waited :
      {pm' : ProcessManager} (r : ℕ) (p : TrackedProcess) (result : WaitResult) (now : ℕ)
      → pm.heap r ≡ some p
      → p.status ≡ running
      → wait_for_exit pm r result now ≡ some pm'
      → Step pm pm'
  closed_done :
      {pm' : ProcessManager} (r : ℕ) (p : TrackedProcess)
      → pm.heap r ≡ some p
      → p.status ≡ exited
      → close_done pm r ≡ some pm'
      → Step pm pm'
  subscribed : (pid : ℕ) → Step pm (subscribe pm pid).1
  received :
      {pm' : ProcessManager} (cancelled : Bool) (send : ProcessTailEvent → Bool) (r ch : ℕ)
      (evt : ProcessTailEvent)
      → tail_round cancelled send pm r ch ≡ continued evt pm'
      → Step pm pm'
  removed : (pid ch : ℕ) → Step pm (remove_subscriber pm pid ch)

-- Any number of steps from a new manager.
pub data Reachable (home log : Text) (self : ℕ) : ProcessManager → Type 0 where
  new_manager : Reachable home log self (new_process_manager home log self)
  next :
      {pm pm' : ProcessManager}
      → Reachable home log self pm
      → Step pm pm'
      → Reachable home log self pm'

the_state :
    {o : Option ProcessManager} {pm' : ProcessManager}
    → (q : ProcessManager) × (o ≡ some q) × Inv q
    → o ≡ some pm'
    → Inv pm'
the_state {pm' = pm'} (q, made, v) h = let same : q ≡ pm' = cc in rw (← same) v

Step-Inv : {pm pm' : ProcessManager} → Inv pm → Step pm pm' → Inv pm'
Step-Inv {pm = pm} v (started pid name command work_dir now) =
    track-Inv pm v pid name command work_dir now
Step-Inv {pm = pm} v (read r p is_stdout line e live h) =
    the_state (read_line-Inv pm v r p is_stdout line e live) h
Step-Inv {pm = pm} v (waited r p result now e live h) =
    the_state (wait_for_exit-Inv pm v r p result now e) h
Step-Inv {pm = pm} v (closed_done r p e over h) = close_done-Inv pm v r p e over _ h
Step-Inv {pm = pm} v (subscribed pid) = subscribe-Inv pm v pid
Step-Inv {pm = pm} v (received {pm'} cancelled send r ch evt h) =
    tail_round-Inv pm v cancelled send r ch evt _ h
Step-Inv {pm = pm} v (removed pid ch) = remove_subscriber-Inv pm v pid ch

new-Inv : (home log : Text) (self : ℕ) → Inv (new_process_manager home log self)
unfolding new_process_manager
new-Inv home log self = record {
  each = λ r p e. absurd (cc);
  apart = λ r q p o ch e f m n. absurd (cc);
  bounded = λ ch. omega arith;
  fresh = λ r l. refl;
}

-- Whatever processes are started, write, exit, and whoever tails them, the manager stays well
-- formed.
pub Reachable-Inv :
    {home log : Text} {self : ℕ} {pm : ProcessManager} → Reachable home log self pm → Inv pm
Reachable-Inv {home} {log} {self} new_manager = new-Inv home log self
Reachable-Inv (next r st) = Step-Inv (Reachable-Inv r) st
