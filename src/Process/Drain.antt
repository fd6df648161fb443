-- ===== src/Process/Drain.antt =====
-- worker/process.go: `Tail` behind the exit of its process, and what `List` shows.
use remote_hands.Shared.{
  ℕ, zero, suc, ◌<◌, ◌≡◌, refl, Bool, true, false, List, [], ◌∷◌, ◌++◌, map, Option, none, some,
  arith, ℤ, length, ℕ_eq, ◌⊎◌, inl, inr, Result, ok, Error, Bool-cases, Option-cases, Map,
}
use remote_hands.Process.{TailEvent, TrackedProcess, ProcessManager, update}
use remote_hands.Process.Tail.{
  ProcessTailEvent, exit_code, tail_event, blocked, continued, finished, tail_round, receive,
}
use remote_hands.Process.Stop.{ProcessInfo, info_of, is_listed, list, list_entries}

-- The rounds of `Tail`'s loop while no other goroutine runs: the events sent, and the result if the
-- loop returned. `none` stands for a loop that waits or has no rounds left.
abbrev follow :
    ProcessTailEvent
    → List ProcessTailEvent × Option (Result Error (Unit {0}))
    → List ProcessTailEvent × Option (Result Error (Unit {0}))
follow evt (sent, r) = (evt ∷ sent, r)

abbrev last_events : Option ProcessTailEvent → List ProcessTailEvent
last_events none = []
last_events (some e) = e ∷ []

-- `cancelled` says of each round, by the number of those left, whether `select` takes the case of
-- the done context; `send` is the stream's answer to an event.
pub tail_loop :
    (ℕ → Bool)
    → (ProcessTailEvent → Bool)
    → ℕ
    → ProcessManager
    → ℕ
    → ℕ
    → List ProcessTailEvent × Option (Result Error (Unit {0}))
unfolding tail_round
tail_loop cancelled send zero pm r ch = ([], none)
tail_loop cancelled send (suc rounds) pm r ch = elim (tail_round (cancelled rounds) send pm r ch) [
  | blocked ↦ ([], none)
  | continued evt pm' ↦ follow evt (tail_loop cancelled send rounds pm' r ch)
  | finished result e ↦ (last_events e, some result)
]

round_exit :
    (send : ProcessTailEvent → Bool) (pm : ProcessManager) (r ch : ℕ) (p : TrackedProcess)
    (code : ℤ)
    → pm.heap r ≡ some p
    → p.exit_code ≡ some code
    → (pm.channels ch).closed ≡ true
    → (pm.channels ch).buffer ≡ []
    → tail_round false send pm r ch ≡ finished (ok tt) (some (exit_code code))
unfolding tail_round receive
round_exit send pm r ch p code e c closed b = rw (b, closed) (ground arith)

abbrev after_take : ProcessManager → ℕ → List TailEvent → ProcessManager
after_take pm ch rest = record pm {
  channels = update pm.channels ch (record (pm.channels ch) { buffer = rest });
}

round_take :
    (send : ProcessTailEvent → Bool) (pm : ProcessManager) (r ch : ℕ) (evt : TailEvent)
    (rest : List TailEvent)
    → send (tail_event evt) ≡ true
    → (pm.channels ch).buffer ≡ evt ∷ rest
    → tail_round false send pm r ch ≡ continued (tail_event evt) (after_take pm ch rest)
unfolding tail_round receive
round_take send pm r ch evt rest t b = rw (b, t)

-- While no other goroutine runs, the request is not cancelled and the stream takes every event, a
-- subscriber whose process has exited and closed its channel is sent each line that the channel
-- still holds, in order, then the exit code, and `Tail` returns without an error, in as many rounds
-- as there are lines and one more.
pub tail_loop-drains :
    (cancelled : ℕ → Bool) (send : ProcessTailEvent → Bool) (rounds : ℕ) (pm : ProcessManager)
    (r ch : ℕ) (p : TrackedProcess) (code : ℤ) (held : List TailEvent)
    → ((n : ℕ) → cancelled n ≡ false)
    → ((e : ProcessTailEvent) → send e ≡ true)
    → pm.heap r ≡ some p
    → p.exit_code ≡ some code
    → (pm.channels ch).closed ≡ true
    → (pm.channels ch).buffer ≡ held
    → length held < rounds
    → tail_loop cancelled send rounds pm r ch
      ≡ (map tail_event held ++ exit_code code ∷ [], some (ok tt))
unfolding tail_loop
tail_loop-drains cancelled send zero pm r ch p code held on takes e c closed b l =
    absurd (omega arith)
tail_loop-drains cancelled send (suc rounds) pm r ch p code [] on takes e c closed b l =
    rw (tail_loop, on rounds, round_exit send pm r ch p code e c closed b)
tail_loop-drains cancelled send (suc rounds) pm r ch p code (evt ∷ held) on takes e c closed b l =
    rw (
      tail_loop,
      on rounds,
      round_take send pm r ch evt held (takes (tail_event evt)) b,
      tail_loop-drains cancelled send rounds (after_take pm ch held) r ch p code held on takes e c
          (ground (arith, closed)) (ground arith) (omega arith),
    )

-- The entry is in the list.
abbrev pub Among : ProcessInfo → List ProcessInfo → Type 0
Among i [] = ⊥
Among i (j ∷ js) = (i ≡ j) ⊎ Among i js

-- What a listed entry comes from.
pub record Shown (pm : ProcessManager) (include_exited : Bool) (i : ProcessInfo) : Type 0 where
  pub proc : TrackedProcess
  pub info : i ≡ info_of proc
  pub tracked : (r : ℕ) × (pm.heap r ≡ some proc)
  pub listed : is_listed pm.self_pid include_exited proc ≡ true

module _ (pm : ProcessManager) (include_exited : Bool) where
  list_entries-Shown :
      (m : Map ℕ ℕ) (i : ProcessInfo)
      → Among i (list_entries pm.heap pm.self_pid include_exited m)
      → Shown pm include_exited i
  unfolding list_entries
  list_entries-Shown [] i a = absurd a
  list_entries-Shown ((pid, r) ∷ m) i a = elim (Option-cases (pm.heap r)) [
    | inl e ↦ list_entries-Shown m i (rw (e, list_entries) at a)
    | inr (p, e) ↦ elim (Bool-cases (is_listed pm.self_pid include_exited p)) [
      | inr h ↦ list_entries-Shown m i (rw (e, list_entries, h) at a)
      | inl h ↦
          let here : Among i (info_of p ∷ list_entries pm.heap pm.self_pid include_exited m) =
            rw (e, list_entries, h) at a in
          elim here [
            | inl same ↦ record { proc = p; info = same; tracked = (r, e); listed = h }
            | inr rest ↦ list_entries-Shown m i rest
          ]
    ]
  ]

  list_entries_complete :
      (front back : Map ℕ ℕ) (pid r : ℕ) (p : TrackedProcess)
      → pm.heap r ≡ some p
      → is_listed pm.self_pid include_exited p ≡ true
      → Among
          (info_of p)
          (list_entries pm.heap pm.self_pid include_exited (front ++ (pid, r) ∷ back))
  unfolding list_entries
  list_entries_complete [] back pid r p e h = rw (e, list_entries, h) (inl refl)
  list_entries_complete ((j, q) ∷ front) back pid r p e h = elim (Option-cases (pm.heap q)) [
    | inl f ↦ rw (f, list_entries) (list_entries_complete front back pid r p e h)
    | inr (o, f) ↦ elim (Bool-cases (is_listed pm.self_pid include_exited o)) [
      | inr g ↦ rw (f, list_entries, g) (list_entries_complete front back pid r p e h)
      | inl g ↦ rw (f, list_entries, g) (inr (list_entries_complete front back pid r p e h))
    ]
  ]

-- `List` shows exactly the tracked processes that are not the server itself and that run, unless
-- exited ones are asked for: each entry comes from such a process, and each such process has one.
pub list_lem :
    (pm : ProcessManager) (include_exited : Bool)
    → ((i : ProcessInfo) → Among i (list pm include_exited) → Shown pm include_exited i)
      × ((front back : Map ℕ ℕ) (pid r : ℕ) (p : TrackedProcess)
          → pm.processes ≡ front ++ (pid, r) ∷ back
          → pm.heap r ≡ some p
          → is_listed pm.self_pid include_exited p ≡ true
          → Among (info_of p) (list pm include_exited))
unfolding list
list_lem pm include_exited = (
  list_entries-Shown pm include_exited pm.processes,
  λ front back pid r p e f h. rw e (list_entries_complete pm include_exited front back pid r p f h),
)
