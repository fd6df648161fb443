-- ===== src/Process/Stop/Signals.antt =====
-- worker/process.go: whom StopAll signals.
use remote_hands.Shared.{
  ℕ, ◌≡◌, ◌⊎◌, refl, false, List, [], ◌∷◌, ◌++◌, Option, some, Map, ◌==◌, ℕ_eq, lookup, arith,
  Bool-cases, Option-cases, inl, inr,
}
use remote_hands.Process.{TrackedProcess, ProcessManager, find, find-heap, is_exited}
use remote_hands.Process.Start.{Signal, sigterm, sigkill}
use remote_hands.Process.Stop.{
  StopAnswers, KillResult, delivered, no_such_process, kill_failed, after_kill, after_term,
  stop_found, stop_all, stop_each, running_pids,
}

-- A member of a list.
abbrev pub In : {A : Type 0} → A → List A → Type 0
In x [] = ⊥
In x (y ∷ ys) = (x ≡ y) ⊎ In x ys

In-left : {A : Type 0} (x : A) (xs ys : List A) → In x xs → In x (xs ++ ys)
In-left x [] ys m = absurd m
In-left x (y ∷ xs) ys (inl e) = inl e
In-left x (y ∷ xs) ys (inr m) = inr (In-left x xs ys m)

In-right : {A : Type 0} (x : A) (xs ys : List A) → In x ys → In x (xs ++ ys)
In-right x [] ys m = m
In-right x (y ∷ xs) ys m = inr (In-right x xs ys m)

In-cases : {A : Type 0} (x : A) (xs ys : List A) → In x (xs ++ ys) → In x xs ⊎ In x ys
In-cases x [] ys m = inr m
In-cases x (y ∷ xs) ys (inl e) = inl (inl e)
In-cases x (y ∷ xs) ys (inr m) = elim (In-cases x xs ys m) [ inl h ↦ inl (inr h) | inr h ↦ inr h ]

-- A tracked process that has not exited.
abbrev pub Running : ProcessManager → ℕ → Type 0
Running pm pid =
    (r : ℕ) × (p : TrackedProcess) × (find pm pid ≡ some (r, p)) × (is_exited p.status ≡ false)

module _ (os : StopAnswers) (pm : ProcessManager) (pid : ℕ) where
  after_kill-sigterm :
      (r : ℕ) (k : KillResult) → In (sigterm pid) (after_kill pm r pid os k).signals
  unfolding after_kill
  after_kill-sigterm r delivered = inl refl
  after_kill-sigterm r no_such_process = inl refl
  after_kill-sigterm r kill_failed = inl refl

  after_term-sigterm :
      (r : ℕ) (k : KillResult) → In (sigterm pid) (after_term pm r pid os k).signals
  unfolding after_term
  after_term-sigterm r kill_failed = inl refl
  after_term-sigterm r k = elim (Bool-cases os.done_in_time) [
    | inl h ↦ rw (after_term, h) (inl refl)
    | inr h ↦ rw (after_term, h) (after_kill-sigterm r os.kill)
  ]

  -- The signals of a process that is told to end.
  abbrev pub Signals : Signal → Type 0
  Signals sent = (sent ≡ sigterm pid) ⊎ ((sent ≡ sigkill pid) × (os.done_in_time ≡ false))

  both :
      (sent : Signal)
      → os.done_in_time ≡ false
      → In sent (sigterm pid ∷ sigkill pid ∷ [])
      → Signals sent
  both sent late (inl e) = inl e
  both sent late (inr (inl e)) = inr (e, late)
  both sent late (inr (inr m)) = absurd m

  after_kill_only :
      (r : ℕ) (k : KillResult) (sent : Signal)
      → os.done_in_time ≡ false
      → In sent (after_kill pm r pid os k).signals
      → Signals sent
  unfolding after_kill
  after_kill_only r delivered sent late m = both sent late m
  after_kill_only r no_such_process sent late m = both sent late m
  after_kill_only r kill_failed sent late m = both sent late m

  after_term_only :
      (r : ℕ) (k : KillResult) (sent : Signal)
      → In sent (after_term pm r pid os k).signals
      → Signals sent
  unfolding after_term
  after_term_only r kill_failed sent (inl e) = inl e
  after_term_only r kill_failed sent (inr m) = absurd m
  after_term_only r k sent m = elim (Bool-cases os.done_in_time) [
    | inl h ↦ elim (rw (after_term, h) at m) [ inl e ↦ inl e | inr n ↦ absurd n ]
    | inr h ↦ after_kill_only r os.kill sent h (rw (after_term, h) at m)
  ]

  module _ (seen : ProcessManager) where
    stop_found-sigterm :
        Running seen pid → In (sigterm pid) (stop_found os pm pid (find seen pid)).signals
    unfolding stop_found
    stop_found-sigterm (r, p, f, live) = rw (stop_found, f, live) (after_term-sigterm r os.term)

    -- The signals of one call of Stop.
    stop_found_only :
        (sent : Signal)
        → In sent (stop_found os pm pid (find seen pid)).signals
        → Running seen pid × Signals sent
    unfolding stop_found
    stop_found_only sent m = elim (Option-cases (find seen pid)) [
      | inl e ↦ absurd (rw (stop_found, e) at m)
      | inr ((r, p), e) ↦ elim (Bool-cases (is_exited p.status)) [
        | inl h ↦ absurd (rw (stop_found, e, h) at m)
        | inr h ↦ ((r, p, e, h), after_term_only r os.term sent (rw (stop_found, e, h) at m))
      ]
    ]

pub find-lookup :
    (pm : ProcessManager) (pid r : ℕ) (p : TrackedProcess)
    → find pm pid ≡ some (r, p)
    → lookup pid pm.processes ≡ some r
unfolding find
find-lookup pm pid r p f = elim (Option-cases (lookup pid pm.processes)) [
  | inl e ↦ absurd (ground arith)
  | inr (q, e) ↦ elim (Option-cases (pm.heap q)) [
    | inl h ↦ absurd (ground arith)
    | inr (o, h) ↦ ground arith
  ]
]

some_value : {x y : ℕ} → ◌≡◌ {A = Option ℕ} (some x) (some y) → x ≡ y
some_value e = cc

running_pids-Running :
    (heap : ℕ → Option TrackedProcess) (m : Map ℕ ℕ) (pid r : ℕ) (p : TrackedProcess)
    → lookup pid m ≡ some r
    → heap r ≡ some p
    → is_exited p.status ≡ false
    → In pid (running_pids heap m)
unfolding running_pids lookup
running_pids-Running heap [] pid r p l h live = absurd (ground arith)
running_pids-Running heap ((at, q) ∷ m) pid r p l h live = elim (Bool-cases (pid == at)) [
  | inl k ↦
      let same : pid ≡ at = ground arith in
      let held : heap q ≡ some p = rw (some_value (rw k at l)) h in
      rw (running_pids, held, live) (inl same)
  | inr k ↦
      let there : In pid (running_pids heap m) =
        running_pids-Running heap m pid r p (rw k at l) h live in
      elim (Option-cases (heap q)) [
        | inl e ↦ rw (running_pids, e) there
        | inr (o, e) ↦ elim (Bool-cases (is_exited o.status)) [
          | inl x ↦ rw (running_pids, e, x) there
          | inr x ↦ rw (running_pids, e, x) (inr there)
        ]
      ]
]

module _ (stops : ℕ → StopAnswers) (seen : ProcessManager) where
  stop_each-sigterm :
      (pm : ProcessManager) (pids : List ℕ) (pid : ℕ)
      → In pid pids
      → Running seen pid
      → In (sigterm pid) (stop_each stops seen pm pids).0
  unfolding stop_each
  stop_each-sigterm pm [] pid m live = absurd m
  stop_each-sigterm pm (at ∷ pids) pid (inl e) live =
      In-left (sigterm pid) (stop_found (stops at) pm at (find seen at)).signals _
        (rw (← e) (stop_found-sigterm (stops pid) pm pid seen live))
  stop_each-sigterm pm (at ∷ pids) pid (inr m) live =
      In-right (sigterm pid) (stop_found (stops at) pm at (find seen at)).signals _
        (stop_each-sigterm (stop_found (stops at) pm at (find seen at)).manager pids pid m live)

  stop_each_only :
      (pm : ProcessManager) (pids : List ℕ) (sent : Signal)
      → In sent (stop_each stops seen pm pids).0
      → (pid : ℕ) × Running seen pid
        × ((sent ≡ sigterm pid) ⊎ ((sent ≡ sigkill pid) × ((stops pid).done_in_time ≡ false)))
  unfolding stop_each
  stop_each_only pm [] sent m = absurd m
  stop_each_only pm (at ∷ pids) sent m =
      let one = stop_found (stops at) pm at (find seen at) in
      elim (In-cases sent one.signals (stop_each stops seen one.manager pids).0 m) [
        | inl here ↦
            let (live, q) = stop_found_only (stops at) pm at seen sent here in (at, live, q)
        | inr there ↦ stop_each_only one.manager pids sent there
      ]

  -- StopAll signals each tracked process that runs, and no other.
  pub stop_all_lem :
      ((pid : ℕ) → Running seen pid → In (sigterm pid) (stop_all stops seen).0)
      × ((sent : Signal)
          → In sent (stop_all stops seen).0
          → (pid : ℕ) × Running seen pid
            × ((sent ≡ sigterm pid) ⊎ ((sent ≡ sigkill pid) × ((stops pid).done_in_time ≡ false))))
  unfolding stop_all
  stop_all_lem = (
    λ pid live.
        let (r, p, f, x) = live in
        stop_each-sigterm seen (running_pids seen.heap seen.processes) pid
          (running_pids-Running seen.heap seen.processes pid r p (find-lookup seen pid r p f)
            (find-heap seen pid r p f) x)
          live,
    stop_each_only seen (running_pids seen.heap seen.processes),
  )
