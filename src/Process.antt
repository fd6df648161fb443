-- ===== src/Process.antt =====
-- worker/process.go: the process manager. Goroutines share the manager, the tracked processes and
-- the subscriber channels through pointers, so both have a store; a step holds the mutex.
pub mod Output
pub mod Start
pub mod Drain
pub mod Reach
pub mod Steps
pub mod Invariant
pub mod Channels
pub mod Tail
pub mod Stop
pub mod Logs
use remote_hands.Shared.{
  ℕ, suc, ◌+◌, Bool, true, false, ◌&&◌, not, List, [], ◌∷◌, ◌++◌, Option, none, some, Text, ℤ, Map,
  lookup, insert, length, ltb, ◌==◌, ℕ_eq, if◌then◌else◌, ◌≡◌, arith,
}

-- A line of output on its way to a subscriber.
pub record TailEvent : Type 0 where
  pub stdout : Bool
  pub line : Text

-- "running" or "exited"
pub data Status : Type 0 where
  running exited : Status

-- trackedProcess. `subscribers` are references to channels; `done` says that the channel `done` is
-- closed; the logs are the lines that the pipe readers have written to disk.
pub record TrackedProcess : Type 0 where
  pub pid : ℕ
  pub name : Text
  pub command : Text
  pub working_dir : Text
  pub status : Status
  pub exit_code : Option ℤ
  pub started_at : ℕ
  pub exited_at : Option ℕ
  pub subscribers : List ℕ
  pub done : Bool
  pub stdout_log : List Text
  pub stderr_log : List Text

-- A `chan tailEvent` of capacity `capacity`.
pub record Channel : Type 0 where
  pub buffer : List TailEvent
  pub closed : Bool

-- `make(chan tailEvent, 256)`
abbrev pub capacity : ℕ
capacity = 256

abbrev pub new_channel : Channel
new_channel = record { buffer = []; closed = false }

abbrev pub Channels : Type 0
Channels = ℕ → Channel

-- ProcessManager: the map `processes` from PIDs to pointers, and the stores. References below the
-- two counters are in use.
pub record ProcessManager : Type 0 where
  pub home_dir : Text
  pub log_dir : Text
  pub self_pid : ℕ
  pub processes : Map ℕ ℕ
  pub heap : ℕ → Option TrackedProcess
  pub next_process : ℕ
  pub channels : Channels
  pub next_channel_ref : ℕ

-- NewProcessManager, once the log directory exists.
unfoldable pub new_process_manager : Text → Text → ℕ → ProcessManager
new_process_manager home log self = record {
  home_dir = home;
  log_dir = log;
  self_pid = self;
  processes = [];
  heap = λ _. none;
  next_process = 0;
  channels = λ _. new_channel;
  next_channel_ref = 0;
}

abbrev pub update {ℓ} : {A : Type ℓ} → (ℕ → A) → ℕ → A → ℕ → A
update f p v q = if p == q then v else f q

-- `*p = v` for a tracked process.
abbrev pub write : ProcessManager → ℕ → TrackedProcess → ProcessManager
write pm r p = record pm { heap = update pm.heap r (some p) }

-- `proc, ok := pm.processes[pid]`
unfoldable pub find : ProcessManager → ℕ → Option (ℕ × TrackedProcess)
unfolding lookup
find pm pid = elim (lookup pid pm.processes) [
  | none ↦ none
  | some r ↦ elim (pm.heap r) [ none ↦ none | some p ↦ some (r, p) ]
]

abbrev pub is_exited : Status → Bool
is_exited exited = true
is_exited running = false

-- What a PID leads to is on the heap.
pub find-heap :
    (pm : ProcessManager) (pid r : ℕ) (p : TrackedProcess)
    → find pm pid ≡ some (r, p)
    → pm.heap r ≡ some p
unfolding find
find-heap pm pid r p e = ground arith
