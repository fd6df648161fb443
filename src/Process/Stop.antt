-- ===== src/Process/Stop.antt =====
-- worker/process.go: `Stop`, `List` and `StopAll`. `Stop` waits for the goroutine of the process, whose
-- last steps are run here; the steps of other goroutines come before or behind it.
pub mod Signals
pub mod Reached
pub mod Ended
use remote_hands.Shared.{
  ℕ, Bool, ◌&&◌, not, List, [], ◌∷◌, ◌++◌, Option, none, some, Text, ℤ, Map, ◌==◌, ℕ_eq,
  if◌then◌else◌, ok, err, connect_error, not_found, failed_precondition, internal,
}
use remote_hands.Process.{TrackedProcess, Status, ProcessManager, find, is_exited}
use remote_hands.Process.Output.{WaitResult, wait_for_exit, close_done}
use remote_hands.Process.Start.{Signal, sigterm, sigkill, Outcome}

-- How `syscall.Kill` answers: nil, ESRCH, or another error.
pub data KillResult : Type 0 where
  delivered no_such_process kill_failed : KillResult

-- The two calls of `Kill`, whether the process is done within the grace period, and what its exit
-- is recorded with.
pub record StopAnswers : Type 0 where
  pub term : KillResult
  pub done_in_time : Bool
  pub kill : KillResult
  pub wait : WaitResult
  pub now : ℕ

-- The exit of a process, as its own wait goroutine records it under the mutex.
unfoldable pub recorded : ProcessManager → ℕ → StopAnswers → ProcessManager
unfolding wait_for_exit
recorded pm r os = elim (pm.heap r) [
  | none ↦ pm
  | some p ↦
      if is_exited p.status
      then pm
      else elim (wait_for_exit pm r os.wait os.now) [ none ↦ pm | some pm' ↦ pm' ]
]

-- `done`, closed by the wait goroutine unless it is closed already.
unfoldable pub closed_done_of : ProcessManager → ℕ → ProcessManager
unfolding close_done
closed_done_of pm r = elim (pm.heap r) [
  | none ↦ pm
  | some p ↦
      if is_exited p.status then elim (close_done pm r) [ none ↦ pm | some pm' ↦ pm' ] else pm
]

-- `<-proc.done`: what the wait goroutine of the process has left when the channel is closed.
unfoldable pub await_done : ProcessManager → ℕ → StopAnswers → ProcessManager
unfolding recorded closed_done_of
await_done pm r os = closed_done_of (recorded pm r os) r

after_kill : ProcessManager → ℕ → ℕ → StopAnswers → KillResult → Outcome (Unit {0})
unfolding await_done
after_kill pm r pid os kill_failed = record {
  result = err (connect_error internal "failed to send SIGKILL: %w");
  signals = sigterm pid ∷ sigkill pid ∷ [];
  manager = pm;
}
after_kill pm r pid os _ = record {
  result = ok tt;
  signals = sigterm pid ∷ sigkill pid ∷ [];
  manager = await_done pm r os;
}

after_term : ProcessManager → ℕ → ℕ → StopAnswers → KillResult → Outcome (Unit {0})
unfolding after_kill await_done
after_term pm r pid os kill_failed = record {
  result = err (connect_error internal "failed to send SIGTERM: %w");
  signals = sigterm pid ∷ [];
  manager = pm;
}
after_term pm r pid os _ =
    if os.done_in_time
    then record { result = ok tt; signals = sigterm pid ∷ []; manager = await_done pm r os }
    else after_kill pm r pid os os.kill

-- Stop, on what the PID led to when it was looked up.
unfoldable pub stop_found :
    StopAnswers → ProcessManager → ℕ → Option (ℕ × TrackedProcess) → Outcome (Unit {0})
unfolding after_term
stop_found os pm pid found = elim found [
  | none ↦ record {
    result = err (connect_error not_found "process %d not found");
    signals = [];
    manager = pm;
  }
  | some (r, p) ↦
      if is_exited p.status
      then record {
        result = err (connect_error failed_precondition "process %d has already exited");
        signals = [];
        manager = pm;
      }
      else after_term pm r pid os os.term
]

-- Stop
unfoldable pub stop : StopAnswers → ProcessManager → ℕ → Outcome (Unit {0})
unfolding stop_found
stop os pm pid = stop_found os pm pid (find pm pid)

-- ProcessInfo
pub record ProcessInfo : Type 0 where
  pub pid : ℕ
  pub name : Text
  pub command : Text
  pub working_dir : Text
  pub status : Status
  pub exit_code : Option ℤ
  pub started_at : ℕ
  pub exited_at : Option ℕ

abbrev pub info_of : TrackedProcess → ProcessInfo
info_of p = record {
  pid = p.pid;
  name = p.name;
  command = p.command;
  working_dir = p.working_dir;
  status = p.status;
  exit_code = p.exit_code;
  started_at = p.started_at;
  exited_at = p.exited_at;
}

-- The two `continue`s of List.
abbrev pub is_listed : ℕ → Bool → TrackedProcess → Bool
is_listed self_pid include_exited p =
    not (p.pid == self_pid) && not (not include_exited && is_exited p.status)

unfoldable pub list_entries : (ℕ → Option TrackedProcess) → ℕ → Bool → Map ℕ ℕ → List ProcessInfo
list_entries heap self_pid include_exited [] = []
list_entries heap self_pid include_exited ((_, r) ∷ m) =
    let rest = list_entries heap self_pid include_exited m in
    elim (heap r) [
      | none ↦ rest
      | some p ↦ if is_listed self_pid include_exited p then info_of p ∷ rest else rest
    ]

-- List
unfoldable pub list : ProcessManager → Bool → List ProcessInfo
unfolding list_entries
list pm include_exited = list_entries pm.heap pm.self_pid include_exited pm.processes

-- The PIDs that StopAll collects under the lock.
unfoldable pub running_pids : (ℕ → Option TrackedProcess) → Map ℕ ℕ → List ℕ
running_pids heap [] = []
running_pids heap ((pid, r) ∷ m) =
    let rest = running_pids heap m in
    elim (heap r) [ none ↦ rest | some p ↦ if is_exited p.status then rest else pid ∷ rest ]

-- The goroutines of StopAll, which look their processes up in the same state and wait one after
-- another.
stop_each :
    (ℕ → StopAnswers) → ProcessManager → ProcessManager → List ℕ → List Signal × ProcessManager
unfolding stop_found
stop_each os seen pm [] = ([], pm)
stop_each os seen pm (pid ∷ pids) =
    let one = stop_found (os pid) pm pid (find seen pid) in
    let rest = stop_each os seen one.manager pids in (one.signals ++ rest.0, rest.1)

-- StopAll: a `Stop` for each running process; the goroutines' signals are listed one after another,
-- their errors are only logged.
unfoldable pub stop_all : (ℕ → StopAnswers) → ProcessManager → List Signal × ProcessManager
unfolding running_pids stop_each
stop_all os pm = stop_each os pm pm (running_pids pm.heap pm.processes)
