-- ===== src/Process/Output.antt =====
-- worker/process.go: the goroutines behind a running process: `pipeReader` and `waitForExit`.
-- `none` is a panic of the Go runtime: a send on a closed channel, or a second `close`.
use remote_hands.Shared.{
  ℕ, Bool, true, List, [], ◌∷◌, ◌++◌, Option, none, some, Text, ℤ, length, ltb, if◌then◌else◌, pos,
}
use remote_hands.Process.{
  TailEvent, exited, TrackedProcess, Channels, capacity, ProcessManager, update, write,
}

infixl 5 ◌>>=◌
abbrev ◌>>=◌ {ℓ κ} : {S : Type ℓ} {T : Type κ} → Option S → (S → Option T) → Option T
some x >>= next = next x
none >>= next = none

-- `select { case ch <- evt: default: }`
unfoldable pub try_send : Channels → ℕ → TailEvent → Option Channels
try_send chans ch evt =
    if (chans ch).closed
    then none
    else if ltb (length (chans ch).buffer) capacity
    then some (update chans ch (record (chans ch) { buffer = (chans ch).buffer ++ evt ∷ [] }))
    else some chans

-- `for _, ch := range proc.subscribers`
unfoldable pub fan_out : TailEvent → List ℕ → Channels → Option Channels
unfolding try_send
fan_out evt [] chans = some chans
fan_out evt (ch ∷ subs) chans = try_send chans ch evt >>= fan_out evt subs

-- `fmt.Fprintln(logFile, line)`
abbrev pub log_line : Bool → Text → TrackedProcess → TrackedProcess
log_line is_stdout line p = record p {
  stdout_log = if is_stdout then p.stdout_log ++ line ∷ [] else p.stdout_log;
  stderr_log = if is_stdout then p.stderr_log else p.stderr_log ++ line ∷ [];
}

-- One round of pipeReader's loop.
unfoldable pub read_line : ProcessManager → ℕ → Bool → Text → Option ProcessManager
unfolding fan_out
read_line pm r is_stdout line = do
  p ← pm.heap r
  chans ← fan_out (record { stdout = is_stdout; line = line }) p.subscribers pm.channels
  some (record (write pm r (log_line is_stdout line p)) { channels = chans })

-- `close(ch)` for each subscriber.
unfoldable pub close_all : List ℕ → Channels → Option Channels
close_all [] chans = some chans
close_all (ch ∷ subs) chans =
    let rest = close_all subs (update chans ch (record (chans ch) { closed = true })) in
    if (chans ch).closed then none else rest

-- What `cmd.Wait()` returns: nil, an `*exec.ExitError` with its code, or another error.
pub data WaitResult : Type 0 where
  success : WaitResult
  exit_error : ℤ → WaitResult
  wait_failed : WaitResult

abbrev pub exit_code_of : WaitResult → ℤ
exit_code_of success = pos 0
exit_code_of (exit_error code) = code
exit_code_of wait_failed = pos 1

-- waitForExit, behind `cmd.Wait()`, while it holds the mutex.
unfoldable pub wait_for_exit : ProcessManager → ℕ → WaitResult → ℕ → Option ProcessManager
unfolding close_all
wait_for_exit pm r result now = do
  p ← pm.heap r
  chans ← close_all p.subscribers pm.channels
  some
      (record (write pm r (record p {
        status = exited;
        exit_code = some (exit_code_of result);
        exited_at = some now;
        subscribers = [];
      })) { channels = chans })

-- `close(proc.done)`, behind the mutex.
unfoldable pub close_done : ProcessManager → ℕ → Option ProcessManager
close_done pm r = do
  p ← pm.heap r
  if p.done then none else some (write pm r (record p { done = true }))
