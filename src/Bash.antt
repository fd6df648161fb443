-- ===== src/Bash.antt =====
-- worker/bash.go: runBash. The two readers of the pipes interleave in some order, which is an
-- argument, as is what the command leaves.
pub mod Events
pub mod Collect
use remote_hands.Shared.{
  ℕ, Bool, true, false, List, [], ◌∷◌, ◌++◌, Option, Text, ℤ, pos, is_positive, to_ℕ, is_empty, Map,
  if◌then◌else◌, Result, ok, err, Error, connect_error, invalid_argument, internal,
}
use remote_hands.Command.{Command, CmdCustomizer, build_command}
use remote_hands.Process.Output.{WaitResult, exit_code_of}
use remote_hands.Process.Start.{work_dir_error}

-- RunBashEvent
pub data RunBashEvent : Type 0 where
  stdout stderr : Text → RunBashEvent
  exit_code : ℤ → RunBashEvent

-- DefaultBashTimeout in milliseconds, and ExitCodeTimeout.
abbrev pub default_bash_timeout : ℕ
default_bash_timeout = 30000

abbrev pub exit_code_timeout : ℤ
exit_code_timeout = pos 137

-- What the command comes to: whether its pipes and its start succeed, the lines of both streams in
-- the order in which the readers come to send them, each with whether it is of stdout, whether the
-- context was done before the exit code is determined, and the answer of `cmd.Wait()`.
pub record BashRun : Type 0 where
  pub stdout_pipe : Bool
  pub stderr_pipe : Bool
  pub started : Bool
  pub lines : List (Bool × Text)
  pub timed_out : Bool
  pub wait : WaitResult

abbrev pub line_event : Bool → Text → RunBashEvent
line_event is_stdout line = if is_stdout then stdout line else stderr line

-- The stream's answer to an event, by the events that it took before.
abbrev pub Send : Type 0
Send = List RunBashEvent → RunBashEvent → Bool

-- The two readers. One whose send fails returns; `out` and `errors` say which still run.
unfoldable pub pump :
    Send → List RunBashEvent → Bool → Bool → List (Bool × Text) → List RunBashEvent
pump send sent out errors [] = sent
pump send sent out errors ((true, line) ∷ rest) =
    let delivered = pump send (sent ++ stdout line ∷ []) out errors rest in
    let failed = pump send sent false errors rest in
    let skipped = pump send sent out errors rest in
    if out then (if send sent (stdout line) then delivered else failed) else skipped
pump send sent out errors ((false, line) ∷ rest) =
    let delivered = pump send (sent ++ stderr line ∷ []) out errors rest in
    let failed = pump send sent out false rest in
    let skipped = pump send sent out errors rest in
    if errors then (if send sent (stderr line) then delivered else failed) else skipped

unfoldable pub bash_exit_code : BashRun → ℤ
bash_exit_code r = if r.timed_out then exit_code_timeout else exit_code_of r.wait

-- A request's answer, with the events that the stream took.
abbrev pub Streamed : Type 0
Streamed = Result Error (Unit {0}) × List RunBashEvent

-- The final event.
unfoldable pub send_exit_code : Send → List RunBashEvent → ℤ → Streamed
send_exit_code send sent code =
    if send sent (exit_code code)
    then (ok tt, sent ++ exit_code code ∷ [])
    else (err (connect_error internal "failed to send exit code: %w"), sent)

-- From the pipes on.
unfoldable pub run_command : Send → BashRun → Streamed
unfolding pump bash_exit_code send_exit_code
run_command send r =
    if r.stdout_pipe
    then if r.stderr_pipe
      then if r.started
        then send_exit_code send (pump send [] true true r.lines) (bash_exit_code r)
        else (err (connect_error internal "failed to start command: %w"), [])
      else (err (connect_error internal "failed to create stderr pipe: %w"), [])
    else (err (connect_error internal "failed to create stdout pipe: %w"), [])

unfoldable pub bash_timeout : ℤ → ℕ
bash_timeout timeout_ms = if is_positive timeout_ms then to_ℕ timeout_ms else default_bash_timeout

-- runBash. `validate` is `ValidatePath` on the service's home directory; `run` is what the command
-- comes to under a timeout in milliseconds.
unfoldable pub run_bash :
    Option CmdCustomizer
    → List Text
    → (Text → Result Error Text)
    → (Command → ℕ → BashRun)
    → Send
    → Text
    → ℤ
    → Map Text Text
    → Text
    → Streamed
unfolding run_command bash_timeout build_command
run_bash customizer environ validate run send command timeout_ms env working_dir =
    if is_empty command
    then (err (connect_error invalid_argument "command is required"), [])
    else elim (validate working_dir) [
      | err e ↦ (err (work_dir_error e), [])
      | ok abs_work_dir ↦ run_command send (
          run (build_command customizer environ command abs_work_dir env) (bash_timeout timeout_ms))
    ]
