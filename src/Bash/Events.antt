-- ===== src/Bash/Events.antt =====
-- worker/bash.go: the events that `runBash` streams.
use remote_hands.Shared.{
  ℕ, ◌≡◌, refl, sym, ◌∙◌, Bool, true, false, List, [], ◌∷◌, ◌++◌, append-nil, append_assoc, map,
  Option, Text, ℤ, pos, Map, arith, Result, ok, Error, Result-cases, Bool-cases, inl, inr,
}
use remote_hands.Command.{Command, CmdCustomizer, build_command}
use remote_hands.Process.Output.{WaitResult, success, exit_error, wait_failed, exit_code_of}
use remote_hands.Bash.{
  RunBashEvent, stdout, stderr, exit_code, BashRun, line_event, Send, pump, bash_exit_code,
  send_exit_code, run_command, bash_timeout, run_bash,
}

-- Events that are lines of a list, in its order; some of the lines may be left out.
pub data Kept : List (Bool × Text) → List RunBashEvent → Type 0 where
  nothing : Kept [] []
  passed :
      {line : Bool × Text} {lines : List (Bool × Text)} {events : List RunBashEvent}
      → Kept lines events
      → Kept (line ∷ lines) events
  from_stdout :
      {line : Text} {lines : List (Bool × Text)} {events : List RunBashEvent}
      → Kept lines events
      → Kept ((true, line) ∷ lines) (stdout line ∷ events)
  from_stderr :
      {line : Text} {lines : List (Bool × Text)} {events : List RunBashEvent}
      → Kept lines events
      → Kept ((false, line) ∷ lines) (stderr line ∷ events)

-- What the readers add to what the stream has taken.
abbrev Pumped : List (Bool × Text) → List RunBashEvent → List RunBashEvent → Type 0
Pumped lines sent all = (more : List RunBashEvent) × Kept lines more × (all ≡ sent ++ more)

Pumped-passed :
    {line : Bool × Text} {lines : List (Bool × Text)} (sent : List RunBashEvent)
    {all : List RunBashEvent}
    → Pumped lines sent all
    → Pumped (line ∷ lines) sent all
Pumped-passed sent (more, k, e) = (more, passed k, e)

pump-Kept :
    (send : Send) (sent : List RunBashEvent) (out errors : Bool) (lines : List (Bool × Text))
    → Pumped lines sent (pump send sent out errors lines)
unfolding pump
pump-Kept send sent out errors [] = ([], nothing, sym (append-nil sent))
pump-Kept send sent out errors ((true, line) ∷ rest) = elim (Bool-cases out) [
  | inr o ↦ rw (pump, o) (Pumped-passed sent (pump-Kept send sent false errors rest))
  | inl o ↦ elim (Bool-cases (send sent (stdout line))) [
    | inr t ↦ rw (pump, o, t) (Pumped-passed sent (pump-Kept send sent false errors rest))
    | inl t ↦
        let (more, k, e) = pump-Kept send (sent ++ stdout line ∷ []) true errors rest in
        rw (pump, o, t)
          (stdout line ∷ more, from_stdout k, e ∙ append_assoc sent (stdout line ∷ []) more)
  ]
]
pump-Kept send sent out errors ((false, line) ∷ rest) = elim (Bool-cases errors) [
  | inr o ↦ rw (pump, o) (Pumped-passed sent (pump-Kept send sent out false rest))
  | inl o ↦ elim (Bool-cases (send sent (stderr line))) [
    | inr t ↦ rw (pump, o, t) (Pumped-passed sent (pump-Kept send sent out false rest))
    | inl t ↦
        let (more, k, e) = pump-Kept send (sent ++ stderr line ∷ []) out true rest in
        rw (pump, o, t)
          (stderr line ∷ more, from_stderr k, e ∙ append_assoc sent (stderr line ∷ []) more)
  ]
]

run_command_ok :
    (send : Send) (r : BashRun) (events : List RunBashEvent)
    → run_command send r ≡ (ok tt, events)
    → events ≡ pump send [] true true r.lines ++ exit_code (bash_exit_code r) ∷ []
unfolding run_command send_exit_code
run_command_ok send r events e = ground arith

-- What `cmd.Wait()` says of the exit code.
pub data Waited : WaitResult → ℤ → Type 0 where
  succeeded : Waited success (pos 0)
  exited_with : (code : ℤ) → Waited (exit_error code) code
  not_waited : Waited wait_failed (pos 1)

exit_code_of-Waited : (w : WaitResult) → Waited w (exit_code_of w)
exit_code_of-Waited success = succeeded
exit_code_of-Waited (exit_error code) = exited_with code
exit_code_of-Waited wait_failed = not_waited

-- The exit code of a run: 137 if it timed out, or else 0 for a success, the code that the command
-- exited with, or 1 if the wait for it failed.
pub data ExitCode (r : BashRun) : ℤ → Type 0 where
  late : r.timed_out ≡ true → ExitCode r (pos 137)
  in_time : {code : ℤ} → r.timed_out ≡ false → Waited r.wait code → ExitCode r code

bash_exit_code-ExitCode : (r : BashRun) → ExitCode r (bash_exit_code r)
unfolding bash_exit_code
bash_exit_code-ExitCode r = elim (Bool-cases r.timed_out) [
  | inl h ↦ let code : bash_exit_code r ≡ pos 137 = rw (bash_exit_code, h) refl in rw code (late h)
  | inr h ↦
      let code : bash_exit_code r ≡ exit_code_of r.wait = rw (bash_exit_code, h) refl in
      rw code (in_time h (exit_code_of-Waited r.wait))
]

-- A finished stream: the directory was validated, the command ran in a process group of its own,
-- and the events are lines that the command wrote, in order, followed by one exit code.
pub record Finished (validate : Text → Result Error Text) (ran : Text → BashRun)
    (grouped : Text → Bool) (working_dir : Text) (events : List RunBashEvent) : Type 0 where
  pub work_dir : Text
  pub valid : validate working_dir ≡ ok work_dir
  pub own_group : grouped work_dir ≡ true
  pub lines : List RunBashEvent
  pub code : ℤ
  pub written : Kept (ran work_dir).lines lines
  pub ends : events ≡ lines ++ exit_code code ∷ []
  pub coded : ExitCode (ran work_dir) code

module _ (customizer : Option CmdCustomizer) (environ : List Text)
    (validate : Text → Result Error Text) (run : Command → ℕ → BashRun) (send : Send)
    (command : Text) (timeout_ms : ℤ) (env : Map Text Text) (working_dir : Text) where
  -- The command that runs in a directory.
  abbrev pub the_command : Text → Command
  the_command work_dir = build_command customizer environ command work_dir env

  abbrev pub the_run : Text → BashRun
  the_run work_dir = run (the_command work_dir) (bash_timeout timeout_ms)

  -- Whenever `runBash` returns without an error, the working directory was validated, the command
  -- ran in a process group of its own, whatever the customizer did, and the events that the stream
  -- took are lines that the command wrote, in the readers' order, followed by one exit code: 137 if it
  -- timed out, or else 0, the command's own, or 1 if the wait for it failed.
  pub run_bash-Finished :
      (events : List RunBashEvent)
      → run_bash customizer environ validate run send command timeout_ms env working_dir
        ≡ (ok tt, events)
      → Finished validate the_run (λ d. (the_command d).setpgid) working_dir events
  unfolding run_bash build_command
  run_bash-Finished events e = elim (Result-cases (validate working_dir)) [
    | inr (x, v) ↦ absurd (ground arith)
    | inl (dir, v) ↦ record {
      work_dir = dir;
      valid = v;
      own_group = refl;
      lines = pump send [] true true (the_run dir).lines;
      code = bash_exit_code (the_run dir);
      written = let (more, k, same) = pump-Kept send [] true true (the_run dir).lines in rw same k;
      ends = run_command_ok send (the_run dir) events (ground arith);
      coded = bash_exit_code-ExitCode (the_run dir);
    }
  ]

pump_all :
    (send : Send) (sent : List RunBashEvent) (lines : List (Bool × Text))
    → ((before : List RunBashEvent) (e : RunBashEvent) → send before e ≡ true)
    → pump send sent true true lines ≡ sent ++ map (λ (o, line). line_event o line) lines
unfolding pump
pump_all send sent [] h = sym (append-nil sent)
pump_all send sent ((true, line) ∷ rest) h =
    rw (h sent (stdout line))
      (pump_all send (sent ++ stdout line ∷ []) rest h ∙ append_assoc sent (stdout line ∷ []) _)
pump_all send sent ((false, line) ∷ rest) h =
    rw (h sent (stderr line))
      (pump_all send (sent ++ stderr line ∷ []) rest h ∙ append_assoc sent (stderr line ∷ []) _)

-- When the command starts and the stream takes every event, `runBash` returns without an error, and
-- the stream took every line of both pipes, in the order of the readers, and the exit code.
pub run_command_all :
    (send : Send) (r : BashRun)
    → ((before : List RunBashEvent) (e : RunBashEvent) → send before e ≡ true)
    → r.stdout_pipe ≡ true
    → r.stderr_pipe ≡ true
    → r.started ≡ true
    → run_command send r
      ≡ (ok tt, map (λ (o, line). line_event o line) r.lines ++ exit_code (bash_exit_code r) ∷ [])
unfolding run_command send_exit_code
run_command_all send r h o p st =
    rw
      (
        o,
        p,
        st,
        pump_all send [] r.lines h,
        h (map (λ (o, line). line_event o line) r.lines) (exit_code (bash_exit_code r)),
      )
      refl
