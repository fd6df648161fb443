-- ===== src/Process/Start.antt =====
-- worker/process.go: `Start`.
use remote_hands.Shared.{
  ℕ, suc, Bool, false, List, [], ◌∷◌, Option, none, some, Text, Map, insert, if◌then◌else◌,
  is_empty, Result, ok, err, Error, path_traversal, connect_error, invalid_argument,
  permission_denied, internal, ℕ_eq,
}
use remote_hands.Process.{ProcessManager, running, write}
use remote_hands.Command.{Command, CmdCustomizer, build_command}

-- What the calls of the operating system answer, in the order in which they are made: the two
-- pipes, `cmd.Start()` with the PID, and the two log files; and the time.
pub record Launch : Type 0 where
  pub stdout_pipe : Bool
  pub stderr_pipe : Bool
  pub start : Command → Option ℕ
  pub stdout_log : Bool
  pub stderr_log : Bool
  pub now : ℕ

-- `syscall.Kill(-pid, sig)`
pub data Signal : Type 0 where
  sigterm sigkill : ℕ → Signal

-- A result with the signals sent and the state left.
pub record Outcome {ℓ} (A : Type ℓ) : Type ℓ where
  pub result : Result Error A
  pub signals : List Signal
  pub manager : ProcessManager

abbrev refuse {ℓ} : {A : Type ℓ} → ProcessManager → Error → List Signal → Outcome A
refuse pm e sent = record { result = err e; signals = sent; manager = pm }

-- The registration of a started process.
unfoldable pub track : ProcessManager → ℕ → Text → Text → Text → ℕ → ProcessManager
unfolding insert
track pm pid name command work_dir now = record pm {
  processes = insert pid pm.next_process pm.processes;
  next_process = suc pm.next_process;
  heap =
      (write pm pm.next_process (record {
        pid = pid;
        name = name;
        command = command;
        working_dir = work_dir;
        status = running;
        exit_code = none;
        started_at = now;
        exited_at = none;
        subscribers = [];
        done = false;
        stdout_log = [];
        stderr_log = [];
      })).heap;
}

-- Everything behind the validation of the working directory.
unfoldable pub launch : ProcessManager → Launch → Command → Text → Text → Text → Outcome ℕ
unfolding track
launch pm os cmd name command work_dir =
    if os.stdout_pipe
    then if os.stderr_pipe
      then elim (os.start cmd) [
        | none ↦ refuse pm (connect_error internal "failed to start command: %w") []
        | some pid ↦
            if os.stdout_log
            then if os.stderr_log
              then record {
                result = ok pid;
                signals = [];
                manager = track pm pid name command work_dir os.now;
              }
              else refuse pm (connect_error internal "failed to create stderr log file: %w")
                  (sigkill pid ∷ [])
            else refuse pm (connect_error internal "failed to create stdout log file: %w")
                (sigkill pid ∷ [])
      ]
      else refuse pm (connect_error internal "failed to create stderr pipe: %w") []
    else refuse pm (connect_error internal "failed to create stdout pipe: %w") []

-- The working directory's errors, as `Start` and `runBash` report them.
abbrev pub work_dir_error : Error → Error
work_dir_error path_traversal =
    connect_error permission_denied "working directory path traversal: %w"
work_dir_error _ = connect_error internal "failed to validate working directory: %w"

-- Start. `validate` is `ValidatePath` on the manager's home directory.
unfoldable pub start :
    Option CmdCustomizer
    → List Text
    → (Text → Result Error Text)
    → Launch
    → ProcessManager
    → Text
    → Text
    → Map Text Text
    → Text
    → Outcome ℕ
unfolding launch build_command
start customizer environ validate os pm command name env working_dir =
    if is_empty command
    then refuse pm (connect_error invalid_argument "command is required") []
    else elim (validate working_dir) [
      | err e ↦ refuse pm (work_dir_error e) []
      | ok abs_work_dir ↦
          launch pm os (build_command customizer environ command abs_work_dir env) name command
            abs_work_dir
    ]
