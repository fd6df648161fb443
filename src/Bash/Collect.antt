-- ===== src/Bash/Collect.antt =====
-- mcptools/direct_ops.go: RunBash, which collects the stream of `runBash` for the agent.
use remote_hands.Shared.{
  ◌≡◌, refl, ap, ◌∙◌, Bool, true, false, List, [], ◌∷◌, ◌++◌, append-nil, append_assoc, map, Text,
  ℤ, pos, Option, none, some, Result, ok, err, Error, plain,
}
use remote_hands.Bash.{
  RunBashEvent, stdout, stderr, exit_code, BashRun, line_event, Send, bash_exit_code, run_command,
}
use remote_hands.Bash.Events.{run_command_all}

-- BashResult
pub record BashResult : Type 0 where
  pub stdout : Text
  pub stderr : Text
  pub exit_code : ℤ

abbrev pub no_output : BashResult
no_output = record { stdout = []; stderr = []; exit_code = pos 0 }

-- The switch on one event.
unfoldable pub collect_event : BashResult → RunBashEvent → BashResult
collect_event r (stdout line) = record r { stdout = r.stdout ++ line }
collect_event r (stderr line) = record r { stderr = r.stderr ++ line }
collect_event r (exit_code code) = record r { exit_code = code }

unfoldable pub collect : BashResult → List RunBashEvent → BashResult
unfolding collect_event
collect r [] = r
collect r (e ∷ es) = collect (collect_event r e) es

-- RunBash of DirectOps, on what the stream yields and how it ends.
unfoldable pub collect_stream : List RunBashEvent → Option Error → Result Error BashResult
unfolding collect
collect_stream events none = ok (collect no_output events)
collect_stream events (some e) = err (plain "run bash stream: %w")

-- The lines of one of the streams, one behind another.
abbrev pub lines_of : Bool → List (Bool × Text) → Text
lines_of wanted [] = []
lines_of true ((true, line) ∷ rest) = line ++ lines_of true rest
lines_of true ((false, line) ∷ rest) = lines_of true rest
lines_of false ((true, line) ∷ rest) = lines_of false rest
lines_of false ((false, line) ∷ rest) = line ++ lines_of false rest

collect-lines :
    (r : BashResult) (lines : List (Bool × Text)) (code : ℤ)
    → collect r (map (λ (o, line). line_event o line) lines ++ exit_code code ∷ []) ≡ record {
      stdout = r.stdout ++ lines_of true lines;
      stderr = r.stderr ++ lines_of false lines;
      exit_code = code;
    }
unfolding collect collect_event
collect-lines r [] code = rw (append-nil r.stdout, append-nil r.stderr) refl
collect-lines r ((true, line) ∷ rest) code =
    collect-lines (record r { stdout = r.stdout ++ line }) rest code
    ∙ rw (append_assoc r.stdout line (lines_of true rest)) refl
collect-lines r ((false, line) ∷ rest) code =
    collect-lines (record r { stderr = r.stderr ++ line }) rest code
    ∙ rw (append_assoc r.stderr line (lines_of false rest)) refl

-- When the command starts, the server's stream takes every event and reaches the client whole, the
-- agent is given the exit code of the run and, of both streams, the lines one behind another with
-- nothing between them: the line ends are lost.
pub collect_stream-run_command :
    (send : Send) (r : BashRun)
    → ((before : List RunBashEvent) (e : RunBashEvent) → send before e ≡ true)
    → r.stdout_pipe ≡ true
    → r.stderr_pipe ≡ true
    → r.started ≡ true
    → collect_stream (run_command send r).1 none
      ≡ ok (record {
        stdout = lines_of true r.lines;
        stderr = lines_of false r.lines;
        exit_code = bash_exit_code r;
      })
unfolding collect_stream
collect_stream-run_command send r h o p st =
    rw (run_command_all send r h o p st)
      (ap (λ b. ok b) (collect-lines no_output r.lines (bash_exit_code r)))
