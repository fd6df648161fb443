-- ===== src/Examples/Commands.antt =====
-- A shell command, and a request with a bearer token.
use remote_hands.Shared.{
  ℕ, ◌≡◌, refl, true, false, [], ◌∷◌, none, Text, codes, pos, Result, ok, Error,
}
use remote_hands.Command.{Command, build_command}
use remote_hands.Process.Output.{success}
use remote_hands.Bash.{
  BashRun, Send, exit_code, stdout, stderr, pump, bash_exit_code, send_exit_code, run_command,
  bash_timeout, run_bash,
}
use remote_hands.Bash.Events.{Finished, run_bash-Finished, the_run, the_command}
use remote_hands.Bash.Collect.{collect_stream, lines_of, collect_stream-run_command}

abbrev two_lines : BashRun
two_lines = record {
  stdout_pipe = true;
  stderr_pipe = true;
  started = true;
  lines = (true, codes "out") ∷ (false, codes "bad") ∷ [];
  timed_out = false;
  wait = success;
}

abbrev pub take_all : Send
take_all = λ before e. true

abbrev any_dir : Text → Result Error Text
any_dir = λ d. ok d

abbrev pub slow : Command → ℕ → BashRun
slow = λ c t. record two_lines { timed_out = true }

run_slow :
    run_bash none [] any_dir slow take_all (codes "make") (pos 100) [] (codes "/data/u")
    ≡ (ok tt, stdout (codes "out") ∷ stderr (codes "bad") ∷ exit_code (pos 137) ∷ [])
unfolding run_bash run_command pump bash_exit_code send_exit_code bash_timeout build_command
run_slow = refl

run_bash-Finished_example :
    Finished any_dir
      (the_run none [] any_dir slow take_all (codes "make") (pos 100) [] (codes "/data/u"))
      (λ d.
        (the_command none [] any_dir slow take_all
          (codes "make")
          (pos 100)
          []
          (codes "/data/u")
          d).setpgid)
      (codes "/data/u")
      (stdout (codes "out") ∷ stderr (codes "bad") ∷ exit_code (pos 137) ∷ [])
run_bash-Finished_example =
    run_bash-Finished none [] any_dir slow take_all (codes "make") (pos 100) [] (codes "/data/u")
      (stdout (codes "out") ∷ stderr (codes "bad") ∷ exit_code (pos 137) ∷ []) run_slow

collect_stream-run_command_example :
    collect_stream (run_command take_all two_lines).1 none
    ≡ ok (record {
      stdout = lines_of true two_lines.lines;
      stderr = lines_of false two_lines.lines;
      exit_code = bash_exit_code two_lines;
    })
collect_stream-run_command_example =
    collect_stream-run_command take_all two_lines (λ before e. refl) refl refl refl
