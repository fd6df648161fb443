-- ===== src/Examples/Processes.antt =====
-- A process that is started, tailed, and exits.
use remote_hands.Shared.{
  ℕ, ◌≡◌, refl, true, false, List, [], ◌∷◌, ◌++◌, map, none, some, codes, ok, arith, pos, lookup,
}
use remote_hands.Process.{
  TailEvent, TrackedProcess, running, exited, ProcessManager, new_process_manager, find,
  new_channel, update,
}
use remote_hands.Process.Output.{exit_error}
use remote_hands.Process.Start.{track}
use remote_hands.Process.Tail.{subscribe, tail_event, exit_code}
use remote_hands.Process.Stop.Ended.{stop_lem}
use remote_hands.Process.Stop.{stop, StopAnswers, delivered}
use remote_hands.Process.Invariant.{Inv}
use remote_hands.Process.Reach.{Reachable, new_manager, next, started, subscribed, Reachable-Inv}
use remote_hands.Process.Drain.{tail_loop, tail_loop-drains}

abbrev empty_manager : ProcessManager
empty_manager = new_process_manager (codes "/data/u") (codes "/logs") 1

abbrev one_process : ProcessManager
one_process = track empty_manager 7 (codes "web") (codes "serve") (codes "/data/u") 100

abbrev tailed : ProcessManager
tailed = (subscribe one_process 7).1

tailed-Reachable : Reachable (codes "/data/u") (codes "/logs") 1 tailed
tailed-Reachable =
    next (next new_manager (started 7 (codes "web") (codes "serve") (codes "/data/u") 100))
      (subscribed 7)

Reachable-Inv_example : Inv tailed
Reachable-Inv_example = Reachable-Inv tailed-Reachable

abbrev web : List ℕ → TrackedProcess
web subs = record {
  pid = 7;
  name = codes "web";
  command = codes "serve";
  working_dir = codes "/data/u";
  status = running;
  exit_code = none;
  started_at = 100;
  exited_at = none;
  subscribers = subs;
  done = false;
  stdout_log = [];
  stderr_log = [];
}

-- The process has written a line and exited with code 0; its subscriber holds the line still.
abbrev ready : TailEvent
ready = record { stdout = true; line = codes "ready" }

abbrev ended : TrackedProcess
ended = record (web []) {
  status = exited;
  exit_code = some (pos 0);
  exited_at = some 101;
  done = true;
}

abbrev after_exit : ProcessManager
after_exit = record empty_manager {
  processes = (7, 0) ∷ [];
  heap = update (λ _. none) 0 (some ended);
  next_process = 1;
  channels = update (λ _. new_channel) 0 (record { buffer = ready ∷ []; closed = true });
  next_channel_ref = 1;
}

tail_loop-drains_example :
    tail_loop (λ n. false) (λ e. true) 2 after_exit 0 0
    ≡ (map tail_event (ready ∷ []) ++ exit_code (pos 0) ∷ [], some (ok tt))
tail_loop-drains_example =
    tail_loop-drains (λ n. false) (λ e. true) 2 after_exit 0 0 ended (pos 0) (ready ∷ [])
      (λ n. refl) (λ e. refl) refl refl refl refl (omega arith)

-- A process that does not act on SIGTERM.
abbrev pub stubborn : StopAnswers
stubborn = record {
  term = delivered;
  done_in_time = false;
  kill = delivered;
  wait = exit_error (pos 137);
  now = 200;
}

run_stop : (stop stubborn tailed 7).result ≡ ok tt
unfolding stop find lookup subscribe track new_process_manager
run_stop = refl

stop_lem_example :
    (r : ℕ) × (p q : TrackedProcess) × (find tailed 7 ≡ some (r, p))
    × (p.status ≡ running)
    × (find (stop stubborn tailed 7).manager 7 ≡ some (r, q))
    × (q.status ≡ exited)
    × (q.exit_code ≡ some (pos 137))
    × (q.done ≡ true)
stop_lem_example = stop_lem stubborn 7 tailed-Reachable run_stop
