-- ===== src/Examples/Serving.antt =====
-- A service over a small file system, and a server in front of it.
use remote_hands.Process.Start.{Signal, sigterm, sigkill}
use remote_hands.Process.Stop.Signals.{In, Running}
use remote_hands.Service.Shutdown.{close_lem}
use remote_hands.Shared.{
  ◌≡◌, ◌⊎◌, ℕ, false, refl, true, List, [], ◌∷◌, none, some, Text, codes, pos, ok,
}
use remote_hands.Grpc.{missing}
use remote_hands.Serving.{ServerFlags, ServerConfig, Arrival, Getenv, server_config, serve_arrivals}
use remote_hands.Serving.Guarded.{authorized, filled, serve_arrivals-authorized}
use remote_hands.Service.{
  Environment, Answers, Service, service_of, write_file_request, process_start_request,
}
use remote_hands.Service.Handlers.{handle, close}
use remote_hands.Service.Invariant.{
  ReachableService, ServiceOk, created, later, handled, ReachableService-ServiceOk,
}
use remote_hands.Git.{User}
use remote_hands.Git.Remote.{Credentials}
use remote_hands.Process.{new_process_manager}
use remote_hands.Examples.Box.{box, link}
use remote_hands.Examples.Diffing.{one_changed, whole_diff}
use remote_hands.Examples.Browsing.{text_rod}
use remote_hands.Examples.Clients.{empty_page}
use remote_hands.Examples.Watching.{all_files, start}
use remote_hands.Examples.Commands.{take_all, slow}
use remote_hands.Examples.Processes.{stubborn}

abbrev pub box_environment : Environment
box_environment = record {
  os = box;
  git = one_changed;
  diff = whole_diff;
  encode = λ patches. some [];
  rod = text_rod;
  net = empty_page;
  matchers = record { glob_match = λ pattern path. true; compile = λ pattern. none };
  ripgrep = none;
  valid_pattern = λ pattern. true;
  glob_walk = λ s path pattern. ok [];
  grpcurl = λ args. record { end = missing; stdout = []; stderr = [] };
  environ = [];
}

abbrev pub no_credentials : Credentials one_changed
no_credentials = record { ssh = none; https = none }

abbrev pub no_author : User
no_author = record { name = []; email = [] }

abbrev pub box_answers : Answers
box_answers = record {
  launch = record {
    stdout_pipe = true;
    stderr_pipe = true;
    start = λ cmd. some 7;
    stdout_log = true;
    stderr_log = true;
    now = 100;
  };
  stop = stubborn;
  run = slow;
  send = take_all;
  starting = start;
  watching = all_files;
  events = [];
}

abbrev pub new_box : Service box_environment
new_box =
    service_of box_environment link (new_process_manager link (codes "/logs") 1) no_credentials
      no_author 0 [] []

abbrev with_process : Service box_environment
with_process =
    (handle box_environment box_answers (process_start_request (codes "serve") (codes "web") [] [])
      new_box).1

reached_process :
    ReachableService box_environment link (codes "/logs") 1 no_credentials no_author with_process
reached_process =
    later (created 0 [] [])
      (handled box_answers (process_start_request (codes "serve") (codes "web") [] []))

ReachableService-ServiceOk_example :
    ServiceOk box_environment link (codes "/logs") 1 no_credentials no_author with_process
ReachableService-ServiceOk_example =
    ReachableService-ServiceOk box_environment link (codes "/logs") 1 no_credentials no_author
      reached_process

-- A write with the token, and one with another token.
abbrev arrival : Text → Text → Arrival box_environment
arrival header path = record {
  headers = λ name. header;
  answers = box_answers;
  request = write_file_request path (codes "text") (pos 0);
}

abbrev two_writes : List (Arrival box_environment)
two_writes =
    arrival (codes "Bearer s3cret") (codes "a") ∷ arrival (codes "Bearer guess") (codes "b") ∷ []

serve_arrivals-authorized_example :
    serve_arrivals box_environment (codes "s3cret") two_writes new_box ≡ (
      let alone =
        serve_arrivals box_environment []
          (authorized box_environment (codes "s3cret") two_writes)
          new_box in
      (filled box_environment (codes "s3cret") two_writes alone.0, alone.1))
serve_arrivals-authorized_example =
    serve_arrivals-authorized box_environment (codes "s3cret") two_writes new_box (λ e. cc)

abbrev flags_with_variable : ServerFlags
flags_with_variable = record {
  listen = [];
  socket = [];
  home = link;
  auth_token_env = codes "TOKEN";
}

abbrev open_config : ServerConfig
open_config = record { network = codes "tcp"; addr = codes "0.0.0.0:19051"; auth_token = [] }

abbrev no_variables : Getenv
no_variables name = []

run_config : server_config no_variables flags_with_variable ≡ ok open_config
unfolding server_config
run_config = refl

close_lem_example :
    ((pid : ℕ)
      → Running with_process.process pid
      → In (sigterm pid) (close box_environment (λ pid. stubborn) with_process).0)
    × ((sent : Signal)
        → In sent (close box_environment (λ pid. stubborn) with_process).0
        → (pid : ℕ) × Running with_process.process pid
          × ((sent ≡ sigterm pid) ⊎ ((sent ≡ sigkill pid) × (false ≡ false))))
    × ((close box_environment (λ pid. stubborn) with_process).2.session.bm.running ≡ false)
    × ((close box_environment (λ pid. stubborn) with_process).2 ≡ record with_process {
      process = (close box_environment (λ pid. stubborn) with_process).2.process;
      session = (close box_environment (λ pid. stubborn) with_process).2.session;
    })
close_lem_example = close_lem box_environment (λ pid. stubborn) with_process
