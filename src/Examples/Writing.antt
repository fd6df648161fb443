-- ===== src/Examples/Writing.antt =====
-- A service on a machine with one file, which an agent writes and reads.
use remote_hands.Shared.{
  ◌≡◌, refl, [], Text, codes, pos, ok, text_eq, to_ℕ, drop, has_prefix, has_suffix, split,
  split_from, join, true,
}
use remote_hands.Host.{Host}
use remote_hands.Path.{validate_path, resolve_home, abs, target_path, check_target, is_under_dir}
use remote_hands.Path.Lexical.{is_abs, clean, elements, element, go_up, render, join_path, dir}
use remote_hands.File.{write_file, checked, then_do}
use remote_hands.File.Safety.{section}
use remote_hands.File.Written.{Readable, WritesFiles}
use remote_hands.Service.{Environment, Service, service_of}
use remote_hands.Service.Handlers.{handle, serve_write_file}
use remote_hands.Process.{new_process_manager}
use remote_hands.Tools.Ops.{Conversions}
use remote_hands.Tools.Calls.{call}
use remote_hands.Tools.DirectOps.{direct_ops}
use remote_hands.Tools.Handlers.{json, text, succeeded, reported}
use remote_hands.Tools.Handlers
use remote_hands.Tools.Registered.{run_tool, call_tool}
use remote_hands.Tools.Written.{read_file-write_file}
use remote_hands.Examples.Box.{box, link, resolve, info_at, file_info}
use remote_hands.Examples.Serving.{box_environment, box_answers, no_credentials, no_author}

-- The state is the content of the file.
abbrev notebook : Host
notebook = record box {
  open_file = λ s p. ok s;
  stat = λ s p. ok file_info;
  write_file = λ s p c mode. (ok tt, c);
}

abbrev notebook_environment : Environment
notebook_environment = record box_environment { os = notebook }

abbrev notebook_conversions : Conversions notebook_environment
notebook_conversions = record {
  to_lower = λ t. t;
  no_offset = λ d. true;
  base64 = λ t. t;
  to_int32 = λ f. pos f;
}

abbrev holding : Text → Service notebook_environment
holding c =
    service_of notebook_environment link (new_process_manager link (codes "/logs") 1) no_credentials
      no_author 0 c []

notebook-Readable : Readable notebook (λ f. f) (codes "note")
notebook-Readable = record {
  here = record { reads_all = refl; reads_limited = λ n h. refl };
  seeks = λ n h. (
    drop (to_ℕ n) (codes "note"),
    refl,
    refl,
    record { reads_all = refl; reads_limited = λ m k. refl },
  );
}

notebook-WritesFiles : WritesFiles notebook (λ f. f)
notebook-WritesFiles = record {
  is_file = λ s s1 p c mode e. (file_info, refl, refl);
  holds = λ s s1 p c mode f e o. cc;
}

run_write :
    call_tool notebook_environment notebook_conversions
      (handle notebook_environment box_answers)
      (ok (Handlers.write_file (codes "a") (codes "note") (pos 0)))
      (holding [])
    ≡ (json succeeded, holding (codes "note"))
unfolding call_tool run_tool direct_ops call reported handle serve_write_file write_file checked
    then_do service_of dir validate_path resolve_home abs is_abs has_prefix clean split split_from
    elements element text_eq go_up render join target_path join_path check_target is_under_dir
    has_suffix resolve info_at
run_write = refl

read_file-write_file_example :
    call_tool notebook_environment notebook_conversions
      (handle notebook_environment box_answers)
      (ok (Handlers.read_file (codes "a") (pos 1) (pos 2)))
      (holding (codes "note"))
    ≡ (text (section (pos 1) (pos 2) (codes "note")), holding (codes "note"))
unfolding service_of validate_path
read_file-write_file_example =
    read_file-write_file notebook_environment notebook_conversions (λ f. f) box_answers box_answers
      (codes "a") (codes "note") (pos 0) (pos 1) (pos 2) (holding []) (holding (codes "note"))
      (codes "note") notebook-Readable notebook-WritesFiles run_write refl (λ p e. refl)
