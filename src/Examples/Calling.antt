-- ===== src/Examples/Calling.antt =====
-- Tools that an agent calls on the small service.
use remote_hands.Shared.{
  ◌≡◌, ◌≢◌, ◌⊎◌, refl, true, if◌then◌else◌, [], codes, pos, ok, err, path_traversal, text_eq,
}
use remote_hands.Service.{Service, service_of, validate}
use remote_hands.Service.Handlers.{handle}
use remote_hands.Service.Refused.{IsRefused}
use remote_hands.Serving.{Getenv}
use remote_hands.Path.{validate_path, resolve_home, abs, target_path, check_target, is_under_dir}
use remote_hands.Path.Lexical.{is_abs, clean, elements, element, go_up, render, join_path}
use remote_hands.Shared.{has_prefix, has_suffix, split, split_from, join}
use remote_hands.Tools.Connection.{
  ToolFlags, Connection, connection, set_authorization, token_variable,
}
use remote_hands.Tools.Ops.{Conversions}
use remote_hands.Tools.Handlers.{ToolCall, tool_name, write_file}
use remote_hands.Tools.Registered.{call_tool}
use remote_hands.Tools.Requests.{tool_request, call_tool-Answered}
use remote_hands.Tools.Requests.Answers.{Answered}
use remote_hands.Tools.Agent.{
  agent_client, FailedQuietly, call_tool-refused, call_tool-authenticated,
}
use remote_hands.Examples.Box.{resolve}
use remote_hands.Examples.Serving.{box_environment, box_answers, new_box}

abbrev plain_conversions : Conversions box_environment
plain_conversions = record {
  to_lower = λ t. t;
  no_offset = λ d. true;
  base64 = λ t. t;
  to_int32 = λ f. pos f;
}

abbrev outside : ToolCall box_environment plain_conversions
outside = write_file (codes "../x") (codes "text") (pos 0)

abbrev direct_flags : ToolFlags
direct_flags = record { addr = codes "localhost:19051"; relay = []; machine = [] }

abbrev one_variable : Getenv
one_variable name = if text_eq name (codes "REMOTEHANDS_AUTH_TOKEN") then codes "s3cret" else []

abbrev direct_connection : Connection
direct_connection = record {
  base_url = codes "http://localhost:19051";
  inject = set_authorization (one_variable (codes "REMOTEHANDS_AUTH_TOKEN"));
}

run_connection : connection one_variable direct_flags ≡ ok direct_connection
unfolding connection
run_connection = refl

run_refused : validate box_environment new_box (codes "../x") ≡ err path_traversal
unfolding service_of validate_path resolve_home abs is_abs has_prefix clean split split_from
    elements element text_eq go_up render join target_path join_path check_target is_under_dir
    has_suffix resolve
run_refused = refl

call_tool-refused_example :
    FailedQuietly box_environment plain_conversions (codes "write_file") new_box (
      call_tool box_environment plain_conversions
        (agent_client box_environment (codes "s3cret") direct_connection.inject box_answers)
        (ok outside)
        new_box)
unfolding tool_name
call_tool-refused_example =
    call_tool-refused box_environment plain_conversions (codes "s3cret") direct_connection.inject
      box_answers outside new_box (codes "../x") refl run_refused

call_tool-authenticated_example :
    ((one_variable (token_variable direct_flags) ≡ codes "other")
      × ((tool : ToolCall box_environment plain_conversions) (s : Service box_environment)
          → call_tool box_environment plain_conversions
              (agent_client box_environment (codes "other") direct_connection.inject box_answers)
              (ok tool)
              s
            ≡ call_tool box_environment plain_conversions
                (handle box_environment box_answers)
                (ok tool)
                s))
    ⊎ ((one_variable (token_variable direct_flags) ≢ codes "other")
        × ((tool : ToolCall box_environment plain_conversions) (s : Service box_environment)
            → FailedQuietly box_environment plain_conversions
                (tool_name box_environment plain_conversions tool)
                s
                (call_tool box_environment plain_conversions
                  (agent_client box_environment
                    (codes "other")
                    direct_connection.inject
                    box_answers)
                  (ok tool)
                  s)))
call_tool-authenticated_example =
    call_tool-authenticated box_environment plain_conversions one_variable direct_flags
      direct_connection (codes "other") box_answers run_connection (λ e. cc)

call_tool-Answered_example :
    Answered box_environment plain_conversions
      (tool_name box_environment plain_conversions outside)
      (handle box_environment box_answers
        (tool_request box_environment plain_conversions outside)
        new_box)
      (IsRefused box_environment (tool_request box_environment plain_conversions outside))
      (call_tool box_environment plain_conversions
        (handle box_environment box_answers)
        (ok outside)
        new_box)
call_tool-Answered_example =
    call_tool-Answered box_environment plain_conversions (handle box_environment box_answers)
      outside new_box
