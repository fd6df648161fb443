-- ===== src/Tools/Agent.antt =====
-- cmd/remotehands-mcp/main.go before cmd/remotehands/main.go: an agent's tools on a server.
use mathlib.Core.Path.{fun_ext}
use remote_hands.Shared.{
  ◌≡◌, ◌≢◌, ◌⊎◌, inl, inr, refl, ap, ◌∙◌, [], some, Text, ok, err, Error, path_traversal,
  Result-cases,
}
use remote_hands.Action.{Action}
use remote_hands.Auth.{Headers, intercept}
use remote_hands.Service.{
  Environment, Answers, Request, Response, Service, validate, run_bash_request, watch_files_request,
}
use remote_hands.Service.Handlers.{handle}
use remote_hands.Service.Refused.{named_path, IsRefused, handle-IsRefused}
use remote_hands.Serving.Guarded.{serve_one-passed, serve_one-stopped}
use remote_hands.Serving.{Getenv, Arrival, serve_one}
use remote_hands.Tools.Connection.{
  ToolFlags, Connection, connection, token_variable, intercept-inject,
}
use remote_hands.Tools.Ops.{Conversions}
use remote_hands.Tools.Handlers.{ToolResult, error_tool_result, ToolCall, tool_name}
use remote_hands.Tools.Registered.{call_tool}
use remote_hands.Tools.Requests.{tool_request, call_tool-Answered}

-- The headers of a new request.
abbrev pub no_headers : Headers
no_headers _ = []

module _ (env : Environment) where
  -- The client of the agent: a request with the injected headers, to a server with a token.
  unfoldable pub agent_client :
      Text → (Headers → Headers) → Answers → Request env → Action (Service env) Response
  agent_client token inject a r s =
      serve_one env token (record { headers = inject no_headers; answers = a; request = r }) s

  IsRefused-error : (r : Request env) (e : Error) → IsRefused env r (err e)
  IsRefused-error (run_bash_request _ _ _ _) e = tt
  IsRefused-error (watch_files_request _) e = tt
  IsRefused-error _ e = tt

  serve_one-IsRefused :
      (token : Text) (a : Arrival env) (s : Service env) (path : Text)
      → named_path env a.request ≡ some path
      → validate env s path ≡ err path_traversal
      → IsRefused env a.request (serve_one env token a s).0 × ((serve_one env token a s).1 ≡ s)
  unfolding serve_one
  serve_one-IsRefused token a s path n v =
      elim (Result-cases (intercept {0} {A = Unit {0}} token a.headers (ok tt))) [
        | inl (u, i) ↦
            rw (serve_one-passed env token a s i)
              (handle-IsRefused env a.answers a.request s path n v)
        | inr (e, i) ↦ rw (serve_one-stopped env token a s e i) (IsRefused-error a.request e, refl)
      ]

  module _ (conv : Conversions env) where
    -- The end of a call that has failed and changed nothing.
    abbrev pub FailedQuietly : Text → Service env → ToolResult × Service env → Type 0
    FailedQuietly name s end = (e : Error) × (end ≡ (error_tool_result name e, s))

    -- Whatever the tokens, a tool whose file, directory, repository or working directory is a path which
    -- `ValidatePath` refuses as a path traversal tells the agent of a failure under its name, and the whole service is as it was: files,
    -- repositories, processes, browser and cookies.
    pub call_tool-refused :
        (token : Text) (inject : Headers → Headers) (a : Answers) (tool : ToolCall env conv)
        (s : Service env) (path : Text)
        → named_path env (tool_request env conv tool) ≡ some path
        → validate env s path ≡ err path_traversal
        → FailedQuietly
            (tool_name env conv tool)
            s
            (call_tool env conv (agent_client token inject a) (ok tool) s)
    unfolding agent_client
    call_tool-refused token inject a tool s path n v =
        let arrival : Arrival env = record {
          headers = inject no_headers;
          answers = a;
          request = tool_request env conv tool;
        } in
        let refused = serve_one-IsRefused token arrival s path n v in
        let answered = call_tool-Answered env conv (agent_client token inject a) tool s in
        let (e, told) = answered.1 refused.0 in (e, λ i. (told i, (answered.0 ∙ refused.1) i))

    -- To a server with a token, an agent whose client has the same token calls each tool as if there
    -- were no check. With any other token, each tool tells the agent of a failure under its name and the
    -- service is as it was.
    pub call_tool-authenticated :
        (getenv : Getenv) (flags : ToolFlags) (c : Connection) (token : Text) (a : Answers)
        → connection getenv flags ≡ ok c
        → token ≢ []
        → ((getenv (token_variable flags) ≡ token)
            × ((tool : ToolCall env conv) (s : Service env)
                → call_tool env conv (agent_client token c.inject a) (ok tool) s
                  ≡ call_tool env conv (handle env a) (ok tool) s))
          ⊎ ((getenv (token_variable flags) ≢ token)
              × ((tool : ToolCall env conv) (s : Service env)
                  → FailedQuietly
                      (tool_name env conv tool)
                      s
                      (call_tool env conv (agent_client token c.inject a) (ok tool) s)))
    unfolding agent_client
    call_tool-authenticated getenv flags c token a e n =
        let arrival : Request env → Arrival env =
          λ r. record { headers = c.inject no_headers; answers = a; request = r } in
        elim (intercept-inject {0} {A = Unit {0}} getenv flags c no_headers token (ok tt) e refl
          n) [
            | inl (same, i) ↦ inl (
              same,
              λ tool s.
                  ap
                    (λ (k : Request env → Action (Service env) Response).
                      call_tool env conv k (ok tool) s)
                    (fun_ext λ r. fun_ext λ s'. serve_one-passed env token (arrival r) s' i),
            )
            | inr (differ, i) ↦ inr (
              differ,
              λ tool s.
                  let r = tool_request env conv tool in
                  let stopped = serve_one-stopped env token (arrival r) s _ i in
                  let answered =
                    call_tool-Answered env conv (agent_client token c.inject a) tool s in
                  let (x, told) = answered.1 (rw stopped (IsRefused-error r _)) in
                  (x, λ j. (told j, (answered.0 ∙ ap (λ t. t.1) stopped) j)),
            )
          ]
