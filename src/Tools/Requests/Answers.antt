-- ===== src/Tools/Requests/Answers.antt =====
-- cmd/remotehands-mcp/main.go: what becomes of the request of a tool and of its failure.
use remote_hands.Shared.{
  codes, ◌≡◌, refl, [], some, Text, Result, ok, err, Error, plain, Result-cases, inl, inr, arith,
}
use remote_hands.Action.{Action}
use remote_hands.Bash.Collect.{collect_stream}
use remote_hands.Service.{watch_stream, Environment, Response, bash_stream}
use remote_hands.Service.Refused.{IsErrorWatch, IsError, IsErrorStream}
use remote_hands.Tools.Ops.{Conversions, bash_of}
use remote_hands.Tools.Calls.{call, call_bash}
use remote_hands.Tools.Handlers.{watched_of, ToolResult, error_tool_result, reported}

module _ (env : Environment) (conv : Conversions env) where
  -- What is left of a request's state and of its failure at the end of a tool's call.
  abbrev pub Answered :
      {S : Type 0}
      → Text
      → Result Error Response × S
      → (Result Error Response → Type 0)
      → ToolResult × S
      → Type 0
  Answered name response Refused end =
      (end.1 ≡ response.1) × (Refused response.0 → (e : Error) × (end.0 ≡ error_tool_result name e))

  pub reported-Answered :
      {S A : Type 0} (name : Text) (operation : Action S A) (result : A → ToolResult) (s : S)
      (response : Result Error Response × S) (Refused : Result Error Response → Type 0)
      → (operation s).1 ≡ response.1
      → (Refused response.0 → (x : Error) × ((operation s).0 ≡ err x))
      → Answered name response Refused (reported env conv name operation result s)
  unfolding reported
  reported-Answered name operation result s response Refused same fails =
      elim (Result-cases (operation s).0) [
        | inl (v, q) ↦ (rw (q, reported) same, λ h. let (x, f) = fails h in cc)
        | inr (x, q) ↦ (rw (q, reported) same, λ h. (x, rw (q, reported)))
      ]

  pub call-state :
      {S A : Type 0} (request : Action S Response) (s : S) (e : Error) (read : Response → A)
      → (call env conv request e read s).1 ≡ (request s).1
  unfolding call
  call-state request s e read = ground arith

  call-fails :
      {S A : Type 0} (request : Action S Response) (s : S) (e : Error) (read : Response → A)
      → IsError (request s).0
      → (x : Error) × ((call env conv request e read s).0 ≡ err x)
  unfolding call
  call-fails request s e read h = elim (Result-cases (request s).0) [
    | inl (r, q) ↦ absurd (rw q at h)
    | inr (x, q) ↦ (e, rw (q, call))
  ]

  pub call-Answered :
      {S A : Type 0} (name : Text) (request : Action S Response) (s : S) (e : Error)
      (read : Response → A) (result : A → ToolResult)
      → Answered name
          (request s)
          IsError
          (reported env conv name (call env conv request e read) result s)
  call-Answered name request s e read result =
      reported-Answered name (call env conv request e read) result s (request s) IsError
        (call-state request s e read) (call-fails request s e read)

  pub request-Answered :
      {S : Type 0} (name : Text) (request : Action S Response) (s : S)
      (result : Response → ToolResult)
      → Answered name (request s) IsError (reported env conv name request result s)
  request-Answered name request s result =
      reported-Answered name request result s (request s) IsError refl (λ h.
        elim (Result-cases (request s).0) [ inl (r, q) ↦ absurd (rw q at h) | inr (x, q) ↦ (x, q) ])

  pub call_bash-state :
      {S : Type 0} (request : Action S Response) (s : S)
      → (call_bash env conv request s).1 ≡ (request s).1
  unfolding call_bash
  call_bash-state request s = ground arith

  bash_of-fails : (r : Response) → IsErrorStream (ok r) → (x : Error) × (bash_of env conv r ≡ err x)
  unfolding collect_stream
  bash_of-fails (bash_stream [] (some e)) h = (plain "run bash stream: %w", refl)
  bash_of-fails _ h = absurd h

  pub call_bash-fails :
      {S : Type 0} (request : Action S Response) (s : S)
      → IsErrorStream (request s).0
      → (x : Error) × ((call_bash env conv request s).0 ≡ err x)
  unfolding call_bash
  call_bash-fails request s h = elim (Result-cases (request s).0) [
    | inl (r, q) ↦ let (x, f) = bash_of-fails r (rw q at h) in (x, rw (q, call_bash, f))
    | inr (x, q) ↦ (plain "run bash: %w", rw (q, call_bash))
  ]

  told_watch :
      (r : Response)
      → IsErrorWatch (ok r)
      → (e : Error) × (watched_of env conv r ≡ error_tool_result (codes "watch_files") e)
  unfolding watched_of
  told_watch (watch_stream sent (some e)) h = (e, refl)
  told_watch _ h = absurd h

  -- A watch, whose error is told if it ends with one.
  pub watch-Answered :
      {S : Type 0} (request : Action S Response) (s : S)
      → Answered
          (codes "watch_files")
          (request s)
          IsErrorWatch
          (reported env conv (codes "watch_files") request (watched_of env conv) s)
  unfolding reported
  watch-Answered request s = elim (Result-cases (request s).0) [
    | inl (r, q) ↦ (rw (q, reported) refl, λ h. rw (q, reported) (told_watch r (rw q at h)))
    | inr (x, q) ↦ (rw (q, reported) refl, λ h. (x, rw (q, reported)))
  ]
