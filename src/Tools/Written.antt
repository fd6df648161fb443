-- ===== src/Tools/Written.antt =====
-- cmd/remotehands-mcp/main.go down to worker/file.go: a file that an agent writes and reads.
use remote_hands.Shared.{
  ◌≡◌, refl, sym, ap, ◌∙◌, Text, ℤ, ok, Error, Result-cases, inl, inr, arith, codes, plain,
}
use remote_hands.Action.{Action}
use remote_hands.File.{read_file, write_file}
use remote_hands.File.Safety.{section}
use remote_hands.File.Written
use remote_hands.File.Written.{Readable, WritesFiles}
use remote_hands.Service.{Environment, Answers, Response, Service, validate, content}
use remote_hands.Service.Handlers.{handle, serve_write_file, serve_read_file}
use remote_hands.Tools.Ops.{Conversions, content_of}
use remote_hands.Tools.Calls.{call}
use remote_hands.Tools.DirectOps.{direct_ops}
use remote_hands.Tools.Handlers.{
  ToolResult, json, text, error_tool_result, succeeded, ToolCall, reported,
}
use remote_hands.Tools.Handlers
use remote_hands.Tools.Requests.Answers.{call-state}
use remote_hands.Tools.Registered.{run_tool, call_tool}

module _ (env : Environment) (conv : Conversions env) where
  call-ok :
      {S A : Type 0} (request : Action S Response) (s s' : S) (r : Response) (e : Error)
      (read : Response → A)
      → request s ≡ (ok r, s')
      → call env conv request e read s ≡ (ok (read r), s')
  unfolding call
  call-ok request s s' r e read q =
      let value : (call env conv request e read s).0 ≡ ok (read r) = rw (call, q) refl in
      λ i. (value i, (call-state env conv request s e read ∙ ap (λ t. t.1) q) i)

  -- A request that answers, on its way back to the agent.
  call-answered :
      {S A : Type 0} (name : Text) (request : Action S Response) (s s' : S) (r : Response)
      (e : Error) (read : Response → A) (result : A → ToolResult)
      → request s ≡ (ok r, s')
      → reported env conv name (call env conv request e read) result s ≡ (result (read r), s')
  unfolding reported
  call-answered name request s s' r e read result q =
      let called = call-ok request s s' r e read q in
      rw (reported, called) (λ i. (result (read r), (called i).1))

  -- A success that the agent is told of.
  call-succeeded :
      {S A : Type 0} (name : Text) (request : Action S Response) (s s' : S) (e : Error)
      (read : Response → A)
      → reported env conv name (call env conv request e read) (λ _. json succeeded) s
        ≡ (json succeeded, s')
      → (r : Response) × (request s ≡ (ok r, s'))
  unfolding reported call error_tool_result
  call-succeeded name request s s' e read told = elim (Result-cases (request s).0) [
    | inl (r, q) ↦ (
      r,
      λ i. (
        q i,
        (sym (call-state env conv request s e read)
              ∙ ap (λ t. t.1) (rw (reported, call, q) at told))
            i,
      ),
    )
    | inr (x, q) ↦ absurd (ground arith)
  ]

  -- A write that the agent is told has succeeded, has.
  written :
      (a : Answers) (path c : Text) (mode : ℤ) (s s' : Service env)
      → call_tool env conv (handle env a) (ok (Handlers.write_file path c mode)) s
        ≡ (json succeeded, s')
      → (write_file env.os s.home_dir path c mode s.files ≡ (ok tt, s'.files))
        × (s'.home_dir ≡ s.home_dir)
  unfolding call_tool run_tool direct_ops handle serve_write_file
  written a path c mode s s' e =
      let (r, q) =
        call-succeeded (codes "write_file") (serve_write_file env path c mode) s s'
          (plain "write file: %w") (λ _. tt) e in
      elim (Result-cases (write_file env.os s.home_dir path c mode s.files).0) [
        | inl (u, w) ↦ (λ i. (w i, (q i).1.files), sym (ap (λ t. t.1.home_dir) q))
        | inr (x, w) ↦
            let failed : (serve_write_file env path c mode s).0 ≡ ok r = ap (λ t. t.0) q in
            absurd (let e' = rw w at failed in ground arith)
      ]

  -- A read that succeeds is what the agent is told.
  told :
      (a : Answers) (path c : Text) (offset limit : ℤ) (s : Service env)
      → read_file env.os s.home_dir s.files path offset limit ≡ ok c
      → call_tool env conv (handle env a) (ok (Handlers.read_file path offset limit)) s
        ≡ (text c, s)
  unfolding call_tool run_tool direct_ops handle serve_read_file
  told a path c offset limit s e =
      call-answered (codes "read_file") (serve_read_file env path offset limit) s s (content c)
        (plain "read file: %w") (content_of env conv) text (rw e refl)

  -- Where the machine writes and reads files as documented: what an agent has written, as it was told,
  -- it is given by a read, as the section that `offset` and `limit` ask for, if the path still leads to
  -- the same file and that can be opened and read. The read changes nothing.
  pub read_file-write_file :
      (left : env.os.File → Text) (a a' : Answers) (path c : Text) (mode offset limit : ℤ)
      (s s' : Service env) (f : env.os.File)
      → Readable env.os left f
      → WritesFiles env.os left
      → call_tool env conv (handle env a) (ok (Handlers.write_file path c mode)) s
        ≡ (json succeeded, s')
      → validate env s' path ≡ validate env s path
      → ((p : Text) → validate env s' path ≡ ok p → env.os.open_file s'.files p ≡ ok f)
      → call_tool env conv (handle env a') (ok (Handlers.read_file path offset limit)) s'
        ≡ (text (section offset limit c), s')
  read_file-write_file left a a' path c mode offset limit s s' f readable writes e same opens =
      let (w, home) = written a path c mode s s' e in
      told a' path (section offset limit c) offset limit s' (
        Written.read_file-write_file env.os left s.files s'.files s'.home_dir path c mode offset
          limit f readable writes (rw home w) (same ∙ rw home refl) opens)
