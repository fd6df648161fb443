-- ===== src/Tools/Calls.antt =====
-- mcptools/direct_ops.go: what the methods of DirectOps have in common.
use remote_hands.Shared.{ok, err, Error, plain}
use remote_hands.Action.{Action}
use remote_hands.Bash.Collect.{BashResult}
use remote_hands.Service.{Environment, Response}
use remote_hands.Tools.Ops.{Conversions, bash_of}

module _ (env : Environment) (conv : Conversions env) where
  -- A call of the client, whose error is reported under the operation's name.
  unfoldable pub call : {S A : Type 0} → Action S Response → Error → (Response → A) → Action S A
  call request e read s =
      let done = request s in elim done.0 [ err _ ↦ (err e, done.1) | ok r ↦ (ok (read r), done.1) ]

  -- RunBash of DirectOps.
  unfoldable pub call_bash : {S : Type 0} → Action S Response → Action S BashResult
  call_bash request s =
      let done = request s in
      elim done.0 [
        | err _ ↦ (err (plain "run bash: %w"), done.1)
        | ok r ↦ (bash_of env conv r, done.1)
      ]
