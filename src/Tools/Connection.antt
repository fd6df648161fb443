-- ===== src/Tools/Connection.antt =====
-- cmd/remotehands-mcp/main.go: the flags, and the headers that streamingHeaderInterceptor adds.
use remote_hands.Shared.{
  ◌≡◌, ◌≢◌, ◌↔◌, ◌⊎◌, inl, inr, refl, sym, ap, ◌∙◌, not, ◌&&◌, [], ◌∷◌, ◌++◌, Text, codes, text_eq,
  Result, ok, err, Error, plain, connect_error, unauthenticated, is_empty, if◌then◌else◌,
  Bool-cases, arith, drop,
}
use remote_hands.Auth.{Headers, bearer, intercept, intercept_lem}
use remote_hands.Serving.{Getenv}

-- The flags; `addr` has its default already.
pub record ToolFlags : Type 0 where
  pub addr : Text
  pub relay : Text
  pub machine : Text

-- `http.Header.Set`
abbrev pub set_header : Text → Text → Headers → Headers
set_header name value h key = if text_eq key name then value else h key

-- The token's header, if there is a token.
unfoldable pub set_authorization : Text → Headers → Headers
unfolding text_eq
set_authorization token h =
    if is_empty token then h else set_header (codes "Authorization") (bearer ++ token) h

-- What the client is made with: the server's URL, and `inject`, which WrapUnary and
-- WrapStreamingClient call on the headers of each request.
pub record Connection : Type 0 where
  pub base_url : Text
  pub inject : Headers → Headers

-- The two modes of `run`.
unfoldable pub connection : Getenv → ToolFlags → Result Error Connection
unfolding set_authorization
connection getenv flags =
    if not (is_empty flags.relay) && is_empty flags.machine
    then err (plain "--machine is required when --relay is set")
    else if not (is_empty flags.relay)
    then ok (record {
      base_url = flags.relay;
      inject = λ h.
          set_header (codes "X-Target-Machine") flags.machine
            (set_authorization (getenv (codes "REMOTEHANDS_RELAY_SECRET")) h);
    })
    else ok (record {
      base_url = codes "http://" ++ flags.addr;
      inject = set_authorization (getenv (codes "REMOTEHANDS_AUTH_TOKEN"));
    })

-- The variable with the token of the mode.
abbrev pub token_variable : ToolFlags → Text
token_variable flags =
    if is_empty flags.relay
    then codes "REMOTEHANDS_AUTH_TOKEN"
    else codes "REMOTEHANDS_RELAY_SECRET"

set_authorization_lem :
    (token : Text) (h : Headers)
    → h (codes "Authorization") ≡ []
    → set_authorization token h (codes "Authorization")
      ≡ (if is_empty token then [] else bearer ++ token)
unfolding set_authorization
set_authorization_lem [] h n = n
set_authorization_lem (c ∷ token) h n = refl

the_value : {c d : Connection} → ◌≡◌ {A = Result Error Connection} (ok c) (ok d) → c ≡ d
the_value e = cc

-- The header that a request carries, of one that had none.
connection-header :
    (getenv : Getenv) (flags : ToolFlags) (c : Connection) (h : Headers)
    → connection getenv flags ≡ ok c
    → h (codes "Authorization") ≡ []
    → c.inject h (codes "Authorization") ≡ (
        if is_empty (getenv (token_variable flags))
        then []
        else bearer ++ getenv (token_variable flags))
unfolding connection text_eq
connection-header getenv flags c h e n = elim (Bool-cases (is_empty flags.relay)) [
  | inl r ↦
      rw (r, ← the_value (rw r at e))
        (set_authorization_lem (getenv (codes "REMOTEHANDS_AUTH_TOKEN")) h n)
  | inr r ↦ elim (Bool-cases (is_empty flags.machine)) [
    | inl m ↦ absurd (ground arith)
    | inr m ↦
        rw (r, ← the_value (rw (r, m) at e))
          (set_authorization_lem (getenv (codes "REMOTEHANDS_RELAY_SECRET")) h n)
  ]
]

-- Two tokens whose headers agree.
bearer_cancel : (a b : Text) → bearer ++ a ≡ bearer ++ b → a ≡ b
bearer_cancel a b e = ap (drop 7) e

sent_value :
    (sent token : Text)
    → token ≢ []
    → ((if is_empty sent then [] else bearer ++ sent) ≡ bearer ++ token) ↔ (sent ≡ token)
sent_value [] token n = (λ e. cc, λ e. absurd (n (sym e)))
sent_value (c ∷ sent) token n = (bearer_cancel (c ∷ sent) token, λ e. ap (◌++◌ bearer) e)

-- A request of the agent's client passes the check of a server with a token exactly when the client's
-- token is the server's, in direct mode as in relay mode; any other fails as unauthenticated.
pub intercept-inject {ℓ} :
    {A : Type ℓ} (getenv : Getenv) (flags : ToolFlags) (c : Connection) (h : Headers) (token : Text)
    (next : Result Error A)
    → connection getenv flags ≡ ok c
    → h (codes "Authorization") ≡ []
    → token ≢ []
    → ((getenv (token_variable flags) ≡ token) × (intercept token (c.inject h) next ≡ next))
      ⊎ ((getenv (token_variable flags) ≢ token)
          × (intercept token (c.inject h) next ≡ err (connect_error unauthenticated "")))
intercept-inject getenv flags c h token next e n t =
    let header = connection-header getenv flags c h e n in
    let same = sent_value (getenv (token_variable flags)) token t in
    elim (intercept_lem token (c.inject h) next t) [
      | inl (v, i) ↦ inl (same.0 (sym header ∙ v), i)
      | inr (v, i) ↦ inr (λ q. v (header ∙ same.1 q), i)
    ]
