-- ===== src/Auth.antt =====
-- worker/auth.go: bearer tokens on unary and streaming requests.
use remote_hands.Shared.{
  ◌≡◌, ◌≢◌, ◌⊎◌, inl, inr, refl, sym, ap, ◌∙◌, [], ◌∷◌, ◌++◌, Text, codes, text_eq, text_eq_iff,
  has_prefix, is_empty, drop, arith, if◌then◌else◌, Result, ok, err, Error, connect_error,
  unauthenticated, not, Bool-cases,
}
use remote_hands.Path.Containment.{has_prefix-append, has_prefix-cut}

-- `Headers.Get`: a missing header is empty.
abbrev pub Headers : Type 0
Headers = Text → Text

abbrev pub bearer : Text
bearer = codes "Bearer "

-- The checks of validateBearerToken on the header's value.
unfoldable pub check_auth : Text → Text → Result Error (Unit {0})
unfolding has_prefix text_eq
check_auth auth expected =
    if is_empty auth
    then err (connect_error unauthenticated "")
    else if not (has_prefix auth bearer)
    then err (connect_error unauthenticated "")
    else if not (text_eq (drop 7 auth) expected)
    then err (connect_error unauthenticated "")
    else ok tt

-- validateBearerToken
unfoldable pub validate_bearer_token : Headers → Text → Result Error (Unit {0})
unfolding check_auth
validate_bearer_token headers expected = check_auth (headers (codes "Authorization")) expected

-- The function that NewAuthInterceptor and WrapStreamingHandler return: `next` is the handler.
unfoldable pub intercept {ℓ} : {A : Type ℓ} → Text → Headers → Result Error A → Result Error A
unfolding validate_bearer_token
intercept token headers next =
    if is_empty token
    then next
    else elim (validate_bearer_token headers token) [ err e ↦ err e | ok _ ↦ next ]

check_auth-cases :
    (auth token : Text)
    → ((auth ≡ bearer ++ token) × (check_auth auth token ≡ ok tt))
      ⊎ ((auth ≢ bearer ++ token)
          × (check_auth auth token ≡ err (connect_error unauthenticated "")))
unfolding check_auth
check_auth-cases auth token = elim (Bool-cases (has_prefix auth bearer)) [
  | inr h ↦ inr (
    λ e. ground (arith, ap (λ t. has_prefix t bearer) e, has_prefix-append bearer token),
    ground arith,
  )
  | inl h ↦
      let (rest, cut) = has_prefix-cut auth bearer h in
      elim (Bool-cases (text_eq rest token)) [
        | inl same ↦
            inl (cut ∙ ap (λ t. bearer ++ t) ((text_eq_iff rest token).0 same), rw (cut, same))
        | inr differ ↦ inr (
          λ e. ground (arith, ap (drop 7) (sym cut ∙ e), text_eq_iff rest token),
          rw (cut, differ),
        )
      ]
]

-- With a token set, a request reaches its handler exactly when its Authorization header is `Bearer `
-- followed by that token; every other request fails as unauthenticated and the handler does not run.
pub intercept_lem {ℓ} :
    {A : Type ℓ} (token : Text) (headers : Headers) (next : Result Error A)
    → token ≢ []
    → ((headers (codes "Authorization") ≡ bearer ++ token) × (intercept token headers next ≡ next))
      ⊎ ((headers (codes "Authorization") ≢ bearer ++ token)
          × (intercept token headers next ≡ err (connect_error unauthenticated "")))
unfolding intercept validate_bearer_token
intercept_lem [] headers next n = absurd (n refl)
intercept_lem (c ∷ token) headers next n =
    elim (check_auth-cases (headers (codes "Authorization")) (c ∷ token)) [
      | inl (e, v) ↦ inl (e, rw v)
      | inr (e, v) ↦ inr (e, rw v)
    ]
