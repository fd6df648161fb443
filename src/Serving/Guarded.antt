-- ===== src/Serving/Guarded.antt =====
-- cmd/remotehands/main.go and worker/auth.go: what the server does with requests that lack its token.
use remote_hands.Shared.{
  ◌≡◌, ◌≢◌, refl, Bool, List, [], ◌∷◌, ◌++◌, Text, Text_eq, codes, text_eq, text_eq_iff, Result, ok,
  err, Error, connect_error, unauthenticated, if◌then◌else◌, Bool-cases, inl, inr,
}
use remote_hands.Auth.{bearer, intercept, intercept_lem}
use remote_hands.Service.{Environment, Response, Service}
use remote_hands.Service.Handlers.{handle}
use remote_hands.Serving.{Arrival, serve_one, serve_arrivals}

abbrev first_of {ℓ} : {A : Type ℓ} → List A → List A
first_of [] = []
first_of (x ∷ _) = x ∷ []

abbrev rest_of {ℓ} : {A : Type ℓ} → List A → List A
rest_of [] = []
rest_of (_ ∷ xs) = xs

module _ (env : Environment) where
  -- Whether a request carries the token.
  abbrev pub is_authorized : Text → Arrival env → Bool
  is_authorized token a = text_eq (a.headers (codes "Authorization")) (bearer ++ token)

  -- The requests that carry it, in their order.
  abbrev pub authorized : Text → List (Arrival env) → List (Arrival env)
  authorized token [] = []
  authorized token (a ∷ arrivals) =
      if is_authorized token a then a ∷ authorized token arrivals else authorized token arrivals

  -- What the check decides.
  pub serve_one-passed :
      (token : Text) (a : Arrival env) (s : Service env)
      → intercept {0} {A = Unit {0}} token a.headers (ok tt) ≡ ok tt
      → serve_one env token a s ≡ handle env a.answers a.request s
  unfolding serve_one
  serve_one-passed [] a s i = refl
  serve_one-passed (c ∷ token) a s i = rw (i, serve_one)

  pub serve_one-stopped :
      (token : Text) (a : Arrival env) (s : Service env) (e : Error)
      → intercept {0} {A = Unit {0}} token a.headers (ok tt) ≡ err e
      → serve_one env token a s ≡ (err e, s)
  unfolding serve_one
  serve_one-stopped [] a s e i = unfold intercept in absurd (cc i)
  serve_one-stopped (c ∷ token) a s e i = rw (i, serve_one)

  serve_one-authorized :
      (token : Text) (a : Arrival env) (s : Service env)
      → token ≢ []
      → serve_one env token a s ≡ (
          if is_authorized token a
          then handle env a.answers a.request s
          else (err (connect_error unauthenticated ""), s))
  serve_one-authorized token a s n =
      let same = text_eq_iff (a.headers (codes "Authorization")) (bearer ++ token) in
      elim (intercept_lem {0} {A = Unit {0}} token a.headers (ok tt) n) [
        | inl (e, i) ↦ rw (same.1 e) (serve_one-passed token a s i)
        | inr (e, i) ↦ elim (Bool-cases (is_authorized token a)) [
          | inl h ↦ absurd (e (same.0 h))
          | inr h ↦ rw h (serve_one-stopped token a s _ i)
        ]
      ]

  serve_one-unguarded :
      (a : Arrival env) (s : Service env) → serve_one env [] a s ≡ handle env a.answers a.request s
  unfolding serve_one
  serve_one-unguarded a s = refl

  -- The answers to all requests, from those to the ones that carry the token.
  abbrev pub filled :
      Text → List (Arrival env) → List (Result Error Response) → List (Result Error Response)
  filled token [] given = []
  filled token (a ∷ arrivals) given =
      if is_authorized token a
      then first_of given ++ filled token arrivals (rest_of given)
      else err (connect_error unauthenticated "") ∷ filled token arrivals given

  -- With a token set, requests that do not carry it are answered as unauthenticated and change
  -- nothing: the others are answered, and leave the service, as if they had come alone to a server
  -- without a token.
  pub serve_arrivals-authorized :
      (token : Text) (arrivals : List (Arrival env)) (s : Service env)
      → token ≢ []
      → serve_arrivals env token arrivals s ≡ (
          let alone = serve_arrivals env [] (authorized token arrivals) s in
          (filled token arrivals alone.0, alone.1))
  unfolding serve_arrivals
  serve_arrivals-authorized token [] s n = refl
  serve_arrivals-authorized token (a ∷ arrivals) s n = elim (Bool-cases (is_authorized token a)) [
    | inl h ↦
        let one = rw h at (serve_one-authorized token a s n) in
        rw (
          h,
          one,
          serve_one-unguarded a s,
          serve_arrivals-authorized token arrivals (handle env a.answers a.request s).1 n,
        )
    | inr h ↦
        let one = rw h at (serve_one-authorized token a s n) in
        rw (h, one, serve_arrivals-authorized token arrivals s n)
  ]
