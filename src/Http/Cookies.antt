-- ===== src/Http/Cookies.antt =====
-- worker/http.go: which cookie jar a request uses.
use remote_hands.Shared.{
  ◌≡◌, ◌<◌, refl, map, some, Text, upper_byte, arith, if◌then◌else◌, Result-cases, Bool-cases, inl,
  inr,
}
use remote_hands.Http.{
  HttpClient, new_http_client, clear_cookies, HttpRequest, SentRequest, Net, check_request,
  send_request, do_request,
}

-- The two references are to one jar, which has been made.
pub record OneJar (hc : HttpClient) : Type 0 where
  pub same : hc.jar ≡ hc.client_jar
  pub made : hc.jar < hc.next_jar

-- Any number of requests from a new client.
pub data ReachableClient (net : Net) : HttpClient → Type 0 where
  fresh_client : ReachableClient net new_http_client
  requested :
      {hc : HttpClient} (q : HttpRequest)
      → ReachableClient net hc
      → ReachableClient net (do_request net hc q).client
  cleared : {hc : HttpClient} → ReachableClient net hc → ReachableClient net (clear_cookies hc)

clear_cookies-OneJar : (hc : HttpClient) → OneJar (clear_cookies hc)
unfolding clear_cookies
clear_cookies-OneJar hc = record { same = refl; made = omega arith }

send_request-OneJar :
    (net : Net) (hc : HttpClient) (method : Text) (q : HttpRequest)
    → OneJar hc
    → OneJar (send_request net hc method q).client
unfolding send_request
send_request-OneJar net hc method q v = elim (Bool-cases (net.can_build method q.raw_url)) [
  | inl h ↦ rw h v
  | inr h ↦ rw h v
]

do_request-OneJar :
    (net : Net) (hc : HttpClient) (q : HttpRequest)
    → OneJar hc
    → OneJar (do_request net hc q).client
unfolding do_request
do_request-OneJar net hc q v =
    elim (Result-cases (check_request net (map upper_byte q.method) q.raw_url)) [
      | inr (e, c) ↦ rw (c, do_request) v
      | inl (u, c) ↦ elim (Bool-cases q.clears) [
        | inl h ↦
            rw (c, do_request, h)
              (send_request-OneJar net (clear_cookies hc) _ q (clear_cookies-OneJar hc))
        | inr h ↦ rw (c, do_request, h) (send_request-OneJar net hc _ q v)
      ]
    ]

-- Whatever requests a client has made, with and without redirects, and however often its cookies were
-- cleared, its two references are to one jar.
pub ReachableClient-OneJar : {net : Net} {hc : HttpClient} → ReachableClient net hc → OneJar hc
unfolding new_http_client
ReachableClient-OneJar fresh_client = record { same = refl; made = omega arith }
ReachableClient-OneJar {net = net} (requested {hc} q r) =
    do_request-OneJar net hc q (ReachableClient-OneJar r)
ReachableClient-OneJar (cleared {hc} r) = clear_cookies-OneJar hc

-- In every reachable client, a request that is sent carries the cookies of the one jar, whether
-- redirects are followed or not, and those of a new jar if it clears the cookies.
pub do_request-cookie_jar :
    (net : Net) (hc : HttpClient) (q : HttpRequest) (sent : SentRequest)
    → ReachableClient net hc
    → (do_request net hc q).sent ≡ some sent
    → sent.cookie_jar ≡ (if q.clears then hc.next_jar else hc.jar)
unfolding do_request send_request clear_cookies
do_request-cookie_jar net hc q sent r e =
    let one = ReachableClient-OneJar r in
    elim (Result-cases (check_request net (map upper_byte q.method) q.raw_url)) [
      | inr (x, c) ↦ absurd (ground arith)
      | inl (u, c) ↦ elim (Bool-cases (net.can_build (map upper_byte q.method) q.raw_url)) [
        | inr h ↦ absurd (ground arith)
        | inl h ↦ ground (arith, one.same)
      ]
    ]
