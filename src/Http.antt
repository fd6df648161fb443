-- ===== src/Http.antt =====
-- worker/http.go: the HTTP client and its cookie jar.
pub mod Cookies
use remote_hands.Shared.{
  ℕ, suc, Bool, true, false, ◌||◌, List, [], ◌∷◌, map, any, Option, none, some, Text, codes,
  text_eq, upper_byte, ℤ, is_positive, to_ℕ, is_empty, if◌then◌else◌, Result, ok, err, Error,
  connect_error, plain, invalid_argument,
}

-- validHTTPMethods
abbrev valid_http_methods : List Text
valid_http_methods =
    codes "GET"
    ∷ codes "HEAD"
    ∷ codes "POST"
    ∷ codes "PUT"
    ∷ codes "PATCH"
    ∷ codes "DELETE"
    ∷ codes "OPTIONS"
    ∷ codes "TRACE"
    ∷ []

-- HttpClient. A jar is an object: `jar` and `client_jar` are references, and those below `next_jar`
-- have been made.
pub record HttpClient : Type 0 where
  pub jar : ℕ
  pub client_jar : ℕ
  pub next_jar : ℕ

-- NewHttpClient
unfoldable pub new_http_client : HttpClient
new_http_client = record { jar = 0; client_jar = 0; next_jar = 1 }

-- ClearCookies
unfoldable pub clear_cookies : HttpClient → HttpClient
clear_cookies hc = record {
  jar = hc.next_jar;
  client_jar = hc.next_jar;
  next_jar = suc hc.next_jar;
}

-- The request's parameters.
pub record HttpRequest : Type 0 where
  pub method : Text
  pub raw_url : Text
  pub headers : List (Text × Text)
  pub body : Text
  pub follow_redirects : Bool
  pub timeout_ms : Option ℤ
  pub clears : Bool

-- What reaches the network: the request with its method in upper case, the jar that its cookies
-- come from, and the timeout that is set.
pub record SentRequest : Type 0 where
  pub method : Text
  pub url : Text
  pub headers : List (Text × Text)
  pub body : Text
  pub follow_redirects : Bool
  pub cookie_jar : ℕ
  pub timeout : Option ℕ

-- HttpResult
pub record HttpResult : Type 0 where
  pub status_code : ℕ
  pub headers : List (Text × Text)
  pub body : Text
  pub duration_ms : ℕ

-- How a request ends: `Do` fails, the body cannot be read, or there is a response.
pub data HttpEnd : Type 0 where
  not_executed not_read : HttpEnd
  response : HttpResult → HttpEnd

-- net/http and net/url: the scheme and host of a URL that parses, whether the request can be
-- built, and its end.
pub record Net : Type 0 where
  pub parse_url : Text → Option (Text × Text)
  pub can_build : Text → Text → Bool
  pub execute : SentRequest → HttpEnd

abbrev http_timeout : Option ℤ → Option ℕ
http_timeout none = none
http_timeout (some ms) = if is_positive ms then some (to_ℕ ms) else none

abbrev http_result : HttpEnd → Result Error HttpResult
http_result not_executed = err (plain "execute request: %w")
http_result not_read = err (plain "read response body: %w")
http_result (response r) = ok r

-- The checks of the method and the URL.
unfoldable pub check_request : Net → Text → Text → Result Error (Unit {0})
unfolding text_eq
check_request net method raw_url =
    if any (text_eq method) valid_http_methods
    then elim (net.parse_url raw_url) [
      | none ↦ err (connect_error invalid_argument "invalid URL: %w")
      | some (scheme, host) ↦
          if is_empty scheme || is_empty host
          then err (connect_error invalid_argument "URL must have scheme and host: %q")
          else ok tt
    ]
    else err (connect_error invalid_argument "invalid HTTP method: %q")

-- What a request leaves: its answer, what was sent, and the client.
pub record Done : Type 0 where
  pub result : Result Error HttpResult
  pub sent : Option SentRequest
  pub client : HttpClient

-- From the building of the request on.
unfoldable pub send_request : Net → HttpClient → Text → HttpRequest → Done
send_request net hc method q =
    let sent : SentRequest = record {
      method = method;
      url = q.raw_url;
      headers = q.headers;
      body = q.body;
      follow_redirects = q.follow_redirects;
      cookie_jar = if q.follow_redirects then hc.jar else hc.client_jar;
      timeout = http_timeout q.timeout_ms;
    } in
    if net.can_build method q.raw_url
    then record { result = http_result (net.execute sent); sent = some sent; client = hc }
    else record { result = err (plain "build request: %w"); sent = none; client = hc }

-- Do
unfoldable pub do_request : Net → HttpClient → HttpRequest → Done
unfolding check_request send_request clear_cookies
do_request net hc q =
    let method : Text = map upper_byte q.method in
    elim (check_request net method q.raw_url) [
      | err e ↦ record { result = err e; sent = none; client = hc }
      | ok _ ↦ send_request net (if q.clears then clear_cookies hc else hc) method q
    ]
