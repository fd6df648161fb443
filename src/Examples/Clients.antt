-- ===== src/Examples/Clients.antt =====
-- Requests of the HTTP and gRPC clients.
use remote_hands.Shared.{
  ◌≡◌, ◌≤◌, refl, true, [], none, some, codes, Text_eq, text_eq, if◌then◌else◌,
}
use remote_hands.Grpc.{parse_grpcurl_error}
use remote_hands.Grpc.Printed.{parse_grpcurl_error_bound}
use remote_hands.Http.{
  new_http_client, clear_cookies, HttpRequest, SentRequest, Net, response, check_request,
  send_request, do_request,
}
use remote_hands.Http.Cookies.{fresh_client, do_request-cookie_jar}

parse_grpcurl_error_bound_example : (parse_grpcurl_error (codes "Code: Weird")).0 ≤ 16
parse_grpcurl_error_bound_example = parse_grpcurl_error_bound (codes "Code: Weird")

abbrev pub empty_page : Net
empty_page = record {
  parse_url = λ u. some (codes "http", codes "localhost");
  can_build = λ m u. true;
  execute = λ s. response (record { status_code = 200; headers = []; body = []; duration_ms = 1 });
}

abbrev page_request : HttpRequest
page_request = record {
  method = codes "get";
  raw_url = codes "http://localhost/";
  headers = [];
  body = [];
  follow_redirects = true;
  timeout_ms = none;
  clears = true;
}

abbrev sent_page : SentRequest
sent_page = record {
  method = codes "GET";
  url = codes "http://localhost/";
  headers = [];
  body = [];
  follow_redirects = true;
  cookie_jar = 1;
  timeout = none;
}

run_get : (do_request empty_page new_http_client page_request).sent ≡ some sent_page
unfolding do_request check_request send_request clear_cookies new_http_client text_eq
run_get = refl

do_request-cookie_jar_example :
    sent_page.cookie_jar
    ≡ (if page_request.clears then new_http_client.next_jar else new_http_client.jar)
do_request-cookie_jar_example =
    do_request-cookie_jar empty_page new_http_client page_request sent_page fresh_client run_get
