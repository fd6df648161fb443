-- ===== src/Grpc.antt =====
-- worker/grpc.go: the arguments of grpcurl and the reading of its errors.
pub mod Printed
use remote_hands.Shared.{
  ℕ, Bool, true, false, ◌||◌, List, [], ◌∷◌, ◌++◌, Option, none, some, Text, Text_eq, codes,
  text_eq, Map, lookup, is_empty, has_prefix, trim_prefix, trim_space, split, if◌then◌else◌, Result,
  ok, err, Error, connect_error, plain, invalid_argument, not_found, internal,
}

-- grpcCodeMap
abbrev pub grpc_code_map : Map Text ℕ
grpc_code_map =
    (codes "OK", 0)
    ∷ (codes "Canceled", 1)
    ∷ (codes "Unknown", 2)
    ∷ (codes "InvalidArgument", 3)
    ∷ (codes "DeadlineExceeded", 4)
    ∷ (codes "NotFound", 5)
    ∷ (codes "AlreadyExists", 6)
    ∷ (codes "PermissionDenied", 7)
    ∷ (codes "ResourceExhausted", 8)
    ∷ (codes "FailedPrecondition", 9)
    ∷ (codes "Aborted", 10)
    ∷ (codes "OutOfRange", 11)
    ∷ (codes "Unimplemented", 12)
    ∷ (codes "Internal", 13)
    ∷ (codes "Unavailable", 14)
    ∷ (codes "DataLoss", 15)
    ∷ (codes "Unauthenticated", 16)
    ∷ []

abbrev pub code_label : Text
code_label = codes "Code: "

abbrev pub message_label : Text
message_label = codes "Message: "

-- The code after a line, given the one before it.
unfoldable pub code_after : ℕ → Text → ℕ
unfolding lookup has_prefix trim_prefix
code_after code line =
    if has_prefix line code_label
    then elim (lookup (trim_prefix line code_label) grpc_code_map) [ none ↦ code | some c ↦ c ]
    else code

unfoldable pub message_after : Text → Text → Text
unfolding has_prefix trim_prefix
message_after message line =
    if has_prefix line message_label then trim_prefix line message_label else message

-- The loop over the lines.
unfoldable pub scan_error : ℕ × Text → List Text → ℕ × Text
unfolding code_after message_after trim_space
scan_error found [] = found
scan_error (code, message) (line ∷ lines) =
    scan_error (code_after code (trim_space line), message_after message (trim_space line)) lines

-- parseGrpcurlError
unfoldable pub parse_grpcurl_error : Text → ℕ × Text
unfolding scan_error split
parse_grpcurl_error stderr = scan_error (2, trim_space stderr) (split 10 stderr)

-- GrpcResult
pub record GrpcResult : Type 0 where
  pub response_body : Text
  pub status_code : ℕ
  pub status_message : Text

abbrev pub header : Text × Text → List Text
header (key, value) = codes "-H" ∷ (key ++ (codes ": " ++ value)) ∷ []

unfoldable pub headers : List (Text × Text) → List Text
headers [] = []
headers (md ∷ metadata) = header md ++ headers metadata

abbrev proto_flag : Option Text → List Text
proto_flag none = []
proto_flag (some resolved) = codes "-proto" ∷ resolved ∷ []

abbrev body_flag : Text → List Text
body_flag [] = []
body_flag (c ∷ body) = codes "-d" ∷ (c ∷ body) ∷ []

-- The arguments, with the resolved proto file. An empty body stands for none.
unfoldable pub grpcurl_args : Option Text → List (Text × Text) → Text → Text → Text → List Text
unfolding headers
grpcurl_args proto metadata body address method =
    codes "-plaintext"
    ∷ (proto_flag proto ++ (headers metadata ++ (body_flag body ++ (address ∷ method ∷ []))))

-- How a run of grpcurl ends: exit code 0, another failure, or the program is not there.
pub data GrpcurlEnd : Type 0 where
  succeeded failed missing : GrpcurlEnd

pub record GrpcurlRun : Type 0 where
  pub end : GrpcurlEnd
  pub stdout : Text
  pub stderr : Text

unfoldable pub grpc_result : GrpcurlRun → Result Error GrpcResult
unfolding parse_grpcurl_error
grpc_result r = elim r.end [
  | succeeded ↦ ok (record { response_body = r.stdout; status_code = 0; status_message = [] })
  | missing ↦ err (connect_error internal "grpcurl not found; ensure it is installed")
  | failed ↦
      let (code, message) = parse_grpcurl_error r.stderr in
      ok (record { response_body = r.stdout; status_code = code; status_message = message })
]

-- The proto file of the request, resolved by `validate`.
unfoldable pub resolve_proto : (Text → Result Error Text) → Text → Result Error (Option Text)
resolve_proto validate [] = ok none
resolve_proto validate (c ∷ p) = elim (validate (c ∷ p)) [
  | ok resolved ↦ ok (some resolved)
  | err _ ↦ err (connect_error not_found "proto file path: %w")
]

-- grpcRequest. A missing body or proto file is an empty text. `validate` is `ValidatePath`.
unfoldable pub grpc_request :
    (Text → Result Error Text)
    → (List Text → GrpcurlRun)
    → Text
    → Text
    → Text
    → List (Text × Text)
    → Text
    → Result Error GrpcResult
unfolding grpcurl_args grpc_result resolve_proto
grpc_request validate run address method body metadata proto_file =
    if is_empty address
    then err (connect_error invalid_argument "address is required")
    else if is_empty method
    then err (connect_error invalid_argument "method is required")
    else elim (resolve_proto validate proto_file) [
      | err e ↦ err e
      | ok proto ↦ grpc_result (run (grpcurl_args proto metadata body address method))
    ]
