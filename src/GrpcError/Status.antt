-- ===== src/GrpcError/Status.antt =====
-- The status table of docs/tech.md, and that the code's tables implement it.
use history_quiz.Prelude.{ℕ, String, ◌≡◌, refl, ap, ◌∙◌, true, Option, none, some}
use history_quiz.Prelude.Dict.{lookup}
use history_quiz.Prelude.Text.{trim}
use history_quiz.Prelude.Letters.{UpperCase, is_capital}
use history_quiz.Errors.{number, name}
use history_quiz.GrpcError.Codes.{
  grpc_code_to_http_status, or_else, known_or_unknown, to_grpc_code_name,
  map_grpc_code_to_http_status,
}

-- The gRPC status codes.
pub data GrpcStatus : Type 0 where
  grpc_ok cancelled unknown invalid_argument deadline_exceeded not_found already_exists
        permission_denied :
      GrpcStatus
  resource_exhausted failed_precondition aborted out_of_range unimplemented internal unavailable
        data_loss unauthenticated :
      GrpcStatus

abbrev pub number_of : GrpcStatus → ℕ
number_of grpc_ok = 0
number_of cancelled = 1
number_of unknown = 2
number_of invalid_argument = 3
number_of deadline_exceeded = 4
number_of not_found = 5
number_of already_exists = 6
number_of permission_denied = 7
number_of resource_exhausted = 8
number_of failed_precondition = 9
number_of aborted = 10
number_of out_of_range = 11
number_of unimplemented = 12
number_of internal = 13
number_of unavailable = 14
number_of data_loss = 15
number_of unauthenticated = 16

abbrev pub name_of : GrpcStatus → String
name_of grpc_ok = "OK"
name_of cancelled = "CANCELLED"
name_of unknown = "UNKNOWN"
name_of invalid_argument = "INVALID_ARGUMENT"
name_of deadline_exceeded = "DEADLINE_EXCEEDED"
name_of not_found = "NOT_FOUND"
name_of already_exists = "ALREADY_EXISTS"
name_of permission_denied = "PERMISSION_DENIED"
name_of resource_exhausted = "RESOURCE_EXHAUSTED"
name_of failed_precondition = "FAILED_PRECONDITION"
name_of aborted = "ABORTED"
name_of out_of_range = "OUT_OF_RANGE"
name_of unimplemented = "UNIMPLEMENTED"
name_of internal = "INTERNAL"
name_of unavailable = "UNAVAILABLE"
name_of data_loss = "DATA_LOSS"
name_of unauthenticated = "UNAUTHENTICATED"

-- The table of docs/tech.md, which has no row for OK and CANCELLED.
abbrev pub documented : GrpcStatus → Option ℕ
documented grpc_ok = none
documented cancelled = none
documented invalid_argument = some 400
documented out_of_range = some 400
documented unauthenticated = some 401
documented permission_denied = some 403
documented not_found = some 404
documented failed_precondition = some 409
documented already_exists = some 409
documented aborted = some 409
documented resource_exhausted = some 429
documented unimplemented = some 501
documented unavailable = some 503
documented deadline_exceeded = some 504
documented _ = some 500

is_capital-name_of : (s : GrpcStatus) → is_capital (name_of s) ≡ true
unfolding is_capital
is_capital-name_of grpc_ok = refl
is_capital-name_of _ = refl

trim-name_of : (s : GrpcStatus) → trim (name_of s) ≡ name_of s
unfolding trim
trim-name_of grpc_ok = refl
trim-name_of _ = refl

-- The name under which a status given by its name is known.
abbrev named_as : GrpcStatus → String
named_as grpc_ok = "UNKNOWN"
named_as cancelled = "UNKNOWN"
named_as s = name_of s

known_or_unknown-name_of : (s : GrpcStatus) → known_or_unknown (name_of s) ≡ named_as s
unfolding known_or_unknown
known_or_unknown-name_of grpc_ok = refl
known_or_unknown-name_of _ = refl

module _ (u : UpperCase) where
  pub to_grpc_code_name-number :
      (s : GrpcStatus) → to_grpc_code_name u (number (number_of s)) ≡ name_of s
  unfolding to_grpc_code_name
  to_grpc_code_name-number grpc_ok = refl
  to_grpc_code_name-number _ = refl

  pub to_grpc_code_name-name :
      (s : GrpcStatus) → to_grpc_code_name u (name (name_of s)) ≡ named_as s
  unfolding to_grpc_code_name
  to_grpc_code_name-name s =
      ap (λ t. known_or_unknown (u.to_upper_case t)) (trim-name_of s)
      ∙ (ap known_or_unknown (u.keeps_capital (name_of s) (is_capital-name_of s))
          ∙ known_or_unknown-name_of s)

  map-name_of :
      (s : GrpcStatus)
      → or_else (lookup (name_of s) grpc_code_to_http_status) 500 ≡ or_else (documented s) 500
  unfolding lookup
  map-name_of grpc_ok = refl
  map-name_of _ = refl

  map-named_as :
      (s : GrpcStatus)
      → or_else (lookup (named_as s) grpc_code_to_http_status) 500 ≡ or_else (documented s) 500
  unfolding lookup
  map-named_as grpc_ok = refl
  map-named_as _ = refl

  -- A gRPC status is answered with its HTTP status in the table of docs/tech.md, and with 500 if it
  -- has none there, be it given by its number or by its name.
  pub map_grpc_code_to_http_status-documented :
      (s : GrpcStatus)
      → (map_grpc_code_to_http_status u (number (number_of s)) ≡ or_else (documented s) 500)
        × (map_grpc_code_to_http_status u (name (name_of s)) ≡ or_else (documented s) 500)
  unfolding map_grpc_code_to_http_status
  map_grpc_code_to_http_status-documented s = (
    rw (to_grpc_code_name-number s) (map-name_of s),
    rw (to_grpc_code_name-name s) (map-named_as s),
  )
