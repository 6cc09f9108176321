-- ===== src/GrpcError/Codes.antt =====
-- gRPC status codes and their HTTP statuses, of client/app/services/grpc-error.server.ts.
use history_quiz.Prelude.{
  ℕ, String, Bool, true, false, ◌||◌, Option, none, some, List, [], ◌∷◌, ◌==◌, nat_eq,
  if◌then◌else◌, any,
}
use history_quiz.Prelude.Dict.{lookup, prototype_names}
use history_quiz.Prelude.Text.{is_empty, trim}
use history_quiz.Prelude.Letters.{UpperCase}
use history_quiz.Errors.{StatusCode, number, name, other}

-- The numbers are those of gRPC's published status codes.
abbrev pub grpc_status_by_number : List (ℕ × String)
grpc_status_by_number =
    (0, "OK")
    ∷ (1, "CANCELLED")
    ∷ (2, "UNKNOWN")
    ∷ (3, "INVALID_ARGUMENT")
    ∷ (4, "DEADLINE_EXCEEDED")
    ∷ (5, "NOT_FOUND")
    ∷ (6, "ALREADY_EXISTS")
    ∷ (7, "PERMISSION_DENIED")
    ∷ (8, "RESOURCE_EXHAUSTED")
    ∷ (9, "FAILED_PRECONDITION")
    ∷ (10, "ABORTED")
    ∷ (11, "OUT_OF_RANGE")
    ∷ (12, "UNIMPLEMENTED")
    ∷ (13, "INTERNAL")
    ∷ (14, "UNAVAILABLE")
    ∷ (15, "DATA_LOSS")
    ∷ (16, "UNAUTHENTICATED")
    ∷ []

abbrev pub grpc_code_to_http_status : List (String × ℕ)
grpc_code_to_http_status =
    ("ABORTED", 409)
    ∷ ("ALREADY_EXISTS", 409)
    ∷ ("DATA_LOSS", 500)
    ∷ ("DEADLINE_EXCEEDED", 504)
    ∷ ("FAILED_PRECONDITION", 409)
    ∷ ("INTERNAL", 500)
    ∷ ("INVALID_ARGUMENT", 400)
    ∷ ("NOT_FOUND", 404)
    ∷ ("OUT_OF_RANGE", 400)
    ∷ ("PERMISSION_DENIED", 403)
    ∷ ("RESOURCE_EXHAUSTED", 429)
    ∷ ("UNAUTHENTICATED", 401)
    ∷ ("UNAVAILABLE", 503)
    ∷ ("UNIMPLEMENTED", 501)
    ∷ ("UNKNOWN", 500)
    ∷ []

-- table[n] of a table with number keys.
unfoldable pub by_number : ℕ → List (ℕ × String) → Option String
by_number n [] = none
by_number n ((m, s) ∷ r) = if nat_eq m n then some s else by_number n r

-- e ?? d
abbrev pub or_else {ℓ} : {A : Type ℓ} → Option A → A → A
or_else none d = d
or_else (some a) d = a

abbrev pub is_some {ℓ} : {A : Type ℓ} → Option A → Bool
is_some none = false
is_some (some a) = true

-- `key in table`, which also finds the names that the table inherits.
unfoldable pub in_table : String → Bool
unfolding lookup
in_table key = is_some (lookup key grpc_code_to_http_status) || any (λ p. p == key) prototype_names

unfoldable pub known_or_unknown : String → String
unfolding in_table
known_or_unknown n = if is_empty n then "UNKNOWN" else if in_table n then n else "UNKNOWN"

module _ (u : UpperCase) where
  -- toGrpcCodeName; a missing code is `other`.
  unfoldable pub to_grpc_code_name : StatusCode → String
  unfolding by_number known_or_unknown
  to_grpc_code_name (number n) = or_else (by_number n grpc_status_by_number) "UNKNOWN"
  to_grpc_code_name (name s) = known_or_unknown (u.to_upper_case (trim s))
  to_grpc_code_name other = "UNKNOWN"

  -- mapGrpcCodeToHttpStatus
  unfoldable pub map_grpc_code_to_http_status : StatusCode → ℕ
  unfolding to_grpc_code_name lookup
  map_grpc_code_to_http_status code =
      or_else (lookup (to_grpc_code_name code) grpc_code_to_http_status) 500
