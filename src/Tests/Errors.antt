-- ===== src/Tests/Errors.antt =====
-- Errors of the backend, redirects and body sizes.
use Prim.Native.String
use history_quiz.Prelude.{
  ℕ, String, ◌≡◌, ◌⊎◌, refl, none, some, List, [], ◌∷◌, if◌then◌else◌, inl, ◌==◌,
}
use history_quiz.Errors.{
  FieldViolation, MetadataValue, number, name, ServiceError, service_error, grpc_call_error, Result,
  returned, thrown, redirect_response,
}
use history_quiz.Session.{SessionUser, get_user}
use history_quiz.GrpcError.Codes.{to_grpc_code_name, map_grpc_code_to_http_status}
use history_quiz.GrpcError.Status.{not_found, map_grpc_code_to_http_status-documented}
use history_quiz.GrpcError.Normalize.{Params, normalize_grpc_http_error}
use history_quiz.GrpcError.Laws.{normalize_grpc_http_error-hides}
use history_quiz.Auth.{require_authenticated_user, redirect, login_path}
use history_quiz.Auth.Laws.{IsReturnPath, require_authenticated_user-cases}
use history_quiz.RequestSize.{
  resolve_request_id as size_request_id, assert_request_content_length_within_limit,
}
use history_quiz.Tests.World.{world, upper, storage, random, request_with, url}

map_grpc_code_to_http_status-documented_example :
    (map_grpc_code_to_http_status upper (number 5) ≡ 404)
    × (map_grpc_code_to_http_status upper (name "NOT_FOUND") ≡ 404)
map_grpc_code_to_http_status-documented_example =
    map_grpc_code_to_http_status-documented upper not_found

abbrev metadata : String → List MetadataValue
metadata k = if k == "x-request-id" then MetadataValue.text " r9 " ∷ [] else []

abbrev missing : ServiceError
missing = record { code = number 5; details = some "no row"; metadata = some metadata }

abbrev missing_params : Params
missing_params = record {
  error = grpc_call_error (service_error missing) "r1";
  fallback_message = none;
  request_id = none;
}

abbrev two_violations : List FieldViolation
two_violations =
    record { description = "short"; field = "prompt" }
    ∷ record { description = "empty"; field = "prompt" }
    ∷ []

abbrev crash : ServiceError
crash = record { code = number 13; details = some "stack trace"; metadata = none }

normalize_grpc_http_error-hides_example :
    normalize_grpc_http_error world
      (record { error = service_error crash; fallback_message = none; request_id = none })
    ≡ normalize_grpc_http_error world (record {
      error = service_error (record crash { details = none });
      fallback_message = none;
      request_id = none;
    })
unfolding to_grpc_code_name
normalize_grpc_http_error-hides_example =
    normalize_grpc_http_error-hides world crash none none none (inl refl)

-- A path that browsers read as the host `evil`.
require_authenticated_user-cases_example :
    ((user : SessionUser) × (get_user storage (request_with none) ≡ some user)
      × (require_authenticated_user world storage (request_with none) ≡ returned user))
    ⊎ ((t : String) × (get_user storage (request_with none) ≡ none)
        × IsReturnPath url t
        × (require_authenticated_user world storage (request_with none)
            ≡ thrown (
                redirect_response
                  (redirect (String.◌++◌ login_path (String.◌++◌ "?redirectTo=" t))))))
require_authenticated_user-cases_example =
    require_authenticated_user-cases world storage (request_with none)

abbrev size_check : ℕ → Result String
size_check max_bytes =
    assert_request_content_length_within_limit random max_bytes (request_with none) (some "r1")
