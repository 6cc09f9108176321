-- ===== src/GrpcError/Normalize.antt =====
-- normalizeGrpcHttpError and its helpers, of client/app/services/grpc-error.server.ts.
use history_quiz.Prelude.{ℕ, String, Option, none, some, List, [], ◌∷◌, if◌then◌else◌, any, ◌==◌}
use history_quiz.Prelude.Dict.{lookup}
use history_quiz.Prelude.Text.{is_empty, trim}
use history_quiz.Runtime.{Runtime}
use history_quiz.Errors.{
  FieldViolation, HttpErrorPayload, Response, MetadataValue, StatusCode, name, other, ServiceError,
  Thrown, service_error, grpc_call_error, Result, thrown, error_response,
}
use history_quiz.GrpcError.Codes.{or_else, to_grpc_code_name, map_grpc_code_to_http_status}
use history_quiz.GrpcError.Violations.{
  request_id_metadata_keys, has_text, get_metadata_string, parse_field_violations, to_field_errors,
}

abbrev pub sensitive_grpc_codes : List String
sensitive_grpc_codes = "INTERNAL" ∷ "UNKNOWN" ∷ "DATA_LOSS" ∷ []

abbrev pub internal_message : String
internal_message = "サーバー内部でエラーが発生しました。時間をおいて再試行してください。"

abbrev pub default_user_messages : List (String × String)
default_user_messages =
    ("ABORTED", "競合が発生しました。再度お試しください。")
    ∷ ("ALREADY_EXISTS", "すでに同じデータが存在します。")
    ∷ ("DATA_LOSS", internal_message)
    ∷ ("DEADLINE_EXCEEDED", "処理がタイムアウトしました。時間をおいて再試行してください。")
    ∷ ("FAILED_PRECONDITION", "現在の状態ではこの操作を実行できません。")
    ∷ ("INTERNAL", internal_message)
    ∷ ("INVALID_ARGUMENT", "入力内容を確認してください。")
    ∷ ("NOT_FOUND", "対象データが見つかりませんでした。")
    ∷ ("OUT_OF_RANGE", "入力値が許可範囲外です。")
    ∷ ("PERMISSION_DENIED", "権限がありません。")
    ∷ ("RESOURCE_EXHAUSTED", "アクセスが集中しています。しばらくしてから再試行してください。")
    ∷ ("UNAUTHENTICATED", "ログインが必要です。")
    ∷ ("UNAVAILABLE", "現在サービスを利用できません。時間をおいて再試行してください。")
    ∷ ("UNIMPLEMENTED", "未実装の機能です。")
    ∷ ("UNKNOWN", internal_message)
    ∷ []

pub record NormalizedGrpcHttpError : Type 0 where
  pub field_errors : List (String × String)
  pub grpc_code : String
  pub http_status : ℕ
  pub payload : HttpErrorPayload
  pub request_id : Option String

pub record Params : Type 0 where
  pub error : Thrown
  pub fallback_message : Option String
  pub request_id : Option String

-- asServiceError
abbrev pub as_service_error : Thrown → Option ServiceError
as_service_error (service_error e) = some e
as_service_error _ = none

-- extractServiceError: the service error, and the request id of a wrapper.
abbrev pub extract_service_error : Thrown → Option ServiceError × Option String
extract_service_error (grpc_call_error e id) = (as_service_error e, some id)
extract_service_error e = (as_service_error e, none)

-- buildUserFacingMessage
unfoldable pub build_user_facing_message : Option String → String → Option String → String
unfolding has_text trim lookup
build_user_facing_message fallback_message grpc_code service_message =
    if has_text fallback_message
    then trim (or_else fallback_message "")
    else if any (λ c. c == grpc_code) sensitive_grpc_codes
    then or_else (lookup grpc_code default_user_messages) "サーバー内部でエラーが発生しました。"
    else if has_text service_message
    then trim (or_else service_message "")
    else or_else (lookup grpc_code default_user_messages) "エラーが発生しました。"

abbrev pub status_code : Option ServiceError → StatusCode
status_code none = other
status_code (some e) = e.code

abbrev pub metadata_of : Option ServiceError → Option (String → List MetadataValue)
metadata_of none = none
metadata_of (some e) = e.metadata

abbrev pub details_of : Option ServiceError → Option String
details_of none = none
details_of (some e) = e.details

abbrev pub details_payload : List FieldViolation → Option (List FieldViolation)
details_payload [] = none
details_payload (v ∷ vs) = some (v ∷ vs)

-- requestId ? { "x-request-id": requestId } : undefined
abbrev pub request_id_headers : Option String → List (String × String)
request_id_headers none = []
request_id_headers (some id) = if is_empty id then [] else ("x-request-id", id) ∷ []

module _ (r : Runtime) where
  -- The loop of resolveRequestId over the metadata keys.
  unfoldable pub request_id_from : (String → List MetadataValue) → List String → Option String
  unfolding has_text get_metadata_string trim
  request_id_from metadata [] = none
  request_id_from metadata (key ∷ keys) =
      let value = get_metadata_string r metadata key in
      let rest = request_id_from metadata keys in
      if has_text value then some (trim (or_else value "")) else rest

  -- resolveRequestId
  unfoldable pub resolve_request_id :
      (explicit wrapped : Option String) → Option (String → List MetadataValue) → Option String
  unfolding has_text trim request_id_from
  resolve_request_id explicit wrapped metadata =
      if has_text explicit
      then some (trim (or_else explicit ""))
      else if has_text wrapped
      then some (trim (or_else wrapped ""))
      else elim metadata [ none ↦ none | some m ↦ request_id_from m request_id_metadata_keys ]

  -- The object that normalizeGrpcHttpError returns, from its local constants.
  unfoldable pub normalized_answer :
      String → Option String → List FieldViolation → String → NormalizedGrpcHttpError
  normalized_answer grpc_code request_id violations message = record {
    field_errors = to_field_errors violations;
    grpc_code = grpc_code;
    http_status = map_grpc_code_to_http_status r.upper (name grpc_code);
    payload = record {
      code = grpc_code;
      field_violations = details_payload violations;
      message = message;
      request_id = request_id;
    };
    request_id = request_id;
  }

  -- normalizeGrpcHttpError
  unfoldable pub normalize_grpc_http_error : Params → NormalizedGrpcHttpError
  normalize_grpc_http_error params =
      let (caught, wrapped) = extract_service_error params.error in
      let grpc_code = to_grpc_code_name r.upper (status_code caught) in
      let request_id = resolve_request_id params.request_id wrapped (metadata_of caught) in
      let violations = parse_field_violations r (metadata_of caught) in
      let message =
        build_user_facing_message params.fallback_message grpc_code (details_of caught) in
      normalized_answer grpc_code request_id violations message

  -- createGrpcErrorResponse
  unfoldable pub create_grpc_error_response : Params → Response HttpErrorPayload
  create_grpc_error_response params =
      let normalized = normalize_grpc_http_error params in
      record {
        body = normalized.payload;
        headers = request_id_headers normalized.request_id;
        status = normalized.http_status;
      }

  -- throwGrpcErrorResponse
  unfoldable pub throw_grpc_error_response {ℓ} : {A : Type ℓ} → Params → Result A
  throw_grpc_error_response params = thrown (error_response (create_grpc_error_response params))
