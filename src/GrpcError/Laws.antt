-- ===== src/GrpcError/Laws.antt =====
-- What normalizeGrpcHttpError answers: its status, and which texts can reach a user.
use history_quiz.Prelude.{String, ◌≡◌, ◌⊎◌, inl, inr, ap, ◌∙◌, true, Option, none, some, ◌==◌, any}
use history_quiz.Runtime.{Runtime}
use history_quiz.Errors.{number, ServiceError, service_error}
use history_quiz.GrpcError.Codes.{or_else, to_grpc_code_name}
use history_quiz.GrpcError.Status.{
  GrpcStatus, name_of, number_of, documented, to_grpc_code_name-number,
  map_grpc_code_to_http_status-documented,
}
use history_quiz.GrpcError.Known.{to_grpc_code_name-IsKnown}
use history_quiz.GrpcError.Violations.{has_text, parse_field_violations}
use history_quiz.GrpcError.Normalize.{
  Params, sensitive_grpc_codes, extract_service_error, build_user_facing_message,
  normalize_grpc_http_error, normalized_answer, status_code, resolve_request_id,
}

-- The details take no part in the message, if the code is sensitive or a fallback is given.
build_user_facing_message-hides :
    (f : Option String) (c : String) (m m' : Option String)
    → (any (λ k. k == c) sensitive_grpc_codes ≡ true) ⊎ (has_text f ≡ true)
    → build_user_facing_message f c m ≡ build_user_facing_message f c m'
unfolding build_user_facing_message
build_user_facing_message-hides f c m m' (inl h) = rw h
build_user_facing_message-hides f c m m' (inr h) = rw h

module _ (r : Runtime) where
  -- For everything that a catch can bind there is a gRPC status whose name is the code of the
  -- answer, and the HTTP status is the documented one, or 500 where docs/tech.md has none.
  pub normalize_grpc_http_error-status :
      (p : Params)
      → (s : GrpcStatus) × ((normalize_grpc_http_error r p).grpc_code ≡ name_of s)
        × ((normalize_grpc_http_error r p).http_status ≡ or_else (documented s) 500)
  unfolding normalize_grpc_http_error normalized_answer
  normalize_grpc_http_error-status p =
      let (s, e) =
        to_grpc_code_name-IsKnown r.upper (status_code (extract_service_error p.error).0) in
      (s, e, rw e (map_grpc_code_to_http_status-documented r.upper s).1)

  -- A caught service error with the number of a gRPC status, bare or wrapped with a request id, gets
  -- the status' name as its code and its documented HTTP status, or 500 where docs/tech.md has none.
  pub normalize_grpc_http_error-number :
      (p : Params) (s : GrpcStatus) (e : ServiceError)
      → (extract_service_error p.error).0 ≡ some e
      → e.code ≡ number (number_of s)
      → ((normalize_grpc_http_error r p).grpc_code ≡ name_of s)
        × ((normalize_grpc_http_error r p).http_status ≡ or_else (documented s) 500)
  unfolding normalize_grpc_http_error normalized_answer
  normalize_grpc_http_error-number p s e w h =
      let known : to_grpc_code_name r.upper (status_code (extract_service_error p.error).0)
          ≡ name_of s =
        ap (λ o. to_grpc_code_name r.upper (status_code o)) w
        ∙ (ap (to_grpc_code_name r.upper) h ∙ to_grpc_code_name-number r.upper s) in
      (known, rw known (map_grpc_code_to_http_status-documented r.upper s).1)

  -- Two service errors that differ only in their details get the same answer, if their code is
  -- INTERNAL, UNKNOWN or DATA_LOSS, or the caller gives a fallback message with text.
  pub normalize_grpc_http_error-hides :
      (e : ServiceError) (d fallback id : Option String)
      → (any (λ c. c == to_grpc_code_name r.upper e.code) sensitive_grpc_codes ≡ true)
        ⊎ (has_text fallback ≡ true)
      → normalize_grpc_http_error r
          (record { error = service_error e; fallback_message = fallback; request_id = id })
        ≡ normalize_grpc_http_error r (record {
          error = service_error (record e { details = d });
          fallback_message = fallback;
          request_id = id;
        })
  unfolding normalize_grpc_http_error
  normalize_grpc_http_error-hides e d fallback id h =
      ap
        (normalized_answer r (to_grpc_code_name r.upper e.code)
          (resolve_request_id r id none e.metadata) (parse_field_violations r e.metadata))
        (build_user_facing_message-hides fallback (to_grpc_code_name r.upper e.code) e.details d h)
