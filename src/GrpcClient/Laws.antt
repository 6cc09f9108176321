-- ===== src/GrpcClient/Laws.antt =====
-- What a unary call sends, and what becomes of its failure.
use history_quiz.Prelude.{
  ℕ, String, ◌+◌, ◌≡◌, refl, ap, ◌∙◌, true, Option, none, some, List, [], ◌∷◌, if◌then◌else◌, arith,
}
use history_quiz.Prelude.Text.{is_empty, trim, non_blank}
use history_quiz.Runtime.{Runtime}
use history_quiz.Errors.{number, ServiceError, service_error, grpc_call_error, thrown}
use history_quiz.GrpcError.Codes.{or_else}
use history_quiz.GrpcError.Status.{GrpcStatus, number_of, documented}
use history_quiz.GrpcError.Violations.{has_text}
use history_quiz.GrpcError.Normalize.{
  normalize_grpc_http_error, normalized_answer, resolve_request_id,
}
use history_quiz.GrpcError.Laws.{normalize_grpc_http_error-number}
use history_quiz.RequestId.{Random, create_request_id}
use history_quiz.Observability.{Metrics}
use history_quiz.GrpcClient.{
  GrpcCallContext, RpcRequest, RpcAnswer, failed, UnaryMethod, create_metadata_object,
  build_grpc_metadata, normalize_call_context, with_request_context, CallOutside, invoke_unary,
  result_of, trimmed_or_empty,
}

-- The metadata that a call has to carry: the user only if one is logged in.
abbrev pub expected_metadata : String → Option String → List (String × String)
expected_metadata id none = ("x-request-id", id) ∷ []
expected_metadata id (some user) =
    if is_empty (trim user)
    then ("x-request-id", id) ∷ []
    else ("x-user-id", trim user) ∷ ("x-request-id", id) ∷ []

metadata-expected :
    (id : String) (user : Option String)
    → create_metadata_object (build_grpc_metadata id (trimmed_or_empty user))
      ≡ expected_metadata id user
unfolding create_metadata_object
metadata-expected id none = refl
metadata-expected id (some user) = ground arith

module _ (r : Runtime) (random : Random) (timeout : ℕ) (outside : CallOutside) {B A : Type 0}
    (method : UnaryMethod B A) (rpc : String) (context : GrpcCallContext) (request : RpcRequest B)
    (metrics : Metrics) where
  -- The id of the call: the caller's, or a new one.
  abbrev pub call_id : String
  call_id = or_else context.request_id (create_request_id random)

  -- What the backend's method answers to the call.
  abbrev pub backend_answer : RpcAnswer A
  backend_answer =
      method
        (record request { context = some (some (or_else (or_else request.context none) call_id)) })
        (expected_metadata call_id context.user_id)
        (outside.deadline_from + or_else context.timeout_ms timeout)

  -- A call returns the backend's reply, or throws its error, with one request id: the caller's, or a
  -- new one, which is sent in the metadata and, unless the message has its own, in the message. The
  -- user is sent, trimmed, exactly if the caller gives one that is not blank.
  pub invoke_unary-result :
      (invoke_unary r.upper random timeout outside method rpc context request metrics).0
      ≡ result_of call_id backend_answer
  unfolding invoke_unary normalize_call_context with_request_context
  invoke_unary-result = rw (metadata-expected call_id context.user_id)

  -- If the backend fails with the number of a gRPC status, the error that the call throws is
  -- answered with the status' documented HTTP status (500 where docs/tech.md has none), and with the
  -- id of the call if that has text and the route gives none.
  pub invoke_unary-normalized :
      (s : GrpcStatus) (e : ServiceError) (fallback : Option String)
      → backend_answer ≡ failed e
      → e.code ≡ number (number_of s)
      → non_blank call_id ≡ true
      → ((invoke_unary r.upper random timeout outside method rpc context request metrics).0
          ≡ thrown (grpc_call_error (service_error e) call_id))
        × ((normalize_grpc_http_error r (record {
          error = grpc_call_error (service_error e) call_id;
          fallback_message = fallback;
          request_id = none;
        })).http_status
            ≡ or_else (documented s) 500)
        × ((normalize_grpc_http_error r (record {
          error = grpc_call_error (service_error e) call_id;
          fallback_message = fallback;
          request_id = none;
        })).request_id
            ≡ some (trim call_id))
  unfolding normalize_grpc_http_error normalized_answer resolve_request_id has_text
  invoke_unary-normalized s e fallback h c t = (
    invoke_unary-result ∙ ap (result_of call_id) h,
    (normalize_grpc_http_error-number r
        (record {
          error = grpc_call_error (service_error e) call_id;
          fallback_message = fallback;
          request_id = none;
        })
        s e refl c).1,
    rw t,
  )
