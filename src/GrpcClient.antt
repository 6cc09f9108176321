-- ===== src/GrpcClient.antt =====
-- The gRPC client of the backend's services: client/app/grpc/client.server.ts.
pub mod Settings
pub mod Calls
pub mod Clients
pub mod Services
pub mod Laws
use Prim.Native.String
use history_quiz.Prelude.{
  ℕ, String, ◌+◌, Bool, true, false, not, ◌&&◌, Option, none, some, List, [], ◌∷◌, if◌then◌else◌,
}
use history_quiz.Prelude.Letters.{UpperCase}
use history_quiz.Prelude.Text.{is_empty, trim}
use history_quiz.Errors.{
  StatusCode, number, name, other, ServiceError, Thrown, service_error, grpc_call_error, Result,
  returned, thrown,
}
use history_quiz.GrpcError.Codes.{by_number, grpc_status_by_number, or_else}
use history_quiz.RequestId.{Random, create_request_id}
use history_quiz.Observability.{
  Metrics, AccessLog, observe_grpc_call, ensure_observability_reporter_started,
}

-- GrpcCallContext
pub record GrpcCallContext : Type 0 where
  pub request_id : Option String
  pub timeout_ms : Option ℕ
  pub user_id : Option String

pub record NormalizedCallContext : Type 0 where
  pub request_id : String
  pub timeout_ms : ℕ
  pub user_id : String

-- A request message: its optional context, whose request id is optional, and its other fields.
pub record RpcRequest (B : Type 0) : Type 0 where
  pub context : Option (Option String)
  pub body : B

pub record GrpcCallResult (A : Type 0) : Type 0 where
  pub request_id : String
  pub response : A

pub record GrpcMetadata : Type 0 where
  pub request_id : String
  pub user_id : String

-- What the callback of a unary call is given.
pub data RpcAnswer (A : Type 0) : Type 0 where
  failed : ServiceError → RpcAnswer A
  replied : A → RpcAnswer A

-- A unary method: of the request, the metadata and the deadline.
abbrev pub UnaryMethod : Type 0 → Type 0 → Type 0
UnaryMethod B A = RpcRequest B → List (String × String) → ℕ → RpcAnswer A

-- toGrpcCodeName
unfoldable pub to_grpc_code_name : StatusCode → String
to_grpc_code_name (number n) = or_else (by_number n grpc_status_by_number) "UNKNOWN"
to_grpc_code_name _ = "UNKNOWN"

-- buildGrpcMetadata
abbrev pub build_grpc_metadata : (request_id user_id : String) → GrpcMetadata
build_grpc_metadata request_id user_id = record { request_id = request_id; user_id = user_id }

-- createMetadataObject
unfoldable pub create_metadata_object : GrpcMetadata → List (String × String)
create_metadata_object values =
    if not (is_empty values.user_id)
    then ("x-user-id", values.user_id) ∷ ("x-request-id", values.request_id) ∷ []
    else ("x-request-id", values.request_id) ∷ []

abbrev pub trimmed_or_empty : Option String → String
trimmed_or_empty none = ""
trimmed_or_empty (some s) = trim s

-- normalizeCallContext; `default_timeout_ms` is what resolveGrpcTimeoutMs gives.
unfoldable pub normalize_call_context :
    Random → (default_timeout_ms : ℕ) → GrpcCallContext → NormalizedCallContext
normalize_call_context random default_timeout_ms call_context = record {
  request_id = or_else call_context.request_id (create_request_id random);
  timeout_ms = or_else call_context.timeout_ms default_timeout_ms;
  user_id = trimmed_or_empty call_context.user_id;
}

-- withRequestContext
unfoldable pub with_request_context : {B : Type 0} → RpcRequest B → String → RpcRequest B
with_request_context request request_id = record request {
  context = some (some (or_else (or_else request.context none) request_id));
}

-- userId || undefined
abbrev pub user_for_log : String → Option String
user_for_log s = if is_empty s then none else some s

abbrev pub code_of : {A : Type 0} → RpcAnswer A → String
code_of (failed e) = to_grpc_code_name e.code
code_of (replied a) = "OK"

abbrev pub result_of : {A : Type 0} → String → RpcAnswer A → Result (GrpcCallResult A)
result_of request_id (failed e) = thrown (grpc_call_error (service_error e) request_id)
result_of request_id (replied a) = returned (record { request_id = request_id; response = a })

-- What a call meets outside: NODE_ENV, and the clock's readings for the deadline, at the start and
-- at the end.
pub record CallOutside : Type 0 where
  pub node_env : Option String
  pub deadline_from : ℕ
  pub started_at : ℕ
  pub ended_at : ℕ

module _ (u : UpperCase) (random : Random) (default_timeout_ms : ℕ) (outside : CallOutside) where
  -- invokeUnary
  unfoldable pub invoke_unary :
      {B A : Type 0}
      → UnaryMethod B A
      → (rpc_method_name : String) → GrpcCallContext
      → RpcRequest B
      → Metrics
      → Result (GrpcCallResult A) × Metrics × AccessLog
  invoke_unary method rpc_method_name call_context request metrics =
      let context = normalize_call_context random default_timeout_ms call_context in
      let answer =
        method (with_request_context request context.request_id)
          (create_metadata_object (build_grpc_metadata context.request_id context.user_id))
          (outside.deadline_from + context.timeout_ms) in
      let (metrics', log) =
        observe_grpc_call u random outside.ended_at (code_of answer) (some context.request_id)
          rpc_method_name outside.started_at (user_for_log context.user_id)
          (ensure_observability_reporter_started outside.node_env metrics).0 in
      (result_of context.request_id answer, metrics', log)
