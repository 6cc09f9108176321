-- ===== src/GrpcClient/Calls.antt =====
-- A unary call in its two parts, for calls that run at the same time: what invokeUnary of
-- client/app/grpc/client.server.ts does at once, and what its callback does.
use history_quiz.Prelude.{ℕ, ◌+◌, String, ◌≡◌, refl, some}
use history_quiz.Prelude.Letters.{UpperCase}
use history_quiz.Errors.{Result}
use history_quiz.RequestId.{Random}
use history_quiz.Observability.{
  Metrics, AccessLog, observe_grpc_call, ensure_observability_reporter_started,
}
use history_quiz.GrpcClient.{
  GrpcCallContext, NormalizedCallContext, RpcRequest, GrpcCallResult, RpcAnswer, UnaryMethod,
  create_metadata_object, build_grpc_metadata, normalize_call_context, with_request_context,
  user_for_log, code_of, result_of, CallOutside, invoke_unary,
}

module _ (u : UpperCase) (random : Random) (outside : CallOutside) where
  -- The call of the client's method.
  unfoldable pub send_unary :
      {B A : Type 0} → UnaryMethod B A → NormalizedCallContext → RpcRequest B → RpcAnswer A
  send_unary method context request =
      method (with_request_context request context.request_id)
        (create_metadata_object (build_grpc_metadata context.request_id context.user_id))
        (outside.deadline_from + context.timeout_ms)

  -- The callback, with the metrics of its time.
  unfoldable pub settle_unary :
      {A : Type 0}
      → (rpc_method_name : String) → NormalizedCallContext
      → RpcAnswer A
      → Metrics
      → Result (GrpcCallResult A) × Metrics × AccessLog
  settle_unary rpc_method_name context answer metrics =
      let (metrics', log) =
        observe_grpc_call u random outside.ended_at (code_of answer) (some context.request_id)
          rpc_method_name outside.started_at (user_for_log context.user_id) metrics in
      (result_of context.request_id answer, metrics', log)

  -- A call that nothing else runs beside is its two parts, one after the other.
  pub invoke_unary-parts :
      {B A : Type 0} (method : UnaryMethod B A) (default_timeout_ms : ℕ) (rpc : String)
      (call_context : GrpcCallContext) (request : RpcRequest B) (metrics : Metrics)
      → invoke_unary u random default_timeout_ms outside method rpc call_context request metrics
        ≡ settle_unary rpc
            (normalize_call_context random default_timeout_ms call_context)
            (send_unary method
              (normalize_call_context random default_timeout_ms call_context)
              request)
            (ensure_observability_reporter_started outside.node_env metrics).0
  unfolding invoke_unary settle_unary send_unary
  invoke_unary-parts method default_timeout_ms rpc call_context request metrics = refl
