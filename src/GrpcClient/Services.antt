-- ===== src/GrpcClient/Services.antt =====
-- The calls of the three services by name: client/app/grpc/quiz.server.ts,
-- client/app/grpc/question.server.ts and client/app/grpc/user.server.ts. `method_of` is the client's
-- property of a method's name, and `clients` what getGrpcClients gives.
use history_quiz.Prelude.{ℕ}
use history_quiz.Prelude.Letters.{UpperCase}
use history_quiz.Errors.{Result}
use history_quiz.RequestId.{Random}
use history_quiz.Observability.{Metrics}
use history_quiz.GrpcClient.{GrpcCallContext, RpcRequest, GrpcCallResult, UnaryMethod, CallOutside}
use history_quiz.GrpcClient.Clients.{
  GrpcClients, call_quiz_service, call_question_service, call_user_service,
}
use history_quiz.GrpcClient.Settings.{QuizMethod, QuestionMethod, UserMethod}

module _ (u : UpperCase) (random : Random) (default_timeout_ms : ℕ) (outside : CallOutside)
    {N Q V B A : Type 0} (clients : Result (GrpcClients N Q V)) (call_context : GrpcCallContext)
    (request : RpcRequest B) (metrics : Metrics) where
  module _ (method_of : QuizMethod → Q → UnaryMethod B A) where
    unfoldable pub get_question : Result (GrpcCallResult A) × Metrics
    get_question =
        call_quiz_service u random default_timeout_ms outside clients method_of call_context
          QuizMethod.get_question request metrics

    unfoldable pub submit_answer : Result (GrpcCallResult A) × Metrics
    submit_answer =
        call_quiz_service u random default_timeout_ms outside clients method_of call_context
          QuizMethod.submit_answer request metrics

  module _ (method_of : QuestionMethod → N → UnaryMethod B A) where
    unfoldable pub create_question : Result (GrpcCallResult A) × Metrics
    create_question =
        call_question_service u random default_timeout_ms outside clients method_of call_context
          QuestionMethod.create_question request metrics

    unfoldable pub update_question : Result (GrpcCallResult A) × Metrics
    update_question =
        call_question_service u random default_timeout_ms outside clients method_of call_context
          QuestionMethod.update_question request metrics

    unfoldable pub get_my_question : Result (GrpcCallResult A) × Metrics
    get_my_question =
        call_question_service u random default_timeout_ms outside clients method_of call_context
          QuestionMethod.get_my_question request metrics

    unfoldable pub list_my_questions : Result (GrpcCallResult A) × Metrics
    list_my_questions =
        call_question_service u random default_timeout_ms outside clients method_of call_context
          QuestionMethod.list_my_questions request metrics

  module _ (method_of : UserMethod → V → UnaryMethod B A) where
    unfoldable pub get_my_stats : Result (GrpcCallResult A) × Metrics
    get_my_stats =
        call_user_service u random default_timeout_ms outside clients method_of call_context
          UserMethod.get_my_stats request metrics

    unfoldable pub list_my_attempts : Result (GrpcCallResult A) × Metrics
    list_my_attempts =
        call_user_service u random default_timeout_ms outside clients method_of call_context
          UserMethod.list_my_attempts request metrics
