-- ===== src/Tests/Calls.antt =====
-- Calls of the backend, an answered quiz question, and metrics.
use history_quiz.Prelude.{
  ℕ, String, ◌≡◌, ◌⊎◌, ◌<◌, ◌≤◌, ◌*◌, refl, true, false, Option, none, some, List, [], ◌∷◌, arith,
  length,
}
use history_quiz.Prelude.Decimal.{is_decimal, value_from}
use history_quiz.Prelude.Dict.{lookup}
use history_quiz.Prelude.Text.{trim, trimmed, non_blank}
use history_quiz.Errors.{
  number, ServiceError, service_error, grpc_call_error, Response, returned, thrown,
}
use history_quiz.Web.{FormValue}
use history_quiz.Session.{get_session_csrf_token, to_session_non_empty_string, get_user_session}
use history_quiz.Csrf.{
  to_optional_trimmed_token, safe_token_equals, tokens_match, verify_csrf_token,
}
use history_quiz.RequestSize.{
  infinite, parse_content_length_header, check_content_length,
  assert_request_content_length_within_limit, resolve_request_id,
}
use history_quiz.GrpcError.Status.{not_found}
use history_quiz.GrpcError.Normalize.{normalize_grpc_http_error}
use history_quiz.Observability.{current_window, grpc}
use history_quiz.Observability.Percentile.{calculate_p95, count_le, calculate_p95-least}
use history_quiz.Observability.Laws.{
  Observation, no_metrics, observe_all, for_key, summary, observe_all-summary,
}
use history_quiz.GrpcClient.{
  GrpcCallContext, RpcRequest, failed, replied, UnaryMethod, CallOutside, invoke_unary,
  with_request_context, normalize_call_context, create_metadata_object,
}
use history_quiz.GrpcClient.Laws.{invoke_unary-result, invoke_unary-normalized}
use history_quiz.Quiz.{
  SubmitAnswer, SubmitAnswerResponse, QuizResult, ActionData, Submission, success, graded_answer,
  action, checked_form, submit,
}
use history_quiz.Quiz.Laws.{IsGraded, action-graded}
use history_quiz.Tests.World.{
  world, upper, storage, random, request_with, alice_session, field_of_form,
}

abbrev outside : CallOutside
outside = record { node_env = none; deadline_from = 10; started_at = 11; ended_at = 15 }

abbrev context : GrpcCallContext
context = record { request_id = some "r1"; timeout_ms = some 50; user_id = some " alice " }

abbrev ping : RpcRequest String
ping = record { context = none; body = "ping" }

abbrev lost : ServiceError
lost = record { code = number 5; details = none; metadata = none }

abbrev refusing : UnaryMethod String String
refusing _ _ _ = failed lost

abbrev echo : UnaryMethod String String
echo request _ _ = replied request.body

invoke_unary-result_example :
    (invoke_unary upper random 3000 outside echo "rpc" context ping no_metrics).0
    ≡ returned (record { request_id = "r1"; response = "ping" })
invoke_unary-result_example =
    invoke_unary-result world random 3000 outside echo "rpc" context ping no_metrics

invoke_unary-normalized_example :
    ((invoke_unary upper random 3000 outside refusing "rpc" context ping no_metrics).0
      ≡ thrown (grpc_call_error (service_error lost) "r1"))
    × ((normalize_grpc_http_error world (record {
      error = grpc_call_error (service_error lost) "r1";
      fallback_message = none;
      request_id = none;
    })).http_status
        ≡ 404)
    × ((normalize_grpc_http_error world (record {
      error = grpc_call_error (service_error lost) "r1";
      fallback_message = none;
      request_id = none;
    })).request_id
        ≡ some (trim "r1"))
unfolding non_blank trim
invoke_unary-normalized_example =
    invoke_unary-normalized world random 3000 outside refusing "rpc" context ping no_metrics
      not_found lost none refl refl refl

abbrev samples : List ℕ
samples = 30 ∷ 10 ∷ 20 ∷ []

calculate_p95-least_example :
    (length samples * 95 ≤ count_le (calculate_p95 samples) samples * 100)
    × ((calculate_p95 samples ≤ 20) ⊎ (count_le 20 samples * 100 < length samples * 95))
calculate_p95-least_example = calculate_p95-least samples 20 (omega arith)

abbrev observations : List Observation
observations =
    record { is_error = true; latency_ms = 7; name = "x"; scope = grpc }
    ∷ record { is_error = false; latency_ms = 9; name = "x"; scope = grpc }
    ∷ []

observe_all-summary_example :
    current_window (lookup "grpc:x" (observe_all no_metrics observations).metric_store)
    ≡ summary (for_key "grpc:x" observations)
observe_all-summary_example = observe_all-summary observations "grpc:x"

abbrev grade : UnaryMethod SubmitAnswer SubmitAnswerResponse
grade request _ _ =
    replied (record { attempt_id = "a1"; correct_choice_id = "c2"; is_correct = true })

abbrev parse : (String → Option FormValue) → Submission
parse _ = success "q1" "c2"

abbrev graded_result : Response ActionData
graded_result = graded_answer "q1" "c2" (record {
  request_id = "u1";
  response = record { attempt_id = "a1"; correct_choice_id = "c2"; is_correct = true };
})

abbrev shown : QuizResult
shown = record {
  attempt_id = "a1";
  correct_choice_id = "c2";
  is_correct = true;
  question_id = "q1";
  selected_choice_id = "c2";
}

action-graded_example :
    IsGraded world storage random 3000 outside grade
      (request_with (some alice_session))
      (returned field_of_form)
      parse
      no_metrics
      graded_result
unfolding action checked_form submit invoke_unary trim trimmed non_blank get_session_csrf_token
    to_session_non_empty_string get_user_session to_optional_trimmed_token safe_token_equals
    tokens_match verify_csrf_token infinite parse_content_length_header check_content_length
    assert_request_content_length_within_limit resolve_request_id is_decimal value_from
    normalize_call_context with_request_context create_metadata_object
action-graded_example =
    action-graded world storage random 3000 outside grade (request_with (some alice_session))
      (returned field_of_form) parse no_metrics graded_result "u1" shown refl refl
