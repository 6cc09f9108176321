-- ===== src/Quiz.antt =====
-- Answering a quiz question: client/app/routes/quiz.tsx (action), client/app/schemas/quiz.ts and
-- client/app/grpc/quiz.server.ts.
pub mod Laws
pub mod Load
pub mod Returns
use history_quiz.Prelude.{
  ℕ, String, Bool, true, false, not, ◌||◌, Option, none, some, List, [], ◌∷◌, ◌==◌, any,
  if◌then◌else◌,
}
use history_quiz.Prelude.Dict.{object_entries}
use history_quiz.Prelude.Text.{trimmed}
use history_quiz.Runtime.{Runtime}
use history_quiz.Errors.{Response, Result, returned, thrown, Thrown, ◌>>=◌}
use history_quiz.GrpcError.Codes.{or_else}
use history_quiz.GrpcError.Normalize.{
  Params, NormalizedGrpcHttpError, normalize_grpc_http_error, request_id_headers,
}
use history_quiz.Web.{Request, FormValue, text}
use history_quiz.RequestId.{Random}
use history_quiz.Session.{CookieStorage, SessionUser, get_user}
use history_quiz.Csrf.{verify_csrf_token}
use history_quiz.RequestSize.{assert_request_content_length_within_limit}
use history_quiz.Observability.{Metrics}
use history_quiz.GrpcClient.{
  GrpcCallContext, RpcRequest, GrpcCallResult, UnaryMethod, CallOutside, invoke_unary,
}
use history_quiz.GrpcClient.Settings.{submit_answer, quiz_rpc_method_name}

abbrev pub quiz_action_max_body_bytes : ℕ
quiz_action_max_body_bytes = 8192

-- SubmitAnswerRequest, without its context.
pub record SubmitAnswer : Type 0 where
  pub question_id : String
  pub selected_choice_id : String

pub record SubmitAnswerResponse : Type 0 where
  pub attempt_id : String
  pub correct_choice_id : String
  pub is_correct : Bool

pub record QuizResult : Type 0 where
  pub attempt_id : String
  pub correct_choice_id : String
  pub is_correct : Bool
  pub question_id : String
  pub selected_choice_id : String

pub record Refusal : Type 0 where
  pub message : String
  pub request_id : Option String
  pub selected_choice_id : Option String
  pub choice_id_error : Option String

-- ActionData: `ok: true` or `ok: false`.
pub data ActionData : Type 0 where
  graded : (request_id : String) → QuizResult → ActionData
  refused : Refusal → ActionData

-- What parseWithZod makes of the form under quizAnswerFormSchema: the trimmed question and choice,
-- or the first error of each.
pub data Submission : Type 0 where
  success : (question_id choice_id : String) → Submission
  failure : (question_id_error choice_id_error : Option String) → Submission

-- resolveQuizChoiceFieldError: the loop over the entries.
unfoldable pub first_choice_error : List (String × String) → Option String
first_choice_error [] = none
first_choice_error ((field, message) ∷ entries) =
    if field == "choiceId" || (field == "selectedChoiceId" || field == "selected_choice_id")
    then some message
    else first_choice_error entries

unfoldable pub resolve_quiz_choice_field_error : List (String × String) → Option String
resolve_quiz_choice_field_error field_errors = first_choice_error (object_entries field_errors)

-- toOptionalTrimmedString, of a form value.
unfoldable pub to_optional_trimmed_string : Option FormValue → Option String
to_optional_trimmed_string (some (text value)) = trimmed value
to_optional_trimmed_string _ = none

abbrev pub id_of_user : Option SessionUser → Option String
id_of_user none = none
id_of_user (some user) = some user.user_id

-- The answer to a form that does not pass the schema.
unfoldable pub invalid_form :
    (request_id : String)
    → (form : String → Option FormValue) → (question_id_error choice_id_error : Option String)
    → Response ActionData
invalid_form request_id form question_id_error choice_id_error = record {
  body = refused (record {
    message = or_else question_id_error "入力内容を確認してください。";
    request_id = some request_id;
    selected_choice_id = to_optional_trimmed_string (form "choiceId");
    choice_id_error = choice_id_error;
  });
  headers = ("x-request-id", request_id) ∷ [];
  status = 400;
}

-- The answer to a graded choice.
abbrev pub graded_answer :
    (question_id choice_id : String) → GrpcCallResult SubmitAnswerResponse → Response ActionData
graded_answer question_id choice_id result = record {
  body = graded result.request_id (record {
    attempt_id = result.response.attempt_id;
    correct_choice_id = result.response.correct_choice_id;
    is_correct = result.response.is_correct;
    question_id = question_id;
    selected_choice_id = choice_id;
  });
  headers = ("x-request-id", result.request_id) ∷ [];
  status = 200;
}

module _ (r : Runtime) where
  -- The answer of the catch clause.
  unfoldable pub failed_submit : (request_id choice_id : String) → Thrown → Response ActionData
  failed_submit request_id choice_id e =
      let normalized = normalize_grpc_http_error r (record {
        error = e;
        fallback_message = some "回答の送信に失敗しました。時間をおいて再試行してください。";
        request_id = some request_id;
      }) in
      record {
        body = refused (record {
          message = normalized.payload.message;
          request_id = normalized.request_id;
          selected_choice_id = some choice_id;
          choice_id_error = resolve_quiz_choice_field_error normalized.field_errors;
        });
        headers = request_id_headers normalized.request_id;
        status = normalized.http_status;
      }

  abbrev pub answer_of_result :
      (request_id question_id choice_id : String)
      → Result (GrpcCallResult SubmitAnswerResponse)
      → Response ActionData
  answer_of_result request_id question_id choice_id (returned result) =
      graded_answer question_id choice_id result
  answer_of_result request_id question_id choice_id (thrown e) =
      failed_submit request_id choice_id e

  module _ {C : Type 0} (storage : CookieStorage C) (random : Random) (timeout : ℕ)
      (outside : CallOutside) (method : UnaryMethod SubmitAnswer SubmitAnswerResponse)
      (request : Request C) where
    -- The two checks before the form is read for its answer: the body's size and the CSRF token.
    unfoldable pub checked_form :
        Result (String → Option FormValue) → Result (String × (String → Option FormValue))
    checked_form form_data =
        assert_request_content_length_within_limit random quiz_action_max_body_bytes request none
        >>= λ id. form_data >>= λ form.
            verify_csrf_token storage random form request (some id) >>= λ verified_id.
            returned (verified_id, form)

    -- From the parsed submission on, with the method of a client that was made.
    unfoldable pub submit :
        (request_id : String)
        → (form : String → Option FormValue) → Submission
        → Metrics
        → Response ActionData × Metrics
    submit request_id form (failure question_id_error choice_id_error) metrics =
        (invalid_form request_id form question_id_error choice_id_error, metrics)
    submit request_id form (success question_id choice_id) metrics =
        let called =
          invoke_unary r.upper random timeout outside method (quiz_rpc_method_name submit_answer)
            (record {
              request_id = some request_id;
              timeout_ms = none;
              user_id = id_of_user (get_user storage request);
            })
            (record {
              context = none;
              body = record { question_id = question_id; selected_choice_id = choice_id };
            })
            metrics in
        (answer_of_result request_id question_id choice_id called.0, called.1)

    abbrev pub after_checks :
        (parse : (String → Option FormValue) → Submission)
        → Metrics
        → Result (String × (String → Option FormValue))
        → Result (Response ActionData) × Metrics
    after_checks parse metrics (thrown e) = (thrown e, metrics)
    after_checks parse metrics (returned (id, form)) =
        let (answer, metrics') = submit id form (parse form) metrics in (returned answer, metrics')

    -- action; `form_data` is what request.formData() gives, `parse` is parseWithZod with the schema.
    unfoldable pub action :
        (form_data : Result (String → Option FormValue))
        (parse : (String → Option FormValue) → Submission)
        → Metrics
        → Result (Response ActionData) × Metrics
    action form_data parse metrics = after_checks parse metrics (checked_form form_data)
