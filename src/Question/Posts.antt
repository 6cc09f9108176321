-- ===== src/Question/Posts.antt =====
-- What the two forms of a question share: the guards and answers of the actions of
-- client/app/routes/questions.new.tsx and client/app/routes/questions.$id.edit.tsx.
pub mod Laws
use history_quiz.Prelude.{
  ℕ, String, Bool, true, false, Option, none, some, List, [], ◌∷◌, if◌then◌else◌,
}
use history_quiz.Prelude.Text.{is_empty}
use history_quiz.Runtime.{Runtime}
use history_quiz.Errors.{Response, Result, returned, thrown, Thrown, error, ◌>>=◌}
use history_quiz.GrpcError.Normalize.{
  Params, NormalizedGrpcHttpError, normalize_grpc_http_error, request_id_headers,
}
use history_quiz.Web.{Request, FormValue}
use history_quiz.RequestId.{Random}
use history_quiz.Session.{CookieStorage, SessionUser}
use history_quiz.Auth.{require_authenticated_user}
use history_quiz.Csrf.{verify_csrf_token}
use history_quiz.RequestSize.{assert_request_content_length_within_limit}
use history_quiz.GrpcClient.{GrpcCallResult}
use history_quiz.Question.{QuestionDetail, QuestionDraft, QuestionResponse}
use history_quiz.Question.Schema.{to_question_conform_field_errors}

abbrev pub question_action_max_body_bytes : ℕ
question_action_max_body_bytes = 32768

-- What parseWithZod makes of the form under createQuestionFormSchema: the draft, or its errors.
pub data Submission : Type 0 where
  success : QuestionDraft → Submission
  failure : Submission

-- submission.reply(): with no option, with resetForm, or with formErrors and fieldErrors.
pub data Reply : Type 0 where
  plain : Reply
  reset_form : Reply
  with_errors : (form_errors : List String) (field_errors : List (String × List String)) → Reply

pub record SavedQuestion : Type 0 where
  pub id : String
  pub prompt : String

pub record ActionData : Type 0 where
  pub ok : Bool
  pub message : Option String
  pub question : Option SavedQuestion
  pub request_id : Option String
  pub submission_result : Option Reply

-- !question || question.id.length === 0, in the try statement.
unfoldable pub check_question : (missing : String) → Option QuestionDetail → Result QuestionDetail
check_question missing none = thrown (error missing)
check_question missing (some question) =
    if is_empty question.id then thrown (error missing) else returned question

-- The answer to a form that does not pass the schema.
unfoldable pub invalid_form : (request_id : String) → Response ActionData
invalid_form request_id = record {
  body = record {
    ok = false;
    message = some "入力内容を確認してください。";
    question = none;
    request_id = some request_id;
    submission_result = some plain;
  };
  headers = ("x-request-id", request_id) ∷ [];
  status = 400;
}

-- The answer to a question that is saved.
abbrev pub saved_answer : Reply → (request_id : String) → QuestionDetail → Response ActionData
saved_answer reply request_id question = record {
  body = record {
    ok = true;
    message = none;
    question = some (record { id = question.id; prompt = question.prompt });
    request_id = some request_id;
    submission_result = some reply;
  };
  headers = ("x-request-id", request_id) ∷ [];
  status = 200;
}

-- A form that has passed the guards, with its user and the id of its request.
pub record Post : Type 0 where
  pub user : SessionUser
  pub request_id : String
  pub form : String → Option FormValue

module _ (r : Runtime) where
  -- The answer of the catch clause.
  unfoldable pub failed_save : (fallback request_id : String) → Thrown → Response ActionData
  failed_save fallback request_id e =
      let normalized =
        normalize_grpc_http_error r
          (record { error = e; fallback_message = some fallback; request_id = some request_id }) in
      record {
        body = record {
          ok = false;
          message = some normalized.payload.message;
          question = none;
          request_id = normalized.request_id;
          submission_result = some (
              with_errors (normalized.payload.message ∷ [])
                (to_question_conform_field_errors normalized.field_errors));
        };
        headers = request_id_headers normalized.request_id;
        status = normalized.http_status;
      }

  -- try { return m } catch (error) { return h(error) }
  abbrev pub settle :
      Result (Response ActionData) → (Thrown → Response ActionData) → Response ActionData
  settle (returned a) h = a
  settle (thrown e) h = h e

  -- The try statement and its catch clause, once the call is over: `missing` is the error for an
  -- answer without a question, `answered` the answer otherwise.
  unfoldable pub answer_of_call :
      (missing fallback request_id : String)
      (answered : (shown_id : String) → QuestionDetail → Response ActionData)
      → Result (GrpcCallResult QuestionResponse)
      → Response ActionData
  answer_of_call missing fallback request_id answered called =
      settle
        (called >>= λ result. check_question missing result.response.question >>= λ question.
          returned (answered result.request_id question))
        (failed_save fallback request_id)

  -- The guards, in their order: the login, the body's size and the CSRF token.
  unfoldable pub checked_post :
      {C : Type 0}
      → CookieStorage C
      → Random
      → Request C
      → (form_data : Result (String → Option FormValue)) → Result Post
  checked_post storage random request form_data =
      require_authenticated_user r storage request >>= λ user.
      assert_request_content_length_within_limit random question_action_max_body_bytes request none
      >>= λ id. form_data >>= λ form.
          verify_csrf_token storage random form request (some id) >>= λ verified_id.
          returned (record { user = user; request_id = verified_id; form = form })
