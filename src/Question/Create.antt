-- ===== src/Question/Create.antt =====
-- Making a question: the loader and the action of client/app/routes/questions.new.tsx.
pub mod Journey
pub mod Laws
use history_quiz.Prelude.{ℕ, String, Option, none, some, List}
use history_quiz.Runtime.{Runtime}
use history_quiz.Errors.{Response, Result, returned, thrown, ◌>>=◌}
use history_quiz.Web.{Request, FormValue}
use history_quiz.RequestId.{Random}
use history_quiz.Session.{CookieStorage, IssuedCsrfToken}
use history_quiz.Auth.{require_authenticated_user}
use history_quiz.Csrf.{issue_csrf_token}
use history_quiz.Observability.{Metrics}
use history_quiz.GrpcClient.{
  GrpcCallContext, GrpcCallResult, RpcRequest, UnaryMethod, CallOutside, invoke_unary,
}
use history_quiz.GrpcClient.Settings.{create_question, question_rpc_method_name}
use history_quiz.Question.{CreateQuestion, QuestionResponse}
use history_quiz.Question.Posts.{
  ActionData, Submission, success, failure, Post, reset_form, invalid_form, saved_answer,
  answer_of_call, checked_post,
}

-- The call context and the request of createQuestion.
abbrev pub create_context : Post → GrpcCallContext
create_context post = record {
  request_id = some post.request_id;
  timeout_ms = none;
  user_id = some post.user.user_id;
}

module _ (r : Runtime) {C : Type 0} (storage : CookieStorage C) (random : Random)
    (request : Request C) where
  -- loader, whose data is the token, with the cookie of its answer.
  unfoldable pub load_new : (random_bytes : List ℕ) → Result (IssuedCsrfToken C)
  load_new random_bytes = require_authenticated_user r storage request >>= λ user.
      issue_csrf_token storage random_bytes request

  module _ (timeout : ℕ) (outside : CallOutside)
      (method : UnaryMethod CreateQuestion QuestionResponse) where
    -- From the parsed submission on, with the method of a client that was made.
    unfoldable pub save_new : Post → Submission → Metrics → Response ActionData × Metrics
    save_new post failure metrics = (invalid_form post.request_id, metrics)
    save_new post (success draft) metrics =
        let called =
          invoke_unary r.upper random timeout outside method
            (question_rpc_method_name create_question) (create_context post)
            (record { context = none; body = record { draft = draft } }) metrics in
        (
          answer_of_call r "作成結果の問題IDが取得できませんでした。" "問題の保存に失敗しました。時間をおいて再試行してください。" post.request_id
              (saved_answer reset_form) called.0,
          called.1,
        )

    abbrev pub after_guards :
        (parse : (String → Option FormValue) → Submission)
        → Metrics
        → Result Post
        → Result (Response ActionData) × Metrics
    after_guards parse metrics (thrown e) = (thrown e, metrics)
    after_guards parse metrics (returned post) =
        let (answer, metrics') = save_new post (parse post.form) metrics in
        (returned answer, metrics')

    -- action; `form_data` is what request.formData() gives, `parse` is parseWithZod with the schema.
    unfoldable pub create_action :
        (form_data : Result (String → Option FormValue))
        (parse : (String → Option FormValue) → Submission)
        → Metrics
        → Result (Response ActionData) × Metrics
    create_action form_data parse metrics =
        after_guards parse metrics (checked_post r storage random request form_data)
