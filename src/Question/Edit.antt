-- ===== src/Question/Edit.antt =====
-- Editing a question: the loader and the action of client/app/routes/questions.$id.edit.tsx.
pub mod Calls
pub mod Journey
pub mod Laws
pub mod Load
use history_quiz.Prelude.{ℕ, String, false, Option, none, some, List, ◌∷◌, []}
use history_quiz.Runtime.{Runtime}
use history_quiz.Errors.{Response, Result, returned, thrown}
use history_quiz.Web.{Request, FormValue}
use history_quiz.RequestId.{Random}
use history_quiz.Session.{CookieStorage}
use history_quiz.Observability.{Metrics}
use history_quiz.GrpcClient.{
  GrpcCallContext, GrpcCallResult, RpcRequest, UnaryMethod, CallOutside, invoke_unary,
}
use history_quiz.GrpcClient.Settings.{update_question, question_rpc_method_name}
use history_quiz.Question.{UpdateQuestion, QuestionResponse}
use history_quiz.Question.Initial.{id_param}
use history_quiz.Question.Posts.{
  ActionData, Submission, success, failure, Post, plain, invalid_form, saved_answer, answer_of_call,
  checked_post,
}

-- The call context of updateQuestion.
abbrev pub update_context : Post → GrpcCallContext
update_context post = record {
  request_id = some post.request_id;
  timeout_ms = none;
  user_id = some post.user.user_id;
}

-- The answer to a path without an id.
unfoldable pub without_id : (request_id : String) → Response ActionData
without_id request_id = record {
  body = record {
    ok = false;
    message = some "id が指定されていません。";
    question = none;
    request_id = some request_id;
    submission_result = none;
  };
  headers = ("x-request-id", request_id) ∷ [];
  status = 400;
}

module _ (r : Runtime) {C : Type 0} (storage : CookieStorage C) (random : Random)
    (request : Request C) (timeout : ℕ) (outside : CallOutside)
    (method : UnaryMethod UpdateQuestion QuestionResponse) where
  -- From the parsed submission on, with the method of a client that was made.
  unfoldable pub save_edited :
      Post → (question_id : String) → Submission → Metrics → Response ActionData × Metrics
  save_edited post question_id failure metrics = (invalid_form post.request_id, metrics)
  save_edited post question_id (success draft) metrics =
      let called =
        invoke_unary r.upper random timeout outside method
          (question_rpc_method_name update_question) (update_context post)
          (record { context = none; body = record { question_id = question_id; draft = draft } })
          metrics in
      (
        answer_of_call r "更新結果の問題IDが取得できませんでした。" "問題の更新に失敗しました。時間をおいて再試行してください。" post.request_id
            (λ shown_id. saved_answer plain post.request_id) called.0,
        called.1,
      )

  -- From the path's id on.
  abbrev pub edit_with :
      (parse : (String → Option FormValue) → Submission)
      → Post
      → Option String
      → Metrics
      → Response ActionData × Metrics
  edit_with parse post none metrics = (without_id post.request_id, metrics)
  edit_with parse post (some question_id) metrics =
      save_edited post question_id (parse post.form) metrics

  abbrev pub after_guards :
      (id : Option String) (parse : (String → Option FormValue) → Submission)
      → Metrics
      → Result Post
      → Result (Response ActionData) × Metrics
  after_guards id parse metrics (thrown e) = (thrown e, metrics)
  after_guards id parse metrics (returned post) =
      let (answer, metrics') = edit_with parse post (id_param id) metrics in
      (returned answer, metrics')

  -- action; `id` is params.id, `form_data` is what request.formData() gives, `parse` is
  -- parseWithZod with the schema.
  unfoldable pub edit_action :
      (id : Option String) (form_data : Result (String → Option FormValue))
      (parse : (String → Option FormValue) → Submission)
      → Metrics
      → Result (Response ActionData) × Metrics
  edit_action id form_data parse metrics =
      after_guards id parse metrics (checked_post r storage random request form_data)
