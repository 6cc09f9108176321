-- ===== src/Question/Edit/Load.antt =====
-- Showing the form that edits a question: the loader of client/app/routes/questions.$id.edit.tsx.
pub mod Admitted
pub mod Laws
use history_quiz.Prelude.{ℕ, String, Option, none, some, List, ◌∷◌, []}
use history_quiz.Runtime.{Runtime}
use history_quiz.Errors.{Response, Result, returned, thrown, ◌>>=◌, catch}
use history_quiz.GrpcError.Normalize.{Params, throw_grpc_error_response}
use history_quiz.Web.{Request}
use history_quiz.RequestId.{Random, create_request_id}
use history_quiz.Session.{CookieStorage, IssuedCsrfToken, SessionUser}
use history_quiz.Auth.{require_authenticated_user}
use history_quiz.Csrf.{issue_csrf_token}
use history_quiz.Observability.{Metrics}
use history_quiz.GrpcClient.{
  GrpcCallContext, GrpcCallResult, RpcRequest, UnaryMethod, CallOutside, invoke_unary,
}
use history_quiz.GrpcClient.Settings.{get_my_question, question_rpc_method_name}
use history_quiz.Question.{QuestionDetail, QuestionDraft, GetMyQuestion, QuestionResponse}
use history_quiz.Question.Initial.{resolve_required_question_id, to_initial_form_values}
use history_quiz.Question.Posts.{check_question}

-- LoaderData, with the cookie of its answer.
pub record EditPage (C : Type 0) : Type 0 where
  pub csrf_token : String
  pub initial_values : QuestionDraft
  pub question_id : String
  pub request_id : String
  pub user_id : String
  pub set_cookie : Option C

-- The logged-in user, the path's id and the token, before the call of the backend.
pub record Visit (C : Type 0) : Type 0 where
  pub user : SessionUser
  pub question_id : String
  pub issued : IssuedCsrfToken C

module _ (r : Runtime) {C : Type 0} (storage : CookieStorage C) (random : Random)
    (request : Request C) where
  unfoldable pub admitted : (id : Option String) (random_bytes : List ℕ) → Result (Visit C)
  admitted id random_bytes = require_authenticated_user r storage request >>= λ user.
      resolve_required_question_id id >>= λ question_id.
      issue_csrf_token storage random_bytes request >>= λ issued.
      returned (record { user = user; question_id = question_id; issued = issued })

  -- The try statement and its catch clause, once the call is over.
  unfoldable pub page_of_call :
      (request_id : String)
      → Visit C
      → Result (GrpcCallResult QuestionResponse)
      → Result (EditPage C)
  page_of_call request_id visit called =
      catch
        (called >>= λ result.
          check_question "編集対象の問題データが見つかりません。" result.response.question >>= λ question.
          to_initial_form_values question >>= λ initial_values. returned (record {
            csrf_token = visit.issued.csrf_token;
            initial_values = initial_values;
            question_id = question.id;
            request_id = request_id;
            user_id = visit.user.user_id;
            set_cookie = visit.issued.set_cookie;
          }))
        (λ e. throw_grpc_error_response r (record {
          error = e;
          fallback_message = some "問題の取得に失敗しました。時間をおいて再試行してください。";
          request_id = some request_id;
        }))

  module _ (timeout : ℕ) (outside : CallOutside)
      (method : UnaryMethod GetMyQuestion QuestionResponse) where
    -- The call of getMyQuestion, under a new id.
    unfoldable pub load_visit : Result (Visit C) → Metrics → Result (EditPage C) × Metrics
    load_visit (thrown e) metrics = (thrown e, metrics)
    load_visit (returned visit) metrics =
        let request_id = create_request_id random in
        let called =
          invoke_unary r.upper random timeout outside method
            (question_rpc_method_name get_my_question)
            (record {
              request_id = some request_id;
              timeout_ms = none;
              user_id = some visit.user.user_id;
            })
            (record { context = none; body = record { question_id = visit.question_id } })
            metrics in
        (page_of_call request_id visit called.0, called.1)

    -- loader; `id` is params.id.
    unfoldable pub load_edit :
        (id : Option String) (random_bytes : List ℕ) → Metrics → Result (EditPage C) × Metrics
    load_edit id random_bytes metrics = load_visit (admitted id random_bytes) metrics
