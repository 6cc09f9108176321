-- ===== src/Quiz/Load.antt =====
-- Showing a quiz question: the loader of client/app/routes/quiz.tsx, with client/app/grpc/quiz.server.ts.
pub mod Laws
use history_quiz.Prelude.{ℕ, String, Option, none, some, List, if◌then◌else◌}
use history_quiz.Prelude.Text.{is_empty}
use history_quiz.Runtime.{Runtime}
use history_quiz.Errors.{Result, returned, thrown, Thrown, error, ◌>>=◌, catch}
use history_quiz.GrpcError.Normalize.{throw_grpc_error_response}
use history_quiz.Web.{Request, text}
use history_quiz.RequestId.{Random}
use history_quiz.Session.{CookieStorage, IssuedCsrfToken, get_user}
use history_quiz.Csrf.{issue_csrf_token}
use history_quiz.Observability.{Metrics}
use history_quiz.GrpcClient.{GrpcCallResult, UnaryMethod, CallOutside, invoke_unary}
use history_quiz.GrpcClient.Settings.{get_question, quiz_rpc_method_name}
use history_quiz.Quiz.{id_of_user, to_optional_trimmed_string}

pub record QuizChoice : Type 0 where
  pub id : String
  pub label : String
  pub ordinal : ℕ

pub record QuizQuestion : Type 0 where
  pub id : String
  pub prompt : String
  pub choices : List QuizChoice
  pub explanation : String

-- GetQuestionRequest and GetQuestionResponse, without their contexts.
pub record GetQuestion : Type 0 where
  pub previous_question_id : Option String

pub record GetQuestionResponse : Type 0 where
  pub question : Option QuizQuestion

-- The loader's data, with the cookie of its answer.
pub record QuizPage (C : Type 0) : Type 0 where
  pub csrf_token : String
  pub question : QuizQuestion
  pub request_id : String
  pub set_cookie : Option C

abbrev no_question : Result QuizQuestion
no_question = thrown (error "問題データの取得に失敗しました。")

-- !question || question.id.length === 0
unfoldable pub check_question : Option QuizQuestion → Result QuizQuestion
check_question none = no_question
check_question (some question) = if is_empty question.id then no_question else returned question

-- toOptionalTrimmedString, of a query's value.
abbrev asked : Option String → Option String
asked none = none
asked (some s) = to_optional_trimmed_string (some (text s))

module _ (r : Runtime) {C : Type 0} (storage : CookieStorage C) (random : Random) (timeout : ℕ)
    (outside : CallOutside) (method : UnaryMethod GetQuestion GetQuestionResponse)
    (request : Request C) where
  -- The try statement and its catch clause, once the call is over.
  unfoldable pub page_of :
      IssuedCsrfToken C → Result (GrpcCallResult GetQuestionResponse) → Result (QuizPage C)
  page_of issued called =
      catch
        (called >>= λ result. check_question result.response.question >>= λ question.
          returned (record {
            csrf_token = issued.csrf_token;
            question = question;
            request_id = result.request_id;
            set_cookie = issued.set_cookie;
          }))
        (λ e. throw_grpc_error_response r (record {
          error = e;
          fallback_message = some "問題の取得に失敗しました。時間をおいて再試行してください。";
          request_id = none;
        }))

  -- From the call of the backend on.
  unfoldable pub load_with : Result (IssuedCsrfToken C) → Metrics → Result (QuizPage C) × Metrics
  load_with (thrown e) metrics = (thrown e, metrics)
  load_with (returned issued) metrics =
      let called =
        invoke_unary r.upper random timeout outside method (quiz_rpc_method_name get_question)
          (record {
            request_id = none;
            timeout_ms = none;
            user_id = id_of_user (get_user storage request);
          })
          (record {
            context = none;
            body = record {
              previous_question_id = asked (request.url.search_param "previousQuestionId");
            };
          })
          metrics in
      (page_of issued called.0, called.1)

  -- loader; `random_bytes` are the bytes that a new token is made of.
  unfoldable pub load_quiz : (random_bytes : List ℕ) → Metrics → Result (QuizPage C) × Metrics
  load_quiz random_bytes metrics = load_with (issue_csrf_token storage random_bytes request) metrics
