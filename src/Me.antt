-- ===== src/Me.antt =====
-- The page of the logged-in user: the loader of client/app/routes/me.tsx. Messages has what it
-- sends to the backend and receives.
pub mod Failures
pub mod Laws
pub mod Messages
use history_quiz.Prelude.{ℕ, String, Bool, Option, none, some, List, [], ◌∷◌, if◌then◌else◌}
use history_quiz.Runtime.{Runtime}
use history_quiz.Errors.{Result, returned, thrown, Thrown, ◌>>=◌, catch}
use history_quiz.GrpcError.Normalize.{Params, throw_grpc_error_response}
use history_quiz.Web.{Request}
use history_quiz.RequestId.{Random, create_request_id}
use history_quiz.Session.{CookieStorage, SessionUser}
use history_quiz.Auth.{require_authenticated_user}
use history_quiz.Observability.{Metrics, ensure_observability_reporter_started}
use history_quiz.GrpcClient.{
  GrpcCallContext, NormalizedCallContext, RpcRequest, GrpcCallResult, RpcAnswer, UnaryMethod,
  CallOutside, normalize_call_context, result_of,
}
use history_quiz.GrpcClient.Calls.{send_unary, settle_unary}
use history_quiz.GrpcClient.Settings.{
  list_my_attempts, get_my_stats, user_rpc_method_name, list_my_questions, question_rpc_method_name,
}
use history_quiz.Question.{QuestionSummary}
use history_quiz.Me.Messages.{
  Attempt, Stats, ListMyAttemptsResponse, GetMyStatsResponse, ListMyQuestionsResponse, ListRequest,
  first_page,
}

-- LoaderData. The answer's header x-request-id is `request_id`.
pub record MePage (F : Type 0) : Type 0 where
  pub attempts : List Attempt
  pub questions : List QuestionSummary
  pub request_id : String
  pub stats : Stats F
  pub user_id : String

-- The three calls of Promise.all.
pub data MeCall : Type 0 where
  attempts_call stats_call questions_call : MeCall

-- The three methods of the backend.
pub record MeMethods (F : Type 0) : Type 0 where
  pub attempts : UnaryMethod ListRequest ListMyAttemptsResponse
  pub stats : UnaryMethod (Unit {0}) (GetMyStatsResponse F)
  pub questions : UnaryMethod ListRequest ListMyQuestionsResponse

-- What Promise.all has so far: the values that have come, and its own result, if it is settled.
pub record Waiting (F : Type 0) : Type 0 where
  pub attempts : Option ListMyAttemptsResponse
  pub stats : Option (GetMyStatsResponse F)
  pub questions : Option ListMyQuestionsResponse
  pub failure : Option Thrown
  pub metrics : Metrics

-- The values of Promise.all.
pub record MeAnswers (F : Type 0) : Type 0 where
  pub attempts : ListMyAttemptsResponse
  pub stats : GetMyStatsResponse F
  pub questions : ListMyQuestionsResponse

-- `is_finite` is Number.isFinite and `zero_accuracy` the double 0.
module _ (r : Runtime) {F : Type 0} (is_finite : F → Bool) (zero_accuracy : F) where
  -- toSafeStats
  unfoldable pub to_safe_stats : Option (Stats F) → Stats F
  to_safe_stats none = record {
    accuracy = zero_accuracy;
    correct_attempts = "0";
    total_attempts = "0";
  }
  to_safe_stats (some stats) = record {
    accuracy = if is_finite stats.accuracy then stats.accuracy else zero_accuracy;
    correct_attempts = stats.correct_attempts;
    total_attempts = stats.total_attempts;
  }

  module _ (random : Random) (timeout : ℕ) (outside : MeCall → CallOutside) (methods : MeMethods F)
      (user : SessionUser) where
    -- The call context of each of the three, after normalizeCallContext.
    abbrev pub me_context : NormalizedCallContext
    me_context = normalize_call_context random timeout (record {
      request_id = some (create_request_id random);
      timeout_ms = none;
      user_id = some user.user_id;
    })

    abbrev pub attempts_answer : RpcAnswer ListMyAttemptsResponse
    attempts_answer =
        send_unary r.upper random (outside attempts_call) methods.attempts me_context
          (record { context = none; body = first_page })

    abbrev pub stats_answer : RpcAnswer (GetMyStatsResponse F)
    stats_answer =
        send_unary r.upper random (outside stats_call) methods.stats me_context
          (record { context = none; body = tt })

    abbrev pub questions_answer : RpcAnswer ListMyQuestionsResponse
    questions_answer =
        send_unary r.upper random (outside questions_call) methods.questions me_context
          (record { context = none; body = first_page })

    -- The result of one of the promises that Promise.all waits for: a value is kept, and of the
    -- failures the first.
    abbrev pub keep_value : {A : Type 0} → Option A → Result (GrpcCallResult A) → Option A
    keep_value kept (returned result) = some result.response
    keep_value kept (thrown e) = kept

    abbrev pub keep_failure :
        {A : Type 0} → Option Thrown → Result (GrpcCallResult A) → Option Thrown
    keep_failure none (thrown e) = some e
    keep_failure kept _ = kept

    -- The callback of a call.
    unfoldable pub settle_call : MeCall → Waiting F → Waiting F
    settle_call attempts_call w =
        let settled =
          settle_unary r.upper random (outside attempts_call)
            (user_rpc_method_name list_my_attempts) me_context attempts_answer w.metrics in
        record w {
          attempts = keep_value w.attempts settled.0;
          failure = keep_failure w.failure settled.0;
          metrics = settled.1;
        }
    settle_call stats_call w =
        let settled =
          settle_unary r.upper random (outside stats_call) (user_rpc_method_name get_my_stats)
            me_context stats_answer w.metrics in
        record w {
          stats = keep_value w.stats settled.0;
          failure = keep_failure w.failure settled.0;
          metrics = settled.1;
        }
    settle_call questions_call w =
        let settled =
          settle_unary r.upper random (outside questions_call)
            (question_rpc_method_name list_my_questions) me_context questions_answer w.metrics in
        record w {
          questions = keep_value w.questions settled.0;
          failure = keep_failure w.failure settled.0;
          metrics = settled.1;
        }

    abbrev pub settle_all : List MeCall → Waiting F → Waiting F
    settle_all [] w = w
    settle_all (call ∷ calls) w = settle_all calls (settle_call call w)

    -- The three calls are begun, before any of them is answered.
    abbrev pub begun : Metrics → Waiting F
    begun metrics = record {
      attempts = none;
      stats = none;
      questions = none;
      failure = none;
      metrics =
          (ensure_observability_reporter_started (outside questions_call).node_env
            (ensure_observability_reporter_started (outside stats_call).node_env
              (ensure_observability_reporter_started (outside attempts_call).node_env
                metrics).0).0).0;
    }

    abbrev pub all_values :
        Option ListMyAttemptsResponse
        → Option (GetMyStatsResponse F)
        → Option ListMyQuestionsResponse
        → Option (Result (MeAnswers F))
    all_values (some attempts) (some stats) (some questions) =
        some (returned (record { attempts = attempts; stats = stats; questions = questions }))
    all_values _ _ _ = none

    abbrev pub unless_failed :
        Option Thrown → Option (Result (MeAnswers F)) → Option (Result (MeAnswers F))
    unless_failed none values = values
    unless_failed (some e) values = some (thrown e)

    -- The promise of Promise.all: `none` while it is pending.
    abbrev pub promised : Waiting F → Option (Result (MeAnswers F))
    promised w = unless_failed w.failure (all_values w.attempts w.stats w.questions)

    -- The page, or the answer of the catch clause.
    unfoldable pub page_of_answers : Result (MeAnswers F) → Result (MePage F)
    page_of_answers answers =
        catch
          (answers >>= λ values. returned (record {
            attempts = values.attempts.attempts;
            questions = values.questions.questions;
            request_id = create_request_id random;
            stats = to_safe_stats values.stats.stats;
            user_id = user.user_id;
          }))
          (λ e. throw_grpc_error_response r (record {
            error = e;
            fallback_message = some "マイページの取得に失敗しました。時間をおいて再試行してください。";
            request_id = some (create_request_id random);
          }))

    abbrev pub page_if_settled : Option (Result (MeAnswers F)) → Option (Result (MePage F))
    page_if_settled none = none
    page_if_settled (some answers) = some (page_of_answers answers)

    -- The try statement, for the calls that are answered, in the order of their answers.
    unfoldable pub load_for_user :
        (answered : List MeCall) → Metrics → Option (Result (MePage F)) × Metrics
    load_for_user answered metrics =
        let w = settle_all answered (begun metrics) in (page_if_settled (promised w), w.metrics)

  module _ {C : Type 0} (storage : CookieStorage C) (random : Random) (request : Request C)
      (timeout : ℕ) (outside : MeCall → CallOutside) (methods : MeMethods F) where
    abbrev pub load_if_user :
        Result SessionUser
        → (answered : List MeCall) → Metrics
        → Option (Result (MePage F)) × Metrics
    load_if_user (thrown e) answered metrics = (some (thrown e), metrics)
    load_if_user (returned user) answered metrics =
        load_for_user random timeout outside methods user answered metrics

    -- loader: its result, if it has one, once some calls are answered.
    unfoldable pub load_me :
        (answered : List MeCall) → Metrics → Option (Result (MePage F)) × Metrics
    load_me answered metrics =
        load_if_user (require_authenticated_user r storage request) answered metrics
