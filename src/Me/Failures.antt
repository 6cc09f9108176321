-- ===== src/Me/Failures.antt =====
-- The page when one of its three calls fails.
use history_quiz.Prelude.{ℕ, ◌≡◌, refl, ap, ◌∙◌, Bool, Option, none, some, List, [], ◌∷◌}
use history_quiz.Runtime.{Runtime}
use history_quiz.Errors.{Thrown, service_error, grpc_call_error, ServiceError}
use history_quiz.GrpcError.Normalize.{throw_grpc_error_response}
use history_quiz.Web.{Request}
use history_quiz.RequestId.{Random, create_request_id}
use history_quiz.Session.{CookieStorage, SessionUser, get_user}
use history_quiz.Observability.{Metrics}
use history_quiz.GrpcClient.{
  normalize_call_context, RpcAnswer, failed, replied, CallOutside, result_of,
}
use history_quiz.GrpcClient.Calls.{settle_unary}
use history_quiz.Question.Posts.Laws.{required_of_logged_in}
use history_quiz.Me.{
  MeCall, attempts_call, stats_call, questions_call, MeMethods, Waiting, attempts_answer,
  stats_answer, questions_answer, settle_call, settle_all, begun, all_values, unless_failed,
  keep_failure, page_of_answers, page_if_settled, load_for_user, load_me,
}

module _ (r : Runtime) {F : Type 0} (is_finite : F → Bool) (zero_accuracy : F) (random : Random)
    (timeout : ℕ) (outside : MeCall → CallOutside) (methods : MeMethods F)
    (user : SessionUser) where
  abbrev step : MeCall → Waiting F → Waiting F
  step = settle_call r is_finite zero_accuracy random timeout outside methods user

  abbrev steps : List MeCall → Waiting F → Waiting F
  steps = settle_all r is_finite zero_accuracy random timeout outside methods user

  -- What a call throws, if it fails.
  abbrev pub error_of : {A : Type 0} → RpcAnswer A → Option ServiceError
  error_of (failed e) = some e
  error_of (replied a) = none

  abbrev pub failure_of : MeCall → Option ServiceError
  failure_of attempts_call =
      error_of (attempts_answer r is_finite zero_accuracy random timeout outside methods user)
  failure_of stats_call =
      error_of (stats_answer r is_finite zero_accuracy random timeout outside methods user)
  failure_of questions_call =
      error_of (questions_answer r is_finite zero_accuracy random timeout outside methods user)

  abbrev pub earlier : Option ServiceError → Option ServiceError → Option ServiceError
  earlier none rest = rest
  earlier (some e) rest = some e

  -- The first failure among the calls, in the order of their answers.
  abbrev pub first_failure : List MeCall → Option ServiceError
  first_failure [] = none
  first_failure (call ∷ calls) = earlier (failure_of call) (first_failure calls)

  abbrev thrown_of : Option ServiceError → Option Thrown
  thrown_of none = none
  thrown_of (some e) = some (grpc_call_error (service_error e) (create_request_id random))

  abbrev or_first : Option Thrown → Option Thrown → Option Thrown
  or_first none b = b
  or_first (some a) b = some a

  keep_failure-first :
      {A : Type 0} (kept : Option Thrown) (a : RpcAnswer A)
      → keep_failure r is_finite zero_accuracy random timeout outside methods user kept
          (result_of (create_request_id random) a)
        ≡ or_first kept (thrown_of (error_of a))
  keep_failure-first none (failed e) = refl
  keep_failure-first none (replied a) = refl
  keep_failure-first (some k) (failed e) = refl
  keep_failure-first (some k) (replied a) = refl

  step-failure :
      (call : MeCall) (w : Waiting F)
      → (step call w).failure ≡ or_first w.failure (thrown_of (failure_of call))
  unfolding settle_call settle_unary normalize_call_context
  step-failure attempts_call w =
      keep_failure-first w.failure
        (attempts_answer r is_finite zero_accuracy random timeout outside methods user)
  step-failure stats_call w =
      keep_failure-first w.failure
        (stats_answer r is_finite zero_accuracy random timeout outside methods user)
  step-failure questions_call w =
      keep_failure-first w.failure
        (questions_answer r is_finite zero_accuracy random timeout outside methods user)

  first_of_rest :
      (kept : Option Thrown) (o : Option ServiceError) (rest : Option ServiceError)
      → or_first (or_first kept (thrown_of o)) (thrown_of rest)
        ≡ or_first kept (thrown_of (earlier o rest))
  first_of_rest none none rest = refl
  first_of_rest none (some e) rest = refl
  first_of_rest (some k) o rest = refl

  steps-failure :
      (calls : List MeCall) (w : Waiting F)
      → (steps calls w).failure ≡ or_first w.failure (thrown_of (first_failure calls))
  steps-failure [] w = go w.failure
    where
      go : (k : Option Thrown) → k ≡ or_first k none
      go none = refl
      go (some k) = refl
  steps-failure (call ∷ calls) w =
      steps-failure calls (step call w)
      ∙ ap (λ k. or_first k (thrown_of (first_failure calls))) (step-failure call w)
      ∙ first_of_rest w.failure (failure_of call) (first_failure calls)

  load_for_user-failure :
      (answered : List MeCall) (metrics : Metrics) (e : ServiceError)
      → first_failure answered ≡ some e
      → (load_for_user r is_finite zero_accuracy random timeout outside methods user answered
          metrics).0
        ≡ some (
            throw_grpc_error_response r (record {
              error = grpc_call_error (service_error e) (create_request_id random);
              fallback_message = some "マイページの取得に失敗しました。時間をおいて再試行してください。";
              request_id = some (create_request_id random);
            }))
  unfolding load_for_user page_of_answers
  load_for_user-failure answered metrics e h =
      let start = begun r is_finite zero_accuracy random timeout outside methods user metrics in
      let failure = steps-failure answered start ∙ ap thrown_of h in
      ap
        (λ f. page_if_settled r is_finite zero_accuracy random timeout outside methods user (
          unless_failed r is_finite zero_accuracy random timeout outside methods user f (
            all_values r is_finite zero_accuracy random timeout outside methods user
              (steps answered start).attempts (steps answered start).stats
              (steps answered start).questions)))
        failure

module _ (r : Runtime) {F : Type 0} (is_finite : F → Bool) (zero_accuracy : F) {C : Type 0}
    (storage : CookieStorage C) (random : Random) (request : Request C) (timeout : ℕ)
    (outside : MeCall → CallOutside) (methods : MeMethods F) where
  -- If a user is logged in and a call fails, the page fails with the first failure in the order of
  -- the answers, as soon as that has come and whatever comes after it: the answer is that of its gRPC
  -- error, under the id that the three calls have.
  pub load_me-failure :
      (user : SessionUser) (answered : List MeCall) (metrics : Metrics) (e : ServiceError)
      → get_user storage request ≡ some user
      → first_failure r is_finite zero_accuracy random timeout outside methods user answered
        ≡ some e
      → (load_me r is_finite zero_accuracy storage random request timeout outside methods answered
          metrics).0
        ≡ some (
            throw_grpc_error_response r (record {
              error = grpc_call_error (service_error e) (create_request_id random);
              fallback_message = some "マイページの取得に失敗しました。時間をおいて再試行してください。";
              request_id = some (create_request_id random);
            }))
  unfolding load_me
  load_me-failure user answered metrics e h f =
      rw (required_of_logged_in r storage random request user h) (
        load_for_user-failure r is_finite zero_accuracy random timeout outside methods user answered
          metrics e f)
