-- ===== src/Me/Laws.antt =====
-- The page when its three calls run at the same time.
use history_quiz.Prelude.{
  ℕ, ◌≡◌, refl, ap, sym, Option, if◌then◌else◌, Bool, true, false, none, some, List, [], ◌∷◌, any,
  Bool-cases, inl, inr,
}
use history_quiz.Runtime.{Runtime}
use history_quiz.Errors.{returned}
use history_quiz.Web.{Request}
use history_quiz.RequestId.{Random, create_request_id}
use history_quiz.Session.{CookieStorage, SessionUser, get_user}
use history_quiz.Observability.{Metrics}
use history_quiz.GrpcClient.{replied, CallOutside}
use history_quiz.GrpcClient.Calls.{settle_unary}
use history_quiz.Question.Posts.Laws.{required_of_logged_in}
use history_quiz.Me.{
  MePage, MeCall, attempts_call, stats_call, questions_call, MeMethods, Waiting, to_safe_stats,
  attempts_answer, stats_answer, questions_answer, settle_call, settle_all, begun, promised,
  page_of_answers, page_if_settled, load_for_user, load_me,
}
use history_quiz.Me.Messages.{
  Stats, ListMyAttemptsResponse, GetMyStatsResponse, ListMyQuestionsResponse,
}

abbrev pub same_call : MeCall → MeCall → Bool
same_call attempts_call attempts_call = true
same_call stats_call stats_call = true
same_call questions_call questions_call = true
same_call _ _ = false

-- A call is among the answered ones.
abbrev pub IsAnswered : List MeCall → MeCall → Type 0
IsAnswered answered call = any (same_call call) answered ≡ true

module _ (r : Runtime) {F : Type 0} (is_finite : F → Bool) (zero_accuracy : F) (random : Random)
    (timeout : ℕ) (outside : MeCall → CallOutside) (methods : MeMethods F)
    (user : SessionUser) where
  -- The backend's replies to the three calls.
  pub record Replies : Type 0 where
    pub attempts : ListMyAttemptsResponse
    pub stats : GetMyStatsResponse F
    pub questions : ListMyQuestionsResponse
    pub attempts_replied :
        attempts_answer r is_finite zero_accuracy random timeout outside methods user
        ≡ replied attempts
    pub stats_replied :
        stats_answer r is_finite zero_accuracy random timeout outside methods user ≡ replied stats
    pub questions_replied :
        questions_answer r is_finite zero_accuracy random timeout outside methods user
        ≡ replied questions

  abbrev step : MeCall → Waiting F → Waiting F
  step = settle_call r is_finite zero_accuracy random timeout outside methods user

  abbrev steps : List MeCall → Waiting F → Waiting F
  steps = settle_all r is_finite zero_accuracy random timeout outside methods user

  -- The reply to a call has come.
  Has : Replies → Waiting F → MeCall → Type 0
  Has p w attempts_call = w.attempts ≡ some p.attempts
  Has p w stats_call = w.stats ≡ some p.stats
  Has p w questions_call = w.questions ≡ some p.questions

  step-Has : (p : Replies) (call : MeCall) (w : Waiting F) → Has p (step call w) call
  unfolding settle_call settle_unary Has
  step-Has p attempts_call w = rw p.attempts_replied refl
  step-Has p stats_call w = rw p.stats_replied refl
  step-Has p questions_call w = rw p.questions_replied refl

  step_keeps-Has :
      (p : Replies) (call kept : MeCall) (w : Waiting F) → Has p w kept → Has p (step call w) kept
  unfolding settle_call settle_unary Has
  step_keeps-Has p attempts_call attempts_call w h = rw p.attempts_replied refl
  step_keeps-Has p stats_call stats_call w h = rw p.stats_replied refl
  step_keeps-Has p questions_call questions_call w h = rw p.questions_replied refl
  step_keeps-Has p _ attempts_call w h = h
  step_keeps-Has p _ stats_call w h = h
  step_keeps-Has p _ questions_call w h = h

  step-no_failure :
      (p : Replies) (call : MeCall) (w : Waiting F)
      → w.failure ≡ none
      → (step call w).failure ≡ none
  unfolding settle_call settle_unary
  step-no_failure p attempts_call w h = rw (p.attempts_replied, h)
  step-no_failure p stats_call w h = rw (p.stats_replied, h)
  step-no_failure p questions_call w h = rw (p.questions_replied, h)

  steps-no_failure :
      (p : Replies) (calls : List MeCall) (w : Waiting F)
      → w.failure ≡ none
      → (steps calls w).failure ≡ none
  steps-no_failure p [] w h = h
  steps-no_failure p (call ∷ calls) w h =
      steps-no_failure p calls (step call w) (step-no_failure p call w h)

  steps_keep-Has :
      (p : Replies) (calls : List MeCall) (kept : MeCall) (w : Waiting F)
      → Has p w kept
      → Has p (steps calls w) kept
  steps_keep-Has p [] kept w h = h
  steps_keep-Has p (call ∷ calls) kept w h =
      steps_keep-Has p calls kept (step call w) (step_keeps-Has p call kept w h)

  same-Has :
      (p : Replies) (call other : MeCall) (w : Waiting F)
      → same_call call other ≡ true
      → Has p w other
      → Has p w call
  same-Has p attempts_call attempts_call w e h = h
  same-Has p stats_call stats_call w e h = h
  same-Has p questions_call questions_call w e h = h
  same-Has p _ _ w e h = absurd (cc)

  steps-Has :
      (p : Replies) (call : MeCall) (calls : List MeCall) (w : Waiting F)
      → IsAnswered calls call
      → Has p (steps calls w) call
  steps-Has p call [] w h = absurd (cc)
  steps-Has p call (other ∷ calls) w h = elim (Bool-cases (same_call call other)) [
    | inl e ↦
        steps_keep-Has p calls call (step other w)
          (same-Has p call other (step other w) e (step-Has p other w))
    | inr e ↦ steps-Has p call calls (step other w) (rw e at h)
  ]

  -- The statistics that are shown: those of the reply, zeros if it has none, and an accuracy of zero
  -- in place of one that is not finite.
  abbrev pub stats_of_reply : Option (Stats F) → Stats F
  stats_of_reply none = record {
    total_attempts = "0";
    correct_attempts = "0";
    accuracy = zero_accuracy;
  }
  stats_of_reply (some stats) = record {
    total_attempts = stats.total_attempts;
    correct_attempts = stats.correct_attempts;
    accuracy = if is_finite stats.accuracy then stats.accuracy else zero_accuracy;
  }

  to_safe_stats-stats_of_reply :
      (o : Option (Stats F)) → to_safe_stats r is_finite zero_accuracy o ≡ stats_of_reply o
  unfolding to_safe_stats
  to_safe_stats-stats_of_reply none = refl
  to_safe_stats-stats_of_reply (some stats) = refl

  -- The page of three replies.
  abbrev pub page_of_replies : Replies → MePage F
  page_of_replies p = record {
    attempts = p.attempts.attempts;
    questions = p.questions.questions;
    request_id = create_request_id random;
    stats = stats_of_reply p.stats.stats;
    user_id = user.user_id;
  }

  promised-values :
      (p : Replies) (w : Waiting F)
      → w.failure ≡ none
      → Has p w attempts_call
      → Has p w stats_call
      → Has p w questions_call
      → promised r is_finite zero_accuracy random timeout outside methods user w
        ≡ some
            (returned (record { attempts = p.attempts; stats = p.stats; questions = p.questions }))
  unfolding Has
  promised-values p w n a s q = rw (n, a, s, q)

  load_for_user-page :
      (p : Replies) (answered : List MeCall) (metrics : Metrics)
      → ((call : MeCall) → IsAnswered answered call)
      → (load_for_user r is_finite zero_accuracy random timeout outside methods user answered
          metrics).0
        ≡ some (returned (page_of_replies p))
  unfolding load_for_user page_of_answers Has
  load_for_user-page p answered metrics all =
      let start = begun r is_finite zero_accuracy random timeout outside methods user metrics in
      rw (sym (to_safe_stats-stats_of_reply p.stats.stats)) (
        ap (page_if_settled r is_finite zero_accuracy random timeout outside methods user) (
          promised-values p (steps answered start) (steps-no_failure p answered start refl)
            (steps-Has p attempts_call answered start (all attempts_call))
            (steps-Has p stats_call answered start (all stats_call))
            (steps-Has p questions_call answered start (all questions_call))))

module _ (r : Runtime) {F : Type 0} (is_finite : F → Bool) (zero_accuracy : F) {C : Type 0}
    (storage : CookieStorage C) (random : Random) (request : Request C) (timeout : ℕ)
    (outside : MeCall → CallOutside) (methods : MeMethods F) where
  -- If a user is logged in and the backend replies to the three calls, the page is made of the three
  -- replies once all are answered, in whatever order the answers come: of their attempts, questions
  -- and statistics, with zeros for statistics that are missing and for an accuracy that is not
  -- finite.
  pub load_me-page :
      (user : SessionUser)
      (p : Replies r is_finite zero_accuracy random timeout outside methods user)
      (answered : List MeCall) (metrics : Metrics)
      → get_user storage request ≡ some user
      → ((call : MeCall) → IsAnswered answered call)
      → (load_me r is_finite zero_accuracy storage random request timeout outside methods answered
          metrics).0
        ≡ some (
            returned
              (page_of_replies r is_finite zero_accuracy random timeout outside methods user p))
  unfolding load_me
  load_me-page user p answered metrics h all =
      rw (required_of_logged_in r storage random request user h) (
        load_for_user-page r is_finite zero_accuracy random timeout outside methods user p answered
          metrics all)
