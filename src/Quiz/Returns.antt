-- ===== src/Quiz/Returns.antt =====
-- Which answers to a quiz question are graded, and which never reach the backend.
use history_quiz.Prelude.{ℕ, String, ◌≡◌, ◌↔◌, refl, ap, sym, subst, ◌∙◌, Option, none, [], ◌∷◌}
use history_quiz.Runtime.{Runtime}
use history_quiz.Errors.{Response, Result, returned, thrown, error_response}
use history_quiz.Web.{Request, FormValue}
use history_quiz.RequestId.{Random}
use history_quiz.Session.{CookieStorage, get_session_csrf_token}
use history_quiz.Csrf.{to_optional_trimmed_token, csrf_token_field_name, csrf_error_response}
use history_quiz.Csrf.Laws.{Agree, verified, refused_token}
use history_quiz.RequestSize.{assert_request_content_length_within_limit}
use history_quiz.Observability.{Metrics}
use history_quiz.GrpcClient.{UnaryMethod, CallOutside, replied, result_of}
use history_quiz.Quiz.{
  SubmitAnswer, SubmitAnswerResponse, QuizResult, graded, ActionData, Submission, success,
  graded_answer, answer_of_result, checked_form, action, quiz_action_max_body_bytes,
}
use history_quiz.Quiz.Laws.{backend_reply, answer_of_submit, action-graded}

module _ (r : Runtime) {C : Type 0} (storage : CookieStorage C) (random : Random) (timeout : ℕ)
    (outside : CallOutside) (method : UnaryMethod SubmitAnswer SubmitAnswerResponse)
    (request : Request C) where
  -- What a graded result comes from: a form within the limit that has the session's token, a question
  -- and a choice, and the backend's reply to these two for the session's user.
  pub record IsGrade (form_data : Result (String → Option FormValue))
      (parse : (String → Option FormValue) → Submission) (metrics : Metrics) (id : String)
      (result : QuizResult) : Type 0 where
    pub form : String → Option FormValue
    pub read : form_data ≡ returned form
    pub fits :
        assert_request_content_length_within_limit random quiz_action_max_body_bytes request none
        ≡ returned id
    pub token :
        Agree
          (get_session_csrf_token storage request)
          (to_optional_trimmed_token (form csrf_token_field_name))
    pub parsed : parse form ≡ success result.question_id result.selected_choice_id
    pub reply : SubmitAnswerResponse
    pub replies :
        backend_reply r storage random timeout outside method request id result.question_id
          result.selected_choice_id metrics
        ≡ replied reply
    pub attempt : result.attempt_id ≡ reply.attempt_id
    pub correct_choice : result.correct_choice_id ≡ reply.correct_choice_id
    pub verdict : result.is_correct ≡ reply.is_correct

  -- The answer with a graded result.
  abbrev pub graded_response : (id : String) → QuizResult → Response ActionData
  graded_response id result = record {
    body = graded id result;
    headers = ("x-request-id", id) ∷ [];
    status = 200;
  }

  action-grades :
      (form : String → Option FormValue) (parse : (String → Option FormValue) → Submission)
      (metrics : Metrics) (id question_id choice_id : String) (reply : SubmitAnswerResponse)
      → assert_request_content_length_within_limit random quiz_action_max_body_bytes request none
        ≡ returned id
      → Agree
          (get_session_csrf_token storage request)
          (to_optional_trimmed_token (form csrf_token_field_name))
      → parse form ≡ success question_id choice_id
      → backend_reply r storage random timeout outside method request id question_id choice_id
          metrics
        ≡ replied reply
      → (action r storage random timeout outside method request (returned form) parse metrics).0
        ≡ returned
            (graded_answer question_id choice_id (record { request_id = id; response = reply }))
  unfolding action checked_form
  action-grades form parse metrics id q k reply fits a p b =
      rw (fits, verified storage random form request id a, p)
        (ap returned (
          answer_of_submit r storage random timeout outside method request id form q k metrics
          ∙ ap (λ res. answer_of_result r id q k (result_of id res)) b))

  graded_inj : {i j : String} {x y : QuizResult} → graded i x ≡ graded j y → (i ≡ j) × (x ≡ y)
  graded_inj h = (cc, cc)

  action-IsGrade :
      (form_data : Result (String → Option FormValue))
      (parse : (String → Option FormValue) → Submission) (metrics : Metrics) (id : String)
      (result : QuizResult)
      → (action r storage random timeout outside method request form_data parse metrics).0
        ≡ returned (graded_response id result)
      → IsGrade form_data parse metrics id result
  action-IsGrade form_data parse metrics id result h =
      let g =
        action-graded r storage random timeout outside method request form_data parse metrics
          (graded_response id result) id result h refl in
      let (ids, same) = graded_inj (ap (λ a. a.body) g.answers) in
      subst (λ i. IsGrade form_data parse metrics i result) (sym ids)
        (subst (IsGrade form_data parse metrics g.id) (sym same) (record {
          form = g.form;
          read = g.checked.read;
          fits = g.checked.fits ∙ ap returned g.checked.same_id;
          token = g.checked.token;
          parsed = g.parsed;
          reply = g.reply;
          replies = g.replies;
          attempt = refl;
          correct_choice = refl;
          verdict = refl;
        }))

  -- The action answers with a graded result exactly if the body is within its limit, the form has the
  -- session's token and passes the schema with the result's question and choice, and the backend
  -- replies to these, sent for the session's user under the answer's request id, with the result's
  -- attempt, correct choice and verdict. The answer then has status 200 and that request id.
  pub action_iff :
      (form_data : Result (String → Option FormValue))
      (parse : (String → Option FormValue) → Submission) (metrics : Metrics) (id : String)
      (result : QuizResult)
      → ((action r storage random timeout outside method request form_data parse metrics).0
          ≡ returned (graded_response id result))
        ↔ IsGrade form_data parse metrics id result
  action_iff form_data parse metrics id result =
      (action-IsGrade form_data parse metrics id result, from)
    where
      from :
          IsGrade form_data parse metrics id result
          → (action r storage random timeout outside method request form_data parse metrics).0
            ≡ returned (graded_response id result)
      from g = rw g.read (
          action-grades g.form parse metrics id result.question_id result.selected_choice_id g.reply
            g.fits g.token g.parsed g.replies
          ∙ rw (g.attempt, g.correct_choice, g.verdict) refl)

  -- A form without the session's token is answered 403 and leaves the metrics, which count every call
  -- of the backend, as they were.
  pub action-refuses :
      (form : String → Option FormValue) (parse : (String → Option FormValue) → Submission)
      (metrics : Metrics) (id : String)
      → assert_request_content_length_within_limit random quiz_action_max_body_bytes request none
        ≡ returned id
      → ¬ (
          Agree
            (get_session_csrf_token storage request)
            (to_optional_trimmed_token (form csrf_token_field_name)))
      → ◌≡◌ {A = Result (Response ActionData) × Metrics}
          (action r storage random timeout outside method request (returned form) parse metrics)
          (thrown (error_response (csrf_error_response id)), metrics)
  unfolding action checked_form
  action-refuses form parse metrics id fits n =
      rw (fits, refused_token storage random form request id n)
