-- ===== src/Quiz/Laws.antt =====
-- What has to hold before an answer is sent to the backend.
use history_quiz.Prelude.{ℕ, String, ◌≡◌, refl, ap, subst, sym, ◌∙◌, Option, none, some}
use history_quiz.Runtime.{Runtime}
use history_quiz.Errors.{bind_inv, Response, Result, returned, thrown, ◌>>=◌}
use history_quiz.Web.{Request, FormValue}
use history_quiz.RequestId.{Random}
use history_quiz.Session.{CookieStorage, get_user, get_session_csrf_token}
use history_quiz.Csrf.{verify_csrf_token, to_optional_trimmed_token, csrf_token_field_name}
use history_quiz.Csrf.Laws.{Agree, agreed}
use history_quiz.RequestSize.{assert_request_content_length_within_limit}
use history_quiz.Observability.{Metrics}
use history_quiz.GrpcClient.{RpcAnswer, failed, replied, UnaryMethod, CallOutside, result_of}
use history_quiz.GrpcClient.Laws.{invoke_unary-result, backend_answer}
use history_quiz.GrpcClient.Settings.{submit_answer, quiz_rpc_method_name}
use history_quiz.Quiz.{
  QuizResult, failed_submit, failure, invalid_form, SubmitAnswer, SubmitAnswerResponse, ActionData,
  graded, Submission, success, id_of_user, graded_answer, answer_of_result, checked_form, submit,
  after_checks, action, quiz_action_max_body_bytes,
}

module _ (r : Runtime) {C : Type 0} (storage : CookieStorage C) (random : Random) (timeout : ℕ)
    (outside : CallOutside) (method : UnaryMethod SubmitAnswer SubmitAnswerResponse)
    (request : Request C) where
  -- The checks that a form has passed.
  pub record IsChecked (form_data : Result (String → Option FormValue)) (id : String)
      (form : String → Option FormValue) : Type 0 where
    pub read : form_data ≡ returned form
    pub size_id : String
    pub fits :
        assert_request_content_length_within_limit random quiz_action_max_body_bytes request none
        ≡ returned size_id
    pub same_id : size_id ≡ id
    pub token :
        Agree
          (get_session_csrf_token storage request)
          (to_optional_trimmed_token (form csrf_token_field_name))

  checked_form-IsChecked :
      (form_data : Result (String → Option FormValue)) (id : String)
      (form : String → Option FormValue)
      → checked_form r storage random timeout outside method request form_data ≡ returned (id, form)
      → IsChecked form_data id form
  unfolding checked_form
  checked_form-IsChecked form_data id form h =
      let (size_id, fits, h1) =
        bind_inv
          (assert_request_content_length_within_limit random quiz_action_max_body_bytes request
            none)
          (λ id'. form_data >>= λ f.
            verify_csrf_token storage random f request (some id') >>= λ v. returned (v, f))
          (id, form) h in
      let (f, read, h2) =
        bind_inv form_data
          (λ f. verify_csrf_token storage random f request (some size_id) >>= λ v. returned (v, f))
          (id, form) h1 in
      let (v, passed, h3) =
        bind_inv (verify_csrf_token storage random f request (some size_id)) (λ v. returned (v, f))
          (id, form) h2 in
      let same : f ≡ form = cc in
      let (agrees, kept) = agreed storage random f request size_id v passed in
      record {
        read = read ∙ ap returned same;
        size_id = size_id;
        fits = fits;
        same_id = kept ∙ cc;
        token =
            subst
              (λ g.
                Agree (get_session_csrf_token storage request)
                  (to_optional_trimmed_token (g csrf_token_field_name)))
              same agrees;
      }

  -- The call of the backend for one answer of the user who is logged in.
  abbrev pub backend_reply :
      (id question_id choice_id : String) → Metrics → RpcAnswer SubmitAnswerResponse
  backend_reply id question_id choice_id metrics =
      backend_answer r random timeout outside method (quiz_rpc_method_name submit_answer)
        (record {
          request_id = some id;
          timeout_ms = none;
          user_id = id_of_user (get_user storage request);
        })
        (record {
          context = none;
          body = record { question_id = question_id; selected_choice_id = choice_id };
        })
        metrics

  -- What a graded answer `a` comes from: a checked form, which has a question and a choice, and the
  -- backend's reply to them.
  pub record IsGraded (form_data : Result (String → Option FormValue))
      (parse : (String → Option FormValue) → Submission) (metrics : Metrics)
      (a : Response ActionData) : Type 0 where
    pub id : String
    pub form : String → Option FormValue
    pub checked : IsChecked form_data id form
    pub question_id : String
    pub choice_id : String
    pub parsed : parse form ≡ success question_id choice_id
    pub reply : SubmitAnswerResponse
    pub replies : backend_reply id question_id choice_id metrics ≡ replied reply
    pub answers :
        a ≡ graded_answer question_id choice_id (record { request_id = id; response = reply })

  pub answer_of_submit :
      (id : String) (form : String → Option FormValue) (question_id choice_id : String)
      (metrics : Metrics)
      → (submit r storage random timeout outside method request id form
          (success question_id choice_id)
          metrics).0
        ≡ answer_of_result r id question_id choice_id
            (result_of id (backend_reply id question_id choice_id metrics))
  unfolding submit
  answer_of_submit id form question_id choice_id metrics =
      ap (answer_of_result r id question_id choice_id) (
        invoke_unary-result r random timeout outside method (quiz_rpc_method_name submit_answer)
          (record {
            request_id = some id;
            timeout_ms = none;
            user_id = id_of_user (get_user storage request);
          })
          (record {
            context = none;
            body = record { question_id = question_id; selected_choice_id = choice_id };
          })
          metrics)

  -- An answer that is graded comes from a reply.
  reply_of_graded :
      (id question_id choice_id : String) (res : RpcAnswer SubmitAnswerResponse) (shown : String)
      (result : QuizResult)
      → (answer_of_result r id question_id choice_id (result_of id res)).body ≡ graded shown result
      → (reply : SubmitAnswerResponse) × (res ≡ replied reply)
  unfolding failed_submit
  reply_of_graded id q c (failed e) shown result h = absurd (cc)
  reply_of_graded id q c (replied reply) shown result h = (reply, refl)

  body_of_submit :
      (id : String) (form : String → Option FormValue) (question_id choice_id : String)
      (metrics : Metrics) (shown : String) (result : QuizResult)
      → (submit r storage random timeout outside method request id form
          (success question_id choice_id)
          metrics).0.body
        ≡ graded shown result
      → (reply : SubmitAnswerResponse) × (backend_reply id question_id choice_id metrics
          ≡ replied reply)
  body_of_submit id form q c metrics shown result h =
      reply_of_graded id q c (backend_reply id q c metrics) shown result
        (sym (ap (λ a. a.body) (answer_of_submit id form q c metrics)) ∙ h)

  submit-IsGraded :
      (form_data : Result (String → Option FormValue))
      (parse : (String → Option FormValue) → Submission) (metrics : Metrics)
      (a : Response ActionData) (shown : String) (result : QuizResult) (id : String)
      (form : String → Option FormValue) (submission : Submission)
      → IsChecked form_data id form
      → parse form ≡ submission
      → (submit r storage random timeout outside method request id form submission metrics).0 ≡ a
      → a.body ≡ graded shown result
      → IsGraded form_data parse metrics a
  unfolding submit invalid_form
  submit-IsGraded form_data parse metrics a shown result id form (failure x y) c e h g =
      (let clash = ap (λ b. b.body) h ∙ g in absurd (cc))
  submit-IsGraded form_data parse metrics a shown result id form (success q k) c e h g =
      let (reply, replies) =
        body_of_submit id form q k metrics shown result (ap (λ b. b.body) h ∙ g) in
      record {
        id = id;
        form = form;
        checked = c;
        question_id = q;
        choice_id = k;
        parsed = e;
        reply = reply;
        replies = replies;
        answers =
            sym h
            ∙ answer_of_submit id form q k metrics
            ∙ ap (λ res. answer_of_result r id q k (result_of id res)) replies;
      }

  after_checks-IsGraded :
      (form_data : Result (String → Option FormValue))
      (parse : (String → Option FormValue) → Submission) (metrics : Metrics)
      (a : Response ActionData) (shown : String) (result : QuizResult)
      (checks : Result (String × (String → Option FormValue)))
      → checked_form r storage random timeout outside method request form_data ≡ checks
      → (after_checks r storage random timeout outside method request parse metrics checks).0
        ≡ returned a
      → a.body ≡ graded shown result
      → IsGraded form_data parse metrics a
  after_checks-IsGraded form_data parse metrics a shown result (thrown x) c h g = absurd (cc)
  after_checks-IsGraded form_data parse metrics a shown result (returned (id, form)) c h g =
      submit-IsGraded form_data parse metrics a shown result id form (parse form)
        (checked_form-IsChecked form_data id form c) refl (cc) g

  -- If the action answers with a graded result, then the body was within its limit, the form's
  -- token agreed with the session's, the form had a question and a choice, the backend was called
  -- with just these and the user who is logged in, and the answer is its reply under the id that
  -- was sent.
  pub action-graded :
      (form_data : Result (String → Option FormValue))
      (parse : (String → Option FormValue) → Submission) (metrics : Metrics)
      (a : Response ActionData) (shown : String) (result : QuizResult)
      → (action r storage random timeout outside method request form_data parse metrics).0
        ≡ returned a
      → a.body ≡ graded shown result
      → IsGraded form_data parse metrics a
  unfolding action
  action-graded form_data parse metrics a shown result h g =
      after_checks-IsGraded form_data parse metrics a shown result
        (checked_form r storage random timeout outside method request form_data) refl h g
