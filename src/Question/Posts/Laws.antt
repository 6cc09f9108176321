-- ===== src/Question/Posts/Laws.antt =====
-- Which forms of a question pass the guards, and which answers tell of a saved question.
use history_quiz.Prelude.{
  String, ◌≡◌, ◌↔◌, refl, ap, ◌∙◌, subst, true, false, Option, none, some, Bool-cases, inl, inr,
}
use history_quiz.Prelude.Text.{is_empty}
use history_quiz.Runtime.{Runtime}
use history_quiz.Errors.{bind_inv, Response, Result, returned, thrown, ◌>>=◌}
use history_quiz.Web.{Request, FormValue}
use history_quiz.RequestId.{Random}
use history_quiz.Session.{CookieStorage, SessionUser, get_user, get_session_csrf_token}
use history_quiz.Auth.{require_authenticated_user}
use history_quiz.Auth.Laws.{require_authenticated_user-cases}
use history_quiz.Csrf.{verify_csrf_token, to_optional_trimmed_token, csrf_token_field_name}
use history_quiz.Csrf.Laws.{Agree, agreed, verified}
use history_quiz.RequestSize.{assert_request_content_length_within_limit}
use history_quiz.GrpcClient.{RpcAnswer, failed, replied, result_of}
use history_quiz.Question.{QuestionDetail, QuestionResponse}
use history_quiz.Question.Posts.{
  question_action_max_body_bytes, ActionData, Post, check_question, failed_save, settle,
  answer_of_call, checked_post,
}

-- The backend's answer has a question with an id.
pub record IsSaved (res : RpcAnswer QuestionResponse) (question : QuestionDetail) : Type 0 where
  pub reply : QuestionResponse
  pub replies : res ≡ replied reply
  pub found : reply.question ≡ some question
  pub has_id : is_empty question.id ≡ false

pub check_question_inv :
    (missing : String) (o : Option QuestionDetail) (q : QuestionDetail)
    → check_question missing o ≡ returned q
    → (o ≡ some q) × (is_empty q.id ≡ false)
unfolding check_question
check_question_inv missing none q h = absurd (cc)
check_question_inv missing (some question) q h = elim (Bool-cases (is_empty question.id)) [
  | inl e ↦ (let clash = rw e at h in absurd (cc))
  | inr e ↦
      let same : question ≡ q = inj (rw e at h) in
      (ap some same, subst (λ x. is_empty x.id ≡ false) same e)
]
  where
    inj : {a b : QuestionDetail} → returned a ≡ returned b → a ≡ b
    inj k = cc

pub check_question-passes :
    (missing : String) (o : Option QuestionDetail) (q : QuestionDetail)
    → o ≡ some q
    → is_empty q.id ≡ false
    → check_question missing o ≡ returned q
unfolding check_question
check_question-passes missing o q h e = rw (h, e)

module _ (r : Runtime) {C : Type 0} (storage : CookieStorage C) (random : Random)
    (request : Request C) where
  -- What the guards ask for: a user who is logged in, a body within the limit, a form that can be
  -- read, and the session's token in it.
  pub record IsCheckedPost (form_data : Result (String → Option FormValue)) (post : Post)
      : Type 0 where
    pub logged_in : get_user storage request ≡ some post.user
    pub fits :
        assert_request_content_length_within_limit random question_action_max_body_bytes request
          none
        ≡ returned post.request_id
    pub read : form_data ≡ returned post.form
    pub token :
        Agree
          (get_session_csrf_token storage request)
          (to_optional_trimmed_token (post.form csrf_token_field_name))

  pub logged_in_of_required :
      (user : SessionUser)
      → require_authenticated_user r storage request ≡ returned user
      → get_user storage request ≡ some user
  logged_in_of_required user h = elim (require_authenticated_user-cases r storage request) [
    | inl (other, e, k) ↦ cc
    | inr (t, e, path, k) ↦ absurd (cc)
  ]

  pub required_of_logged_in :
      (user : SessionUser)
      → get_user storage request ≡ some user
      → require_authenticated_user r storage request ≡ returned user
  required_of_logged_in user h = elim (require_authenticated_user-cases r storage request) [
    | inl (other, e, k) ↦ cc
    | inr (t, e, path, k) ↦ absurd (cc)
  ]

  abbrev after_size : Result (String → Option FormValue) → SessionUser → String → Result Post
  after_size form_data user id = form_data >>= λ form.
      verify_csrf_token storage random form request (some id) >>= λ shown.
      returned (record { user = user; request_id = shown; form = form })

  post_inj : {a b : Post} → returned a ≡ returned b → a ≡ b
  post_inj h = cc

  checked_post_inv :
      (form_data : Result (String → Option FormValue)) (post : Post)
      → checked_post r storage random request form_data ≡ returned post
      → IsCheckedPost form_data post
  unfolding checked_post
  checked_post_inv form_data post h =
      let (user, u, h1) =
        bind_inv (require_authenticated_user r storage request)
          (λ user.
            assert_request_content_length_within_limit random question_action_max_body_bytes request
              none
            >>= after_size form_data user)
          post h in
      let (id, fits, h2) =
        bind_inv
          (assert_request_content_length_within_limit random question_action_max_body_bytes request
            none)
          (after_size form_data user) post h1 in
      let (form, read, h3) =
        bind_inv form_data
          (λ form. verify_csrf_token storage random form request (some id) >>= λ shown.
            returned (record { user = user; request_id = shown; form = form }))
          post h2 in
      let (shown, passed, h4) =
        bind_inv (verify_csrf_token storage random form request (some id))
          (λ shown. returned (record { user = user; request_id = shown; form = form })) post h3 in
      let (agree, same) = agreed storage random form request id shown passed in
      subst (IsCheckedPost form_data) (post_inj h4) (record {
        logged_in = logged_in_of_required user u;
        fits = fits ∙ ap returned same;
        read = read;
        token = agree;
      })

  -- The guards let a form through exactly if a user is logged in, the body is within the limit, the
  -- form can be read and it has the session's token; the user, the form and the request's id are
  -- the ones that go on.
  pub checked_post_iff :
      (form_data : Result (String → Option FormValue)) (post : Post)
      → (checked_post r storage random request form_data ≡ returned post)
        ↔ IsCheckedPost form_data post
  unfolding checked_post
  checked_post_iff form_data post = (checked_post_inv form_data post, from)
    where
      from :
          IsCheckedPost form_data post
          → (require_authenticated_user r storage request >>= λ user.
              assert_request_content_length_within_limit random question_action_max_body_bytes
                request none
              >>= after_size form_data user)
            ≡ returned post
      from c = rw (
        required_of_logged_in post.user c.logged_in,
        c.fits,
        c.read,
        verified storage random post.form request post.request_id c.token,
      )

module _ (r : Runtime) (missing fallback id : String)
    (answered : (shown_id : String) → QuestionDetail → Response ActionData) where
  -- An answer that tells of a saved question comes from the backend's reply.
  pub answer_of_call-IsSaved :
      (res : RpcAnswer QuestionResponse)
      → (answer_of_call r missing fallback id answered (result_of id res)).body.ok ≡ true
      → (question : QuestionDetail) × IsSaved res question
        × (answer_of_call r missing fallback id answered (result_of id res) ≡ answered id question)
  unfolding answer_of_call failed_save
  answer_of_call-IsSaved (failed e) h = absurd (cc)
  answer_of_call-IsSaved (replied reply) h = go (check_question missing reply.question) refl h
    where
      go :
          (m : Result QuestionDetail)
          → check_question missing reply.question ≡ m
          → (settle r (m >>= λ q. returned (answered id q)) (failed_save r fallback id)).body.ok
            ≡ true
          → (question : QuestionDetail) × IsSaved (replied reply) question
            × (settle r (m >>= λ q. returned (answered id q)) (failed_save r fallback id)
                ≡ answered id question)
      go (thrown e) c k = absurd (cc)
      go (returned q) c k =
          let (found, has_id) = check_question_inv missing reply.question q c in
          (q, record { reply = reply; replies = refl; found = found; has_id = has_id }, refl)

  pub answer_of_IsSaved :
      (res : RpcAnswer QuestionResponse) (question : QuestionDetail)
      → IsSaved res question
      → answer_of_call r missing fallback id answered (result_of id res) ≡ answered id question
  unfolding answer_of_call
  answer_of_IsSaved res question s =
      rw (s.replies, check_question-passes missing s.reply.question question s.found s.has_id)
