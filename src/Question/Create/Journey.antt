-- ===== src/Question/Create/Journey.antt =====
-- A new question's form from its page to the answer: the loader and the action of
-- client/app/routes/questions.new.tsx, one after the other.
use history_quiz.Prelude.{ℕ, String, ◌≡◌, refl, Option, none, some, List, ◌∷◌}
use history_quiz.Runtime.{Runtime}
use history_quiz.Errors.{bind_inv, returned}
use history_quiz.Web.{Request, FormValue, text}
use history_quiz.RequestId.{Random}
use history_quiz.RequestSize.{assert_request_content_length_within_limit}
use history_quiz.Session.{CookieStorage, IssuedCsrfToken, SessionUser, get_user}
use history_quiz.Session.Laws.{follow}
use history_quiz.Auth.{require_authenticated_user}
use history_quiz.Csrf.{csrf_token_field_name, issue_csrf_token}
use history_quiz.Csrf.Laws.{agreed, issue-verify_csrf_token}
use history_quiz.Observability.{Metrics}
use history_quiz.GrpcClient.{UnaryMethod, CallOutside}
use history_quiz.Question.{QuestionDetail, QuestionDraft, CreateQuestion, QuestionResponse}
use history_quiz.Question.Schema.{IsQuestionForm}
use history_quiz.Question.Posts.{
  question_action_max_body_bytes, Submission, success, reset_form, saved_answer,
}
use history_quiz.Question.Posts.Laws.{IsSaved}
use history_quiz.Question.Create.{load_new, create_action}
use history_quiz.Question.Create.Laws.{create_reply, created-ok}

module _ (r : Runtime) {C : Type 0} (storage : CookieStorage C) (random posting : Random)
    (request next : Request C) (timeout : ℕ) (outside : CallOutside)
    (method : UnaryMethod CreateQuestion QuestionResponse)
    (parse : (String → Option FormValue) → Submission) where
  -- A question that is written on the page for a new one is saved: if the form comes back with the
  -- page's token, from a browser that keeps the page's cookie and with a user logged in, is within
  -- the limit and passes the schema with a valid draft, and the backend replies to that draft with a
  -- question that has an id, then the answer shows that question.
  pub load_new-create_action :
      (b : ℕ) (bs : List ℕ) (issued : IssuedCsrfToken C) (user : SessionUser)
      (form : String → Option FormValue) (request_id : String) (d : QuestionDraft) (later : Metrics)
      (question : QuestionDetail)
      → load_new r storage random request (b ∷ bs) ≡ returned issued
      → next.cookie ≡ follow issued.set_cookie request.cookie
      → get_user storage next ≡ some user
      → assert_request_content_length_within_limit posting question_action_max_body_bytes next none
        ≡ returned request_id
      → form csrf_token_field_name ≡ some (text issued.csrf_token)
      → parse form ≡ success d
      → IsQuestionForm d
      → IsSaved
          (create_reply r storage posting next timeout outside method parse
            (record { user = user; request_id = request_id; form = form })
            d
            later)
          question
      → (create_action r storage posting next timeout outside method (returned form) parse later).0
        ≡ returned (saved_answer reset_form request_id question)
  unfolding load_new
  load_new-create_action b bs issued user form request_id d later question loaded cookie logged_in
        fits token parsed valid saved =
      let (_, _, issues) =
        bind_inv (require_authenticated_user r storage request)
          (λ u. issue_csrf_token storage (b ∷ bs) request) issued loaded in
      let passed =
        issue-verify_csrf_token storage b bs posting request next issued form (some request_id)
          issues cookie token in
      (created-ok r storage posting next timeout outside method parse (returned form) later
        (saved_answer reset_form request_id question)
        (record {
          post = record { user = user; request_id = request_id; form = form };
          checked = record {
            logged_in = logged_in;
            fits = fits;
            read = refl;
            token = (agreed storage posting form next request_id request_id passed).0;
          };
          draft = d;
          parsed = parsed;
          valid = valid;
          question = question;
          saved = saved;
          answers = refl;
        })).0
