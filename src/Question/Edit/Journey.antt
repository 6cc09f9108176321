-- ===== src/Question/Edit/Journey.antt =====
-- A question's form from its page to the answer: the loader and the action of
-- client/app/routes/questions.$id.edit.tsx, one after the other.
use history_quiz.Prelude.{ℕ, String, ◌≡◌, refl, ap, sym, ◌∙◌, Option, none, some, List, ◌∷◌}
use history_quiz.Runtime.{Runtime}
use history_quiz.Errors.{returned}
use history_quiz.Web.{Request, FormValue, text}
use history_quiz.RequestId.{Random, create_request_id}
use history_quiz.RequestSize.{assert_request_content_length_within_limit}
use history_quiz.Session.{CookieStorage, SessionUser, get_user}
use history_quiz.Session.Laws.{follow}
use history_quiz.Csrf.{csrf_token_field_name, verify_csrf_token}
use history_quiz.Csrf.Laws.{agreed, issue-verify_csrf_token}
use history_quiz.Observability.{Metrics}
use history_quiz.GrpcClient.{UnaryMethod, CallOutside}
use history_quiz.Question.{
  QuestionDetail, QuestionDraft, GetMyQuestion, UpdateQuestion, QuestionResponse,
}
use history_quiz.Question.Schema.{IsQuestionForm}
use history_quiz.Question.Initial.Laws.{IsStored, to_initial_form_values-draft}
use history_quiz.Question.Posts.{
  question_action_max_body_bytes, Submission, success, plain, saved_answer,
}
use history_quiz.Question.Posts.Laws.{IsSaved}
use history_quiz.Question.Edit.{edit_action}
use history_quiz.Question.Edit.Laws.{update_reply, updated-ok}
use history_quiz.Question.Initial.{to_initial_form_values}
use history_quiz.Question.Edit.Load.Admitted.{IsAdmitted}
use history_quiz.Question.Edit.Load.{EditPage, Visit, load_edit}
use history_quiz.Question.Edit.Load.Laws.{load_edit_iff, load_reply, page_for}

page_inj : {C : Type 0} {a b : EditPage C} → returned a ≡ returned b → a ≡ b
page_inj h = cc

-- What is sent back from a page: the browser keeps the page's cookie, the user of the visit is still
-- logged in, the body is within the limit, and the form has the page's token.
pub record IsSentBack {C : Type 0} (storage : CookieStorage C) (request : Request C)
    (user : SessionUser) (page : EditPage C) (posting : Random) (next : Request C)
    (form : String → Option FormValue) (request_id : String) : Type 0 where
  pub cookie : next.cookie ≡ follow page.set_cookie request.cookie
  pub logged_in : get_user storage next ≡ some user
  pub fits :
      assert_request_content_length_within_limit posting question_action_max_body_bytes next none
      ≡ returned request_id
  pub token : form csrf_token_field_name ≡ some (text page.csrf_token)

module _ (r : Runtime) {C : Type 0} (storage : CookieStorage C) (random : Random)
    (request : Request C) (timeout : ℕ) (outside : CallOutside)
    (get : UnaryMethod GetMyQuestion QuestionResponse) (id : Option String) (b : ℕ) (bs : List ℕ)
    (metrics : Metrics) (visit : Visit C)
    (admits : IsAdmitted r storage random request id (b ∷ bs) visit) (original : QuestionDetail)
    (found : IsSaved
      (load_reply r storage random request timeout outside get visit metrics)
      original)
    (ids : ℕ → String) (d : QuestionDraft) where
  -- The page that the loader shows for the stored question of a draft.
  load-page_for :
      (page : EditPage C)
      → (load_edit r storage random request timeout outside get id (b ∷ bs) metrics).0
        ≡ returned page
      → to_initial_form_values original ≡ returned d
      → page ≡ page_for r storage random request (create_request_id random) visit original d
  load-page_for page loaded values = page_inj (
      sym loaded
      ∙ (load_edit_iff r storage random request timeout outside get id (b ∷ bs) metrics
            (page_for r storage random request (create_request_id random) visit original d)).1
          (record {
            visit = visit;
            admits = admits;
            question = original;
            saved = found;
            draft = d;
            values = values;
            shows = refl;
          }))

  -- A question whose page is loaded and whose form is sent back with the page's token and the values
  -- that the page showed is saved as it was: if the visit is admitted, the backend's question for it
  -- is the stored one of a valid draft, the loader gives a page, and the backend replies to the
  -- update that has that draft and the path's id with a question that has an id, then the answer of
  -- the action shows that question.
  pub load-edit_action :
      (page : EditPage C) (posting : Random) (next : Request C) (form : String → Option FormValue)
      (request_id : String) (update : UnaryMethod UpdateQuestion QuestionResponse)
      (parse : (String → Option FormValue) → Submission) (later : Metrics)
      (question : QuestionDetail)
      → ((m n : ℕ) → ids m ≡ ids n → m ≡ n)
      → IsStored ids d original
      → IsQuestionForm d
      → (load_edit r storage random request timeout outside get id (b ∷ bs) metrics).0
        ≡ returned page
      → IsSentBack storage request visit.user page posting next form request_id
      → parse form ≡ success page.initial_values
      → IsSaved
          (update_reply r storage posting next timeout outside update id parse
            (record { user = visit.user; request_id = request_id; form = form })
            visit.question_id
            d
            later)
          question
      → (edit_action r storage posting next timeout outside update id (returned form) parse later).0
        ≡ returned (saved_answer plain request_id question)
  load-edit_action page posting next form request_id update parse later question apart stored valid
        loaded sent parsed saved =
      (updated-ok r storage posting next timeout outside update id parse (returned form) later
        (saved_answer plain request_id question)
        (record {
          post = record { user = visit.user; request_id = request_id; form = form };
          checked = record {
            logged_in = sent.logged_in;
            fits = sent.fits;
            read = refl;
            token = (agreed storage posting form next request_id request_id passed).0;
          };
          question_id = visit.question_id;
          of_path = admits.of_path;
          draft = d;
          parsed = parsed ∙ ap (λ p. success p.initial_values) shows;
          valid = valid;
          question = question;
          saved = saved;
          answers = refl;
        })).0
    where
      shows : page ≡ page_for r storage random request (create_request_id random) visit original d
      shows =
          load-page_for page loaded (to_initial_form_values-draft ids d original apart stored valid)

      passed : verify_csrf_token storage posting form next (some request_id) ≡ returned request_id
      passed =
          issue-verify_csrf_token storage b bs posting request next visit.issued form
            (some request_id) admits.issues
            (sent.cookie ∙ ap (λ p. follow p.set_cookie request.cookie) shows)
            (sent.token ∙ ap (λ p. some (text p.csrf_token)) shows)
