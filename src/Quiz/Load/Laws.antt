-- ===== src/Quiz/Load/Laws.antt =====
-- What a page with a question promises.
use history_quiz.Prelude.{
  ℕ, String, ◌≡◌, refl, sym, ap, ◌∙◌, subst, false, Option, none, some, List, ◌∷◌, Bool-cases, inl,
  inr,
}
use history_quiz.Prelude.Text.{is_empty}
use history_quiz.Runtime.{Runtime}
use history_quiz.Errors.{Result, returned, thrown, ◌>>=◌, catch}
use history_quiz.GrpcError.Normalize.{throw_grpc_error_response}
use history_quiz.Web.{Request, FormValue, text}
use history_quiz.RequestId.{Random}
use history_quiz.Session.{CookieStorage, IssuedCsrfToken}
use history_quiz.Session.Laws.{follow}
use history_quiz.Csrf.{issue_csrf_token, verify_csrf_token, csrf_token_field_name, answered_id}
use history_quiz.Csrf.Laws.{issue-verify_csrf_token}
use history_quiz.Observability.{Metrics}
use history_quiz.GrpcClient.{GrpcCallResult, UnaryMethod, CallOutside}
use history_quiz.Quiz.Load.{
  QuizQuestion, GetQuestion, GetQuestionResponse, QuizPage, check_question, page_of, load_with,
  load_quiz,
}

id_of_checked :
    (o : Option QuizQuestion) (q : QuizQuestion)
    → check_question o ≡ returned q
    → is_empty q.id ≡ false
unfolding check_question
id_of_checked none q h = absurd (cc)
id_of_checked (some question) q h = elim (Bool-cases (is_empty question.id)) [
  | inl e ↦ (let clash = rw e at h in absurd (cc))
  | inr e ↦ let same : question ≡ q = inj (rw e at h) in subst (λ x. is_empty x.id ≡ false) same e
]
  where
    inj : {a b : QuizQuestion} → returned a ≡ returned b → a ≡ b
    inj k = cc

page_inj : {C : Type 0} {p q : QuizPage C} → returned p ≡ returned q → p ≡ q
page_inj h = cc

module _ (r : Runtime) {C : Type 0} (storage : CookieStorage C) (random : Random) (timeout : ℕ)
    (outside : CallOutside) (method : UnaryMethod GetQuestion GetQuestionResponse)
    (request : Request C) where
  -- A page shows a question with an id, and the token that was issued with its cookie.
  abbrev IsPage : IssuedCsrfToken C → QuizPage C → Type 0
  IsPage issued page =
      (is_empty page.question.id ≡ false)
      × (page.csrf_token ≡ issued.csrf_token)
      × (page.set_cookie ≡ issued.set_cookie)

  page_of-IsPage :
      (issued : IssuedCsrfToken C) (called : Result (GrpcCallResult GetQuestionResponse))
      (page : QuizPage C)
      → page_of r storage random timeout outside method request issued called ≡ returned page
      → IsPage issued page
  unfolding page_of throw_grpc_error_response
  page_of-IsPage issued (thrown e) page h = absurd (cc)
  page_of-IsPage issued (returned result) page h =
      go (check_question result.response.question) refl h
    where
      go :
          (m : Result QuizQuestion)
          → check_question result.response.question ≡ m
          → catch
              (m >>= λ question. returned (record {
                csrf_token = issued.csrf_token;
                question = question;
                request_id = result.request_id;
                set_cookie = issued.set_cookie;
              }))
              (λ e. throw_grpc_error_response r (record {
                error = e;
                fallback_message = some "問題の取得に失敗しました。時間をおいて再試行してください。";
                request_id = none;
              }))
            ≡ returned page
          → IsPage issued page
      go (thrown e) c k = absurd (cc)
      go (returned q) c k =
          let id = id_of_checked result.response.question q c in
          let shown = page_inj k in
          (
            subst (λ p. is_empty p.question.id ≡ false) shown id,
            sym (ap (λ p. p.csrf_token) shown),
            sym (ap (λ p. p.set_cookie) shown),
          )

  load_with-inv :
      (issuing : Result (IssuedCsrfToken C)) (metrics : Metrics) (page : QuizPage C)
      → (load_with r storage random timeout outside method request issuing metrics).0
        ≡ returned page
      → (issued : IssuedCsrfToken C) × (issuing ≡ returned issued) × IsPage issued page
  unfolding load_with
  load_with-inv (thrown e) metrics page h = absurd (cc)
  load_with-inv (returned issued) metrics page h = (issued, refl, page_of-IsPage issued _ page h)

  -- A page with a question shows one that has an id, and a form that is posted from it, with the
  -- page's token and the cookie that came with the page, passes the check of the token.
  pub load_quiz-verified :
      (b : ℕ) (bs : List ℕ) (metrics : Metrics) (page : QuizPage C) (next : Request C)
      (form : String → Option FormValue) (posting : Random) (given : Option String)
      → (load_quiz r storage random timeout outside method request (b ∷ bs) metrics).0
        ≡ returned page
      → next.cookie ≡ follow page.set_cookie request.cookie
      → form csrf_token_field_name ≡ some (text page.csrf_token)
      → (is_empty page.question.id ≡ false)
        × (verify_csrf_token storage posting form next given ≡ returned (answered_id posting given))
  unfolding load_quiz
  load_quiz-verified b bs metrics page next form posting given h k f =
      let (issued, issuing, (has_id, token, cookie)) =
        load_with-inv (issue_csrf_token storage (b ∷ bs) request) metrics page h in
      (
        has_id,
        issue-verify_csrf_token storage b bs posting request next issued form given issuing
            (k ∙ ap (λ c. follow c request.cookie) cookie) (f ∙ ap (λ t. some (text t)) token),
      )
