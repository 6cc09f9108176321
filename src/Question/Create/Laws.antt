-- ===== src/Question/Create/Laws.antt =====
-- Which questions are made.
use history_quiz.Prelude.{none, some, ℕ, String, ◌≡◌, ◌↔◌, refl, ap, sym, ◌∙◌, true, Option}
use history_quiz.Runtime.{Runtime}
use history_quiz.Errors.{Response, Result, returned, thrown}
use history_quiz.Web.{Request, FormValue}
use history_quiz.RequestId.{Random}
use history_quiz.Session.{CookieStorage}
use history_quiz.Observability.{Metrics}
use history_quiz.GrpcClient.{RpcAnswer, UnaryMethod, CallOutside, result_of}
use history_quiz.GrpcClient.Laws.{invoke_unary-result, backend_answer}
use history_quiz.GrpcClient.Settings.{create_question, question_rpc_method_name}
use history_quiz.Question.{QuestionDetail, QuestionDraft, CreateQuestion, QuestionResponse}
use history_quiz.Question.Schema.{IsQuestionForm}
use history_quiz.Question.Create.{create_context, save_new, after_guards, create_action}
use history_quiz.Question.Posts.{
  ActionData, Submission, success, failure, Post, reset_form, invalid_form, saved_answer,
  answer_of_call, checked_post,
}
use history_quiz.Question.Posts.Laws.{
  IsSaved, IsCheckedPost, checked_post_iff, answer_of_call-IsSaved, answer_of_IsSaved,
}

module _ (r : Runtime) {C : Type 0} (storage : CookieStorage C) (random : Random)
    (request : Request C) (timeout : ℕ) (outside : CallOutside)
    (method : UnaryMethod CreateQuestion QuestionResponse)
    (parse : (String → Option FormValue) → Submission) where
  -- The backend's answer to the draft of a checked form, for the user who is logged in.
  abbrev pub create_reply : Post → QuestionDraft → Metrics → RpcAnswer QuestionResponse
  create_reply post draft metrics =
      backend_answer r random timeout outside method (question_rpc_method_name create_question)
        (record {
          request_id = some post.request_id;
          timeout_ms = none;
          user_id = some post.user.user_id;
        })
        (record { context = none; body = record { draft = draft } }) metrics

  -- What an answer `a` that tells of a new question comes from.
  pub record IsCreated (form_data : Result (String → Option FormValue)) (metrics : Metrics)
      (a : Response ActionData) : Type 0 where
    pub post : Post
    pub checked : IsCheckedPost r storage random request form_data post
    pub draft : QuestionDraft
    pub parsed : parse post.form ≡ success draft
    pub valid : IsQuestionForm draft
    pub question : QuestionDetail
    pub saved : IsSaved (create_reply post draft metrics) question
    pub answers : a ≡ saved_answer reset_form post.request_id question

  answer_of_save :
      (post : Post) (draft : QuestionDraft) (metrics : Metrics)
      → (save_new r storage random request timeout outside method post (success draft) metrics).0
        ≡ answer_of_call r "作成結果の問題IDが取得できませんでした。" "問題の保存に失敗しました。時間をおいて再試行してください。" post.request_id
            (saved_answer reset_form)
            (result_of post.request_id (create_reply post draft metrics))
  unfolding save_new
  answer_of_save post draft metrics =
      ap
        (answer_of_call r "作成結果の問題IDが取得できませんでした。" "問題の保存に失敗しました。時間をおいて再試行してください。" post.request_id
          (saved_answer reset_form))
        (invoke_unary-result r random timeout outside method
          (question_rpc_method_name create_question) (create_context post)
          (record { context = none; body = record { draft = draft } }) metrics)

  save_new-IsCreated :
      (form_data : Result (String → Option FormValue)) (metrics : Metrics) (a : Response ActionData)
      (post : Post) (submission : Submission)
      → ((d : QuestionDraft) → submission ≡ success d → IsQuestionForm d)
      → IsCheckedPost r storage random request form_data post
      → parse post.form ≡ submission
      → (save_new r storage random request timeout outside method post submission metrics).0 ≡ a
      → a.body.ok ≡ true
      → IsCreated form_data metrics a
  unfolding save_new invalid_form
  save_new-IsCreated form_data metrics a post failure sound c e h g =
      (let clash = ap (λ b. b.body.ok) h ∙ g in absurd (cc))
  save_new-IsCreated form_data metrics a post (success draft) sound c e h g =
      let shape = answer_of_save post draft metrics in
      let (question, saved, answer) =
        answer_of_call-IsSaved r _ _ post.request_id (saved_answer reset_form)
          (create_reply post draft metrics) (ap (λ b. b.body.ok) (sym shape ∙ h) ∙ g) in
      record {
        post = post;
        checked = c;
        draft = draft;
        parsed = e;
        valid = sound draft refl;
        question = question;
        saved = saved;
        answers = sym h ∙ shape ∙ answer;
      }

  after_guards-IsCreated :
      (form_data : Result (String → Option FormValue)) (metrics : Metrics) (a : Response ActionData)
      (guards : Result Post)
      → ((form : String → Option FormValue) (d : QuestionDraft)
          → parse form ≡ success d
          → IsQuestionForm d)
      → checked_post r storage random request form_data ≡ guards
      → (after_guards r storage random request timeout outside method parse metrics guards).0
        ≡ returned a
      → a.body.ok ≡ true
      → IsCreated form_data metrics a
  after_guards-IsCreated form_data metrics a (thrown e) sound c h g = absurd (cc)
  after_guards-IsCreated form_data metrics a (returned post) sound c h g =
      save_new-IsCreated form_data metrics a post (parse post.form) (sound post.form)
        ((checked_post_iff r storage random request form_data post).0 c) refl (cc) g

  pub created-ok :
      (form_data : Result (String → Option FormValue)) (metrics : Metrics) (a : Response ActionData)
      → IsCreated form_data metrics a
      → ((create_action r storage random request timeout outside method form_data parse metrics).0
          ≡ returned a)
        × (a.body.ok ≡ true)
  unfolding create_action
  created-ok form_data metrics a c =
      let passed = (checked_post_iff r storage random request form_data c.post).1 c.checked in
      let answer =
        answer_of_save c.post c.draft metrics
        ∙ answer_of_IsSaved r _ _ c.post.request_id (saved_answer reset_form)
            (create_reply c.post c.draft metrics) c.question c.saved
        ∙ sym c.answers in
      (rw (passed, c.parsed) (ap returned answer), ap (λ b. b.body.ok) c.answers)

  -- If the schema lets through only valid drafts, then the action tells of a new question exactly if
  -- the form passed the guards and the schema and the backend's reply to the valid draft, for the
  -- user who is logged in, has a question with an id. The answer shows that question, clears the
  -- form and has the request's id.
  pub create_action_iff :
      (form_data : Result (String → Option FormValue)) (metrics : Metrics) (a : Response ActionData)
      → ((form : String → Option FormValue) (d : QuestionDraft)
          → parse form ≡ success d
          → IsQuestionForm d)
      → (((create_action r storage random request timeout outside method form_data parse metrics).0
            ≡ returned a)
          × (a.body.ok ≡ true))
        ↔ IsCreated form_data metrics a
  unfolding create_action
  create_action_iff form_data metrics a sound = (
    (λ (h, g).
        after_guards-IsCreated form_data metrics a (checked_post r storage random request form_data)
          sound refl h g),
    created-ok form_data metrics a,
  )
