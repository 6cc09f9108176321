-- ===== src/Question/Edit/Laws.antt =====
-- Which questions are changed, and which forms reach the backend.
use history_quiz.Prelude.{ℕ, String, ◌≡◌, ◌↔◌, refl, ap, sym, ◌∙◌, true, Option, none, some}
use history_quiz.Runtime.{Runtime}
use history_quiz.Errors.{Response, Result, returned, thrown}
use history_quiz.Web.{Request, FormValue}
use history_quiz.RequestId.{Random}
use history_quiz.Session.{CookieStorage}
use history_quiz.Observability.{Metrics}
use history_quiz.GrpcClient.{RpcAnswer, UnaryMethod, CallOutside, result_of}
use history_quiz.GrpcClient.Laws.{invoke_unary-result, backend_answer}
use history_quiz.GrpcClient.Settings.{update_question, question_rpc_method_name}
use history_quiz.Question.{QuestionDetail, QuestionDraft, UpdateQuestion, QuestionResponse}
use history_quiz.Question.Schema.{IsQuestionForm}
use history_quiz.Question.Edit.{
  update_context, without_id, edit_with, save_edited, after_guards, edit_action,
}
use history_quiz.Question.Initial.{id_param}
use history_quiz.Question.Posts.{
  ActionData, Submission, success, failure, Post, plain, invalid_form, saved_answer, answer_of_call,
  checked_post,
}
use history_quiz.Question.Posts.Laws.{
  IsSaved, IsCheckedPost, checked_post_iff, answer_of_call-IsSaved, answer_of_IsSaved,
}

module _ (r : Runtime) {C : Type 0} (storage : CookieStorage C) (random : Random)
    (request : Request C) (timeout : ℕ) (outside : CallOutside)
    (method : UnaryMethod UpdateQuestion QuestionResponse) (id : Option String)
    (parse : (String → Option FormValue) → Submission) where
  -- The backend's answer to the draft of a checked form, for the user who is logged in.
  abbrev pub update_reply :
      Post → (question_id : String) → QuestionDraft → Metrics → RpcAnswer QuestionResponse
  update_reply post question_id draft metrics =
      backend_answer r random timeout outside method (question_rpc_method_name update_question)
        (record {
          request_id = some post.request_id;
          timeout_ms = none;
          user_id = some post.user.user_id;
        })
        (record { context = none; body = record { question_id = question_id; draft = draft } })
        metrics

  -- What an answer `a` that tells of a new question comes from.
  pub record IsUpdated (form_data : Result (String → Option FormValue)) (metrics : Metrics)
      (a : Response ActionData) : Type 0 where
    pub post : Post
    pub checked : IsCheckedPost r storage random request form_data post
    pub question_id : String
    pub of_path : id_param id ≡ some question_id
    pub draft : QuestionDraft
    pub parsed : parse post.form ≡ success draft
    pub valid : IsQuestionForm draft
    pub question : QuestionDetail
    pub saved : IsSaved (update_reply post question_id draft metrics) question
    pub answers : a ≡ saved_answer plain post.request_id question

  answer_of_save :
      (post : Post) (question_id : String) (draft : QuestionDraft) (metrics : Metrics)
      → (save_edited r storage random request timeout outside method post question_id
          (success draft)
          metrics).0
        ≡ answer_of_call r "更新結果の問題IDが取得できませんでした。" "問題の更新に失敗しました。時間をおいて再試行してください。" post.request_id
            (λ _. saved_answer plain post.request_id)
            (result_of post.request_id (update_reply post question_id draft metrics))
  unfolding save_edited
  answer_of_save post question_id draft metrics =
      ap
        (answer_of_call r "更新結果の問題IDが取得できませんでした。" "問題の更新に失敗しました。時間をおいて再試行してください。" post.request_id
          (λ _. saved_answer plain post.request_id))
        (invoke_unary-result r random timeout outside method
          (question_rpc_method_name update_question) (update_context post)
          (record { context = none; body = record { question_id = question_id; draft = draft } })
          metrics)

  save_edited-IsUpdated :
      (form_data : Result (String → Option FormValue)) (metrics : Metrics) (a : Response ActionData)
      (post : Post) (question_id : String) (submission : Submission)
      → ((d : QuestionDraft) → submission ≡ success d → IsQuestionForm d)
      → IsCheckedPost r storage random request form_data post
      → id_param id ≡ some question_id
      → parse post.form ≡ submission
      → (save_edited r storage random request timeout outside method post question_id submission
          metrics).0
        ≡ a
      → a.body.ok ≡ true
      → IsUpdated form_data metrics a
  unfolding save_edited invalid_form
  save_edited-IsUpdated form_data metrics a post question_id failure sound c i e h g =
      (let clash = ap (λ b. b.body.ok) h ∙ g in absurd (cc))
  save_edited-IsUpdated form_data metrics a post question_id (success draft) sound c i e h g =
      let shape = answer_of_save post question_id draft metrics in
      let (question, saved, answer) =
        answer_of_call-IsSaved r _ _ post.request_id (λ _. saved_answer plain post.request_id)
          (update_reply post question_id draft metrics) (ap (λ b. b.body.ok) (sym shape ∙ h) ∙ g) in
      record {
        post = post;
        checked = c;
        question_id = question_id;
        of_path = i;
        draft = draft;
        parsed = e;
        valid = sound draft refl;
        question = question;
        saved = saved;
        answers = sym h ∙ shape ∙ answer;
      }

  edit_with-IsUpdated :
      (form_data : Result (String → Option FormValue)) (metrics : Metrics) (a : Response ActionData)
      (post : Post) (given : Option String)
      → ((d : QuestionDraft) → parse post.form ≡ success d → IsQuestionForm d)
      → IsCheckedPost r storage random request form_data post
      → id_param id ≡ given
      → (edit_with r storage random request timeout outside method parse post given metrics).0 ≡ a
      → a.body.ok ≡ true
      → IsUpdated form_data metrics a
  unfolding without_id
  edit_with-IsUpdated form_data metrics a post none sound c i h g =
      (let clash = ap (λ b. b.body.ok) h ∙ g in absurd (cc))
  edit_with-IsUpdated form_data metrics a post (some question_id) sound c i h g =
      save_edited-IsUpdated form_data metrics a post question_id (parse post.form) sound c i refl h
        g

  after_guards-IsUpdated :
      (form_data : Result (String → Option FormValue)) (metrics : Metrics) (a : Response ActionData)
      (guards : Result Post)
      → ((form : String → Option FormValue) (d : QuestionDraft)
          → parse form ≡ success d
          → IsQuestionForm d)
      → checked_post r storage random request form_data ≡ guards
      → (after_guards r storage random request timeout outside method id parse metrics guards).0
        ≡ returned a
      → a.body.ok ≡ true
      → IsUpdated form_data metrics a
  after_guards-IsUpdated form_data metrics a (thrown e) sound c h g = absurd (cc)
  after_guards-IsUpdated form_data metrics a (returned post) sound c h g =
      edit_with-IsUpdated form_data metrics a post (id_param id) (sound post.form)
        ((checked_post_iff r storage random request form_data post).0 c) refl (cc) g

  pub updated-ok :
      (form_data : Result (String → Option FormValue)) (metrics : Metrics) (a : Response ActionData)
      → IsUpdated form_data metrics a
      → ((edit_action r storage random request timeout outside method id form_data parse metrics).0
          ≡ returned a)
        × (a.body.ok ≡ true)
  unfolding edit_action
  updated-ok form_data metrics a c =
      let passed = (checked_post_iff r storage random request form_data c.post).1 c.checked in
      let answer =
        answer_of_save c.post c.question_id c.draft metrics
        ∙ answer_of_IsSaved r _ _ c.post.request_id (λ _. saved_answer plain c.post.request_id)
            (update_reply c.post c.question_id c.draft metrics) c.question c.saved
        ∙ sym c.answers in
      (rw (passed, c.of_path, c.parsed) (ap returned answer), ap (λ b. b.body.ok) c.answers)

  -- If the schema lets through only valid drafts, then the action tells of a changed question exactly
  -- if the form passed the guards, the path has an id, the form passed the schema and the backend's
  -- reply to that id and the valid draft, for the user who is logged in, has a question with an id.
  -- The answer shows that question and has the request's id.
  pub edit_action_iff :
      (form_data : Result (String → Option FormValue)) (metrics : Metrics) (a : Response ActionData)
      → ((form : String → Option FormValue) (d : QuestionDraft)
          → parse form ≡ success d
          → IsQuestionForm d)
      → (((edit_action r storage random request timeout outside method id form_data parse metrics).0
            ≡ returned a)
          × (a.body.ok ≡ true))
        ↔ IsUpdated form_data metrics a
  unfolding edit_action
  edit_action_iff form_data metrics a sound = (
    (λ (h, g).
        after_guards-IsUpdated form_data metrics a (checked_post r storage random request form_data)
          sound refl h g),
    updated-ok form_data metrics a,
  )
