-- ===== src/Question/Edit/Calls.antt =====
-- Which forms reach the backend.
use history_quiz.Prelude.{ℕ, String, ◌≡◌, ◌≢◌, refl, Option, none, some}
use history_quiz.Runtime.{Runtime}
use history_quiz.Errors.{Result, returned, thrown}
use history_quiz.Web.{Request, FormValue}
use history_quiz.RequestId.{Random}
use history_quiz.Session.{CookieStorage}
use history_quiz.Observability.{Metrics}
use history_quiz.GrpcClient.{UnaryMethod, CallOutside}
use history_quiz.Question.{QuestionDraft, UpdateQuestion, QuestionResponse}
use history_quiz.Question.Edit.{edit_with, save_edited, after_guards, edit_action}
use history_quiz.Question.Initial.{id_param}
use history_quiz.Question.Posts.{Submission, success, failure, Post, checked_post}
use history_quiz.Question.Posts.Laws.{IsCheckedPost, checked_post_iff}

module _ (r : Runtime) {C : Type 0} (storage : CookieStorage C) (random : Random)
    (request : Request C) (timeout : ℕ) (outside : CallOutside)
    (method : UnaryMethod UpdateQuestion QuestionResponse) (id : Option String)
    (parse : (String → Option FormValue) → Submission) where
  -- A form that reaches the backend has passed the guards and the schema, and its path has an id: in
  -- every other case the metrics, which count each call, are left as they were.
  pub edit_action-called :
      (form_data : Result (String → Option FormValue)) (metrics : Metrics)
      → (edit_action r storage random request timeout outside method id form_data parse metrics).1
        ≢ metrics
      → (post : Post) × IsCheckedPost r storage random request form_data post
        × (question_id : String) × (id_param id ≡ some question_id)
        × (draft : QuestionDraft) × (parse post.form ≡ success draft)
  unfolding edit_action save_edited
  edit_action-called form_data metrics changed =
      of_guards (checked_post r storage random request form_data) refl changed
    where
      Called : Type 0
      Called =
          (post : Post) × IsCheckedPost r storage random request form_data post
          × (question_id : String) × (id_param id ≡ some question_id)
          × (draft : QuestionDraft) × (parse post.form ≡ success draft)

      of_submission :
          (post : Post) (question_id : String) (submission : Submission)
          → IsCheckedPost r storage random request form_data post
          → id_param id ≡ some question_id
          → parse post.form ≡ submission
          → (save_edited r storage random request timeout outside method post question_id submission
              metrics).1
            ≢ metrics
          → Called
      of_submission post question_id failure c i e n = absurd (n refl)
      of_submission post question_id (success draft) c i e n = (post, c, question_id, i, draft, e)

      of_param :
          (post : Post) (given : Option String)
          → IsCheckedPost r storage random request form_data post
          → id_param id ≡ given
          → (edit_with r storage random request timeout outside method parse post given metrics).1
            ≢ metrics
          → Called
      of_param post none c i n = absurd (n refl)
      of_param post (some question_id) c i n =
          of_submission post question_id (parse post.form) c i refl n

      of_guards :
          (guards : Result Post)
          → checked_post r storage random request form_data ≡ guards
          → (after_guards r storage random request timeout outside method id parse metrics guards).1
            ≢ metrics
          → Called
      of_guards (thrown e) c n = absurd (n refl)
      of_guards (returned post) c n =
          of_param post (id_param id)
            ((checked_post_iff r storage random request form_data post).0 c) refl n
