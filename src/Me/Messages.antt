-- ===== src/Me/Messages.antt =====
-- The messages of the my page: client/app/grpc/user.server.ts, listMyQuestions of
-- client/app/grpc/question.server.ts, and the first page that client/app/routes/me.tsx asks for.
use history_quiz.Prelude.{ℕ, String, Bool, Option, none, some, List}
use history_quiz.Question.{QuestionSummary}

abbrev pub list_page_size : ℕ
list_page_size = 20

pub record Pagination : Type 0 where
  pub page_size : Option ℕ
  pub page_token : Option String

pub record PageInfo : Type 0 where
  pub next_page_token : Option String

pub record Attempt : Type 0 where
  pub id : String
  pub question_id : String
  pub question_prompt : String
  pub selected_choice_id : String
  pub is_correct : Bool
  pub answered_at : String

-- `F` is the type of doubles.
pub record Stats (F : Type 0) : Type 0 where
  pub total_attempts : String
  pub correct_attempts : String
  pub accuracy : F

-- ListMyAttemptsRequest and ListMyQuestionsRequest, without their contexts.
pub record ListRequest : Type 0 where
  pub pagination : Option Pagination

pub record ListMyAttemptsResponse : Type 0 where
  pub attempts : List Attempt
  pub page_info : Option PageInfo

pub record GetMyStatsResponse (F : Type 0) : Type 0 where
  pub stats : Option (Stats F)

pub record ListMyQuestionsResponse : Type 0 where
  pub page_info : Option PageInfo
  pub questions : List QuestionSummary

abbrev pub first_page : ListRequest
first_page = record {
  pagination = some (record { page_size = some list_page_size; page_token = none });
}
