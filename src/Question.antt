-- ===== src/Question.antt =====
-- Questions of an author: the messages of client/app/grpc/question.server.ts.
pub mod Create
pub mod Edit
pub mod Initial
pub mod Posts
pub mod Schema
use history_quiz.Prelude.{ℕ, String, Option, List}

pub record QuestionChoice : Type 0 where
  pub id : String
  pub label : String
  pub ordinal : ℕ

pub record QuestionSummary : Type 0 where
  pub id : String
  pub prompt : String
  pub updated_at : String

-- `explanation` is `none` where the backend gives null.
pub record QuestionDetail : Type 0 where
  pub id : String
  pub prompt : String
  pub choices : List QuestionChoice
  pub correct_choice_id : String
  pub explanation : Option String
  pub updated_at : String

pub record QuestionDraft : Type 0 where
  pub prompt : String
  pub choices : List String
  pub correct_ordinal : ℕ
  pub explanation : String

-- CreateQuestionRequest, UpdateQuestionRequest and GetMyQuestionRequest, without their contexts.
pub record CreateQuestion : Type 0 where
  pub draft : QuestionDraft

pub record UpdateQuestion : Type 0 where
  pub question_id : String
  pub draft : QuestionDraft

pub record GetMyQuestion : Type 0 where
  pub question_id : String

-- CreateQuestionResponse, UpdateQuestionResponse and GetMyQuestionResponse, without their contexts.
pub record QuestionResponse : Type 0 where
  pub question : Option QuestionDetail
