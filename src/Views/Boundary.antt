-- ===== src/Views/Boundary.antt =====
-- The error pages: ErrorBoundary of client/app/routes/quiz.tsx, client/app/routes/me.tsx and
-- client/app/routes/questions.$id.edit.tsx.
pub mod Laws
use history_quiz.Prelude.{String, Option, none, some, if◌then◌else◌}
use history_quiz.Prelude.Text.{is_empty}
use history_quiz.Errors.{Thrown, error_response, message_response, HttpErrorPayload, Response}

-- The fields that a boundary reads of a response's data.
pub record BoundaryData : Type 0 where
  pub error_message : Option String
  pub message : Option String
  pub request_id : Option String

pub record BoundaryView : Type 0 where
  pub message : String
  pub request_id : Option String

-- isRouteErrorResponse(error), and its data: a thrown response reaches the boundary as such, any
-- other value does not. A redirect is followed and reaches none.
abbrev pub route_error_data : Thrown → Option BoundaryData
route_error_data (error_response response) = some (record {
  error_message = some response.body.message;
  message = none;
  request_id = response.body.request_id;
})
route_error_data (message_response response) =
    some (record { error_message = none; message = some response.body; request_id = none })
route_error_data _ = none

-- typeof value === "string" && value.length > 0
abbrev pub text_or : Option String → String → String
text_or none default = default
text_or (some s) default = if is_empty s then default else s

abbrev pub present_text : Option String → Option String
present_text none = none
present_text (some s) = if is_empty s then none else some s

-- The boundaries of the quiz and of the my page, by the message that they begin with.
unfoldable pub error_boundary : (default : String) → Option BoundaryData → BoundaryView
error_boundary default none = record { message = default; request_id = none }
error_boundary default (some value) = record {
  message = text_or value.error_message default;
  request_id = present_text value.request_id;
}

abbrev pub quiz_boundary : Thrown → BoundaryView
quiz_boundary e = error_boundary "クイズ画面の表示中にエラーが発生しました。" (route_error_data e)

abbrev pub me_boundary : Thrown → BoundaryView
me_boundary e = error_boundary "マイページの表示中にエラーが発生しました。" (route_error_data e)

-- The boundary of the page that edits a question, which also reads a message of its own.
unfoldable pub edit_error_boundary : Option BoundaryData → BoundaryView
edit_error_boundary none = record { message = "問題編集画面の表示中にエラーが発生しました。"; request_id = none }
edit_error_boundary (some value) = record {
  message = text_or value.error_message (text_or value.message "問題編集画面の表示中にエラーが発生しました。");
  request_id = present_text value.request_id;
}

abbrev pub edit_boundary : Thrown → BoundaryView
edit_boundary e = edit_error_boundary (route_error_data e)
