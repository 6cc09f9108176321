-- ===== src/Entry/Lines.antt =====
-- What the lines of the log say.
use history_quiz.Prelude.{String, ◌≡◌, refl, ap, ◌∙◌, Option, none, some, List, [], ◌∷◌, ◌++◌}
use mathlib.Core.List.{append-nil}
use history_quiz.Prelude.Decimal.{to_decimal}
use history_quiz.Errors.{Thrown}
use history_quiz.Observability.Logs.{
  Channel, error_output, info_output, FaultLog, Payload, http_access, server_fault,
}
use history_quiz.Entry.{
  Outcome, resolved, rejected, RenderEvent, shell_ready, shell_error, render_error,
}

-- The statuses of the access logs among the lines.
abbrev pub access_statuses : List (Channel × Payload) → List String
access_statuses [] = []
access_statuses ((channel, http_access log) ∷ lines) = log.status ∷ access_statuses lines
access_statuses ((channel, _) ∷ lines) = access_statuses lines

-- What a line of the error output says: the error of a fault, or anything else.
pub data ErrorLine : Type 0 where
  fault : Option Thrown → ErrorLine
  other : ErrorLine

abbrev pub line_of : Payload → ErrorLine
line_of (server_fault log) = fault log.detail
line_of _ = other

-- All lines of the error output.
abbrev pub error_lines : List (Channel × Payload) → List ErrorLine
error_lines [] = []
error_lines ((error_output, payload) ∷ lines) = line_of payload ∷ error_lines lines
error_lines ((info_output, payload) ∷ lines) = error_lines lines

-- The lines that the errors of a rendering ask for.
abbrev pub errors_of : List RenderEvent → List ErrorLine
errors_of [] = []
errors_of (shell_ready moment ∷ events) = errors_of events
errors_of (shell_error moment e ∷ events) = fault (some e) ∷ errors_of events
errors_of (render_error moment e ∷ events) = fault (some e) ∷ errors_of events

-- The status that is to be logged for an answer.
abbrev pub statuses_of : Option Outcome → List String
statuses_of none = []
statuses_of (some (resolved status headers)) = to_decimal status ∷ []
statuses_of (some (rejected e)) = to_decimal 500 ∷ []

pub access_statuses-append :
    (xs ys : List (Channel × Payload))
    → access_statuses (xs ++ ys) ≡ access_statuses xs ++ access_statuses ys
access_statuses-append [] ys = refl
access_statuses-append ((channel, http_access log) ∷ xs) ys =
    ap (λ l. log.status ∷ l) (access_statuses-append xs ys)
access_statuses-append ((channel, _) ∷ xs) ys = access_statuses-append xs ys

pub error_lines-append :
    (xs ys : List (Channel × Payload)) → error_lines (xs ++ ys) ≡ error_lines xs ++ error_lines ys
error_lines-append [] ys = refl
error_lines-append ((error_output, payload) ∷ xs) ys =
    ap (λ l. line_of payload ∷ l) (error_lines-append xs ys)
error_lines-append ((info_output, payload) ∷ xs) ys = error_lines-append xs ys

pub fault_appended :
    (xs : List (Channel × Payload)) (channel : Channel) (log : FaultLog)
    → access_statuses (xs ++ (channel, server_fault log) ∷ []) ≡ access_statuses xs
fault_appended xs channel log =
    access_statuses-append xs ((channel, server_fault log) ∷ []) ∙ append-nil (access_statuses xs)
