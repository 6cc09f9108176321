-- ===== src/Views/QuizPage.antt =====
-- The page with a question: QuizRoute of client/app/routes/quiz.tsx.
pub mod Laws
use history_quiz.Prelude.{
  String, Bool, true, false, not, ◌||◌, ◌&&◌, Option, none, some, List, [], ◌∷◌, map, ◌==◌,
  if◌then◌else◌,
}
use history_quiz.Prelude.Text.{is_empty}
use history_quiz.Quiz.{ActionData, graded, refused, QuizResult, Refusal}
use history_quiz.Quiz.Load.{QuizChoice, QuizQuestion, QuizPage}

-- A choice's radio button with its label and the two marks behind it.
pub record ChoiceView : Type 0 where
  pub id : String
  pub label : String
  pub checked : Bool
  pub invalid : Bool
  pub marked_correct : Bool
  pub marked_yours : Bool

pub record QuizView : Type 0 where
  pub prompt : String
  pub csrf_token : String
  pub question_id : String
  pub disabled : Bool
  pub choices : List ChoiceView
  pub choice_error : Option String
  pub message : Option String
  pub verdict : Option Bool
  pub correct_label : Option String
  pub explanation : Option String
  pub request_id : String

abbrev pub is_answered : Option ActionData → Bool
is_answered (some (graded id result)) = true
is_answered _ = false

abbrev pub selected_choice : Option ActionData → Option String
selected_choice none = none
selected_choice (some (graded id result)) = some result.selected_choice_id
selected_choice (some (refused refusal)) = refusal.selected_choice_id

abbrev pub correct_choice : Option ActionData → Option String
correct_choice (some (graded id result)) = some result.correct_choice_id
correct_choice _ = none

abbrev pub verdict_of : Option ActionData → Option Bool
verdict_of (some (graded id result)) = some result.is_correct
verdict_of _ = none

-- choice.id === id, for an id that may be undefined.
abbrev pub is_choice : String → Option String → Bool
is_choice id none = false
is_choice id (some other) = id == other

abbrev pub is_wrong : Option Bool → Bool
is_wrong none = false
is_wrong (some is_correct) = not is_correct

-- A text, if there is one that is not empty.
abbrev pub truthy : Option String → Option String
truthy none = none
truthy (some s) = if is_empty s then none else some s

abbrev pub field_error : Option ActionData → Option String
field_error (some (refused refusal)) = truthy refusal.choice_id_error
field_error _ = none

abbrev pub refusal_message : Option ActionData → Option String
refusal_message (some (refused refusal)) = some refusal.message
refusal_message _ = none

abbrev pub shown_request_id : Option ActionData → String → String
shown_request_id none loaded = loaded
shown_request_id (some (graded id result)) loaded = id
shown_request_id (some (refused refusal)) loaded = or_loaded refusal.request_id
  where
    or_loaded : Option String → String
    or_loaded none = loaded
    or_loaded (some id) = id

abbrev pub is_present : Option String → Bool
is_present none = false
is_present (some s) = true

-- choices.find((choice) => choice.id === correctChoiceId)?.label
unfoldable pub label_of : Option String → List QuizChoice → Option String
label_of id [] = none
label_of id (choice ∷ choices) =
    let rest = label_of id choices in if is_choice choice.id id then some choice.label else rest

unfoldable pub choice_view : Option ActionData → QuizChoice → ChoiceView
choice_view action choice = record {
  id = choice.id;
  label = choice.label;
  checked = is_choice choice.id (selected_choice action);
  invalid = is_present (field_error action);
  marked_correct = is_answered action && is_choice choice.id (correct_choice action);
  marked_yours =
      is_answered action
      && is_wrong (verdict_of action)
      && is_choice choice.id (selected_choice action);
}

-- QuizRoute
unfoldable pub quiz_view :
    {C : Type 0} → QuizPage C → Option ActionData → (submitting : Bool) → QuizView
quiz_view page action submitting = record {
  prompt = page.question.prompt;
  csrf_token = page.csrf_token;
  question_id = page.question.id;
  disabled = submitting || is_answered action;
  choices = map (choice_view action) page.question.choices;
  choice_error = field_error action;
  message = refusal_message action;
  verdict = verdict_of action;
  correct_label =
      if is_wrong (verdict_of action)
      then truthy (label_of (truthy (correct_choice action)) page.question.choices)
      else none;
  explanation = if is_answered action then truthy (some page.question.explanation) else none;
  request_id = shown_request_id action page.request_id;
}
