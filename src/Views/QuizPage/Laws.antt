-- ===== src/Views/QuizPage/Laws.antt =====
-- What the page with a question gives away of its answer.
use history_quiz.Prelude.{
  String, ◌≡◌, ◌≢◌, ◌↔◌, refl, Bool, true, false, ◌||◌, Option, none, some, List, [], ◌∷◌, map, All,
  eq_iff, arith,
}
use history_quiz.Quiz.{ActionData, graded, refused, QuizResult}
use history_quiz.Quiz.Load.{QuizChoice, QuizPage}
use history_quiz.Views.QuizPage.{ChoiceView, QuizView, choice_view, quiz_view}

-- No mark behind a choice.
abbrev pub IsUnmarked : ChoiceView → Type 0
IsUnmarked c = (c.marked_correct ≡ false) × (c.marked_yours ≡ false)

-- A page that gives nothing away of its answer.
pub record IsHiding (v : QuizView) : Type 0 where
  pub unmarked : All IsUnmarked v.choices
  pub no_verdict : v.verdict ≡ none
  pub no_label : v.correct_label ≡ none
  pub no_explanation : v.explanation ≡ none

-- No graded result is there.
abbrev pub IsUngraded : Option ActionData → Type 0
IsUngraded action = (id : String) (result : QuizResult) → action ≢ some (graded id result)

choices-IsUnmarked :
    (action : Option ActionData)
    → IsUngraded action
    → (choices : List QuizChoice) → All IsUnmarked (map (choice_view action) choices)
unfolding choice_view
choices-IsUnmarked action h [] = tt
choices-IsUnmarked none h (choice ∷ choices) = ((refl, refl), choices-IsUnmarked none h choices)
choices-IsUnmarked (some (refused refusal)) h (choice ∷ choices) =
    ((refl, refl), choices-IsUnmarked (some (refused refusal)) h choices)
choices-IsUnmarked (some (graded id result)) h (choice ∷ choices) = absurd (h id result refl)

-- Unless the action's answer is a graded result, be it that there is none or that the answer was
-- refused, the page marks none of the choices, tells no verdict and shows neither the correct choice
-- nor the explanation.
pub quiz_view-IsHiding :
    {C : Type 0} (page : QuizPage C) (action : Option ActionData) (submitting : Bool)
    → IsUngraded action
    → IsHiding (quiz_view page action submitting)
unfolding quiz_view
quiz_view-IsHiding page none submitting h = record {
  unmarked = choices-IsUnmarked none h page.question.choices;
  no_verdict = refl;
  no_label = refl;
  no_explanation = refl;
}
quiz_view-IsHiding page (some (refused refusal)) submitting h = record {
  unmarked = choices-IsUnmarked (some (refused refusal)) h page.question.choices;
  no_verdict = refl;
  no_label = refl;
  no_explanation = refl;
}
quiz_view-IsHiding page (some (graded id result)) submitting h = absurd (h id result refl)

-- The marks behind a choice once it is graded.
abbrev pub IsMarked : QuizResult → ChoiceView → Type 0
IsMarked result c =
    ((c.marked_correct ≡ true) ↔ (c.id ≡ result.correct_choice_id))
    × ((c.marked_yours ≡ true) ↔ ((result.is_correct ≡ false) × (c.id ≡ result.selected_choice_id)))

choice_view-IsMarked :
    (id : String) (result : QuizResult) (choice : QuizChoice)
    → IsMarked result (choice_view (some (graded id result)) choice)
unfolding choice_view
choice_view-IsMarked id result choice = (
  eq_iff choice.id result.correct_choice_id,
  (
    (λ h. (ground arith, (eq_iff choice.id result.selected_choice_id).0 (ground arith))),
    (λ (wrong, same).
        let equal = (eq_iff choice.id result.selected_choice_id).1 same in rw (wrong, equal)),
  ),
)

choices-IsMarked :
    (id : String) (result : QuizResult) (choices : List QuizChoice)
    → All (IsMarked result) (map (choice_view (some (graded id result))) choices)
choices-IsMarked id result [] = tt
choices-IsMarked id result (choice ∷ choices) =
    (choice_view-IsMarked id result choice, choices-IsMarked id result choices)

or_true : (b : Bool) → (b || true) ≡ true
or_true true = refl
or_true false = refl

-- Once a choice is graded the page marks exactly the correct choice as correct, and as the user's own
-- exactly the selected one if the answer is wrong; it tells the backend's verdict and takes no second
-- answer.
pub quiz_view-IsMarked :
    {C : Type 0} (page : QuizPage C) (id : String) (result : QuizResult) (submitting : Bool)
    → All (IsMarked result) (quiz_view page (some (graded id result)) submitting).choices
      × ((quiz_view page (some (graded id result)) submitting).verdict ≡ some result.is_correct)
      × ((quiz_view page (some (graded id result)) submitting).disabled ≡ true)
unfolding quiz_view
quiz_view-IsMarked page id result submitting =
    (choices-IsMarked id result page.question.choices, refl, or_true submitting)
