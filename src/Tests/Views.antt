-- ===== src/Tests/Views.antt =====
-- A graded page and the page of a failure.
use history_quiz.Prelude.{◌≡◌, refl, true, false, none, some, [], ◌∷◌, All}
use history_quiz.Prelude.Text.{trim, non_blank}
use history_quiz.Errors.{error_response, foreign}
use history_quiz.GrpcError.Normalize.{Params, normalize_grpc_http_error, create_grpc_error_response}
use history_quiz.Session.{SessionData}
use history_quiz.Quiz.{graded, refused, QuizResult, Refusal}
use history_quiz.Quiz.Load.{QuizPage}
use history_quiz.Views.Boundary.{quiz_boundary, me_boundary, edit_boundary}
use history_quiz.Views.Boundary.Laws.{boundary-shows}
use history_quiz.Views.QuizPage.{quiz_view}
use history_quiz.Views.QuizPage.Laws.{IsHiding, quiz_view-IsHiding, IsMarked, quiz_view-IsMarked}
use history_quiz.Tests.World.{world}

abbrev page : QuizPage SessionData
page = record {
  csrf_token = "tok";
  question = record {
    id = "q1";
    prompt = "1600?";
    choices =
        record { id = "c1"; label = "a"; ordinal = 0 }
        ∷ record { id = "c2"; label = "b"; ordinal = 1 }
        ∷ [];
    explanation = "why";
  };
  request_id = "u1";
  set_cookie = none;
}

abbrev result : QuizResult
result = record {
  attempt_id = "a1";
  correct_choice_id = "c2";
  is_correct = false;
  question_id = "q1";
  selected_choice_id = "c1";
}

-- The answer to a choice that the backend did not take.
abbrev refusal : Refusal
refusal = record {
  message = "again";
  request_id = some "u2";
  selected_choice_id = some "c1";
  choice_id_error = none;
}

quiz_view-IsHiding_example : IsHiding (quiz_view page (some (refused refusal)) false)
quiz_view-IsHiding_example =
    quiz_view-IsHiding page (some (refused refusal)) false (λ id result h. cc)

quiz_view-IsMarked_example :
    All (IsMarked result) (quiz_view page (some (graded "u2" result)) false).choices
    × ((quiz_view page (some (graded "u2" result)) false).verdict ≡ some result.is_correct)
    × ((quiz_view page (some (graded "u2" result)) false).disabled ≡ true)
quiz_view-IsMarked_example = quiz_view-IsMarked page "u2" result false

abbrev failure : Params
failure = record { error = foreign; fallback_message = some " no page "; request_id = some "u1" }

boundary-shows_example :
    (quiz_boundary (error_response (create_grpc_error_response world failure)) ≡ record {
      message = trim " no page ";
      request_id = (normalize_grpc_http_error world failure).request_id;
    })
    × (me_boundary (error_response (create_grpc_error_response world failure)) ≡ record {
      message = trim " no page ";
      request_id = (normalize_grpc_http_error world failure).request_id;
    })
    × (edit_boundary (error_response (create_grpc_error_response world failure)) ≡ record {
      message = trim " no page ";
      request_id = (normalize_grpc_http_error world failure).request_id;
    })
unfolding non_blank trim
boundary-shows_example = boundary-shows world failure " no page " refl refl
