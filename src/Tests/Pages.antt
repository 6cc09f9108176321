-- ===== src/Tests/Pages.antt =====
-- The page with a question, on a first visit.
use history_quiz.Prelude.{String, ◌≡◌, refl, false, Option, none, some, [], ◌∷◌}
use history_quiz.Prelude.Text.{is_empty, trim, trimmed}
use history_quiz.Errors.{returned}
use history_quiz.Web.{FormValue, text}
use history_quiz.RequestId.{create_request_id}
use history_quiz.Session.{
  SessionData, empty_session, get_user_session, to_session_non_empty_string,
  ensure_session_csrf_token, generate_csrf_token, get_user,
}
use history_quiz.Session.Tokens.{to_hex}
use history_quiz.Csrf.{issue_csrf_token, verify_csrf_token, answered_id}
use history_quiz.Observability.Laws.{no_metrics}
use history_quiz.GrpcClient.{
  CallOutside, UnaryMethod, replied, invoke_unary, normalize_call_context, with_request_context,
}
use history_quiz.Quiz.Load.{
  QuizQuestion, GetQuestion, GetQuestionResponse, QuizPage, check_question, page_of, load_with,
  load_quiz,
}
use history_quiz.Quiz.Load.Laws.{load_quiz-verified}
use history_quiz.Tests.World.{world, storage, random, request_with}

abbrev call_outside : CallOutside
call_outside = record { node_env = none; deadline_from = 10; started_at = 11; ended_at = 15 }

abbrev first_question : QuizQuestion
first_question = record { id = "q1"; prompt = "1600?"; choices = []; explanation = "" }

abbrev ask : UnaryMethod GetQuestion GetQuestionResponse
ask _ _ _ = replied (record { question = some first_question })

abbrev visited : SessionData
visited = record empty_session { csrf_token = some "0aff" }

abbrev first_page : QuizPage SessionData
first_page = record {
  csrf_token = "0aff";
  question = first_question;
  request_id = "u1";
  set_cookie = some visited;
}

abbrev posted : String → Option FormValue
posted _ = some (text "0aff")

load_quiz-verified_example :
    (is_empty "q1" ≡ false)
    × (verify_csrf_token storage random posted (request_with (some visited)) none
        ≡ returned (answered_id random none))
unfolding load_quiz load_with page_of check_question issue_csrf_token ensure_session_csrf_token
    generate_csrf_token to_hex get_user_session to_session_non_empty_string trim trimmed
    create_request_id invoke_unary normalize_call_context with_request_context get_user
load_quiz-verified_example =
    load_quiz-verified world storage random 3000 call_outside ask (request_with none) 10 (255 ∷ [])
      no_metrics first_page (request_with (some visited)) posted random none refl refl refl
