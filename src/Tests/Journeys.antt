-- ===== src/Tests/Journeys.antt =====
-- The page of a question, and its form sent back.
use history_quiz.Prelude.{String, ◌≡◌, refl, Option, none, some, [], ◌∷◌}
use history_quiz.Prelude.Decimal.{is_decimal, value_from, to_decimal}
use history_quiz.Prelude.Text.{trim, trimmed, non_blank}
use history_quiz.Prelude.Sort.{insert_by, sort_by}
use history_quiz.Errors.{returned}
use history_quiz.Web.{FormValue, text}
use history_quiz.RequestId.{create_request_id}
use history_quiz.RequestSize.{
  infinite, parse_content_length_header, check_content_length,
  assert_request_content_length_within_limit, resolve_request_id,
}
use history_quiz.Session.{
  SessionData, IssuedCsrfToken, get_user, get_user_session, to_session_non_empty_string,
  ensure_session_csrf_token,
}
use history_quiz.Auth.{require_authenticated_user}
use history_quiz.Csrf.{issue_csrf_token}
use history_quiz.Observability.Laws.{no_metrics}
use history_quiz.Question.Initial.{find_index, to_sorted_choices, to_initial_form_values}
use history_quiz.Question.Posts.{plain, reset_form, saved_answer}
use history_quiz.Question.Create.{load_new, create_action}
use history_quiz.Question.Create.Journey.{load_new-create_action}
use history_quiz.Question.Edit.{edit_action}
use history_quiz.Question.Edit.Journey.{load-edit_action}
use history_quiz.Question.Edit.Load.Laws.{IsEditPage, load_edit_iff}
use history_quiz.Tests.Questions.{
  draft, draft-IsQuestionForm, apart, stored, stored-IsStored, parse, call_outside, create, update,
  get, page,
}
use history_quiz.Tests.World.{world, storage, random, request_with, alice_session}

abbrev sent_form : String → Option FormValue
sent_form _ = some (text "tok")

abbrev kept : IssuedCsrfToken SessionData
kept = record { csrf_token = "tok"; set_cookie = none }

abbrev shown :
    IsEditPage world storage random
      (request_with (some alice_session))
      3000
      call_outside
      get
      (some "q1")
      (1 ∷ [])
      no_metrics
      page
unfolding get_user get_user_session to_session_non_empty_string trim trimmed issue_csrf_token
    ensure_session_csrf_token create_request_id to_initial_form_values to_sorted_choices sort_by
    insert_by find_index
shown = record {
  visit = record { user = record { user_id = "alice" }; question_id = "q1"; issued = kept };
  admits = record { logged_in = refl; of_path = refl; issues = refl };
  question = stored;
  saved = record {
    reply = record { question = some stored };
    replies = refl;
    found = refl;
    has_id = refl;
  };
  draft = draft;
  values = refl;
  shows = refl;
}

load-edit_action_example :
    (edit_action world storage random
      (request_with (some alice_session))
      3000
      call_outside
      update
      (some "q1")
      (returned sent_form)
      parse
      no_metrics).0
    ≡ returned (saved_answer plain "u1" stored)
unfolding get_user get_user_session to_session_non_empty_string trim non_blank infinite
    parse_content_length_header check_content_length assert_request_content_length_within_limit
    resolve_request_id is_decimal value_from create_request_id shown
load-edit_action_example =
    load-edit_action world storage random (request_with (some alice_session)) 3000 call_outside get
      (some "q1") 1 [] no_metrics shown.visit shown.admits stored shown.saved to_decimal draft page
      random (request_with (some alice_session)) sent_form "u1" update parse no_metrics stored apart
      stored-IsStored draft-IsQuestionForm
      ((load_edit_iff world storage random (request_with (some alice_session)) 3000 call_outside get
          (some "q1") (1 ∷ []) no_metrics page).1
        shown)
      (record { cookie = refl; logged_in = refl; fits = refl; token = refl }) refl
      (record {
        reply = record { question = some stored };
        replies = refl;
        found = refl;
        has_id = refl;
      })

load_new-create_action_example :
    (create_action world storage random
      (request_with (some alice_session))
      3000
      call_outside
      create
      (returned sent_form)
      parse
      no_metrics).0
    ≡ returned (saved_answer reset_form "u1" stored)
unfolding get_user get_user_session to_session_non_empty_string trim trimmed non_blank infinite
    parse_content_length_header check_content_length assert_request_content_length_within_limit
    resolve_request_id is_decimal value_from create_request_id load_new require_authenticated_user
    issue_csrf_token ensure_session_csrf_token
load_new-create_action_example =
    load_new-create_action world storage random random (request_with (some alice_session))
      (request_with (some alice_session)) 3000 call_outside create parse 1 [] kept
      (record { user_id = "alice" }) sent_form "u1" draft no_metrics stored refl refl refl refl refl
      refl draft-IsQuestionForm
      (record {
        reply = record { question = some stored };
        replies = refl;
        found = refl;
        has_id = refl;
      })
