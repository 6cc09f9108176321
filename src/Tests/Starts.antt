-- ===== src/Tests/Starts.antt =====
-- Beginning a login, logging out, the caches, and the answers that are due.
use history_quiz.Prelude.{
  String, ◌≡◌, ◌↔◌, ◌==◌, refl, inl, true, false, Option, none, some, List, [], ◌∷◌, if◌then◌else◌,
}
use history_quiz.Prelude.Json.{Json, obj, field, str, end}
use history_quiz.Prelude.Text.{trim, trimmed, non_blank}
use history_quiz.Errors.{Result, returned}
use history_quiz.Web.{FormValue, text}
use history_quiz.Session.{
  SessionData, empty_session, PendingOidcAuth, get_user_session, get_user, get_pending_oidc_auth,
  get_session_csrf_token, clear_pending_oidc_auth_on_session, create_user_session_cookie,
  create_pending_oidc_auth_cookie, destroy_user_session_cookie, to_session_non_empty_string,
}
use history_quiz.Csrf.{
  to_optional_trimmed_token, safe_token_equals, tokens_match, verify_csrf_token,
  csrf_token_field_name,
}
use history_quiz.Csrf.Laws.{Agree}
use history_quiz.Auth.{sanitize_redirect_to, resolve_post_login_redirect}
use history_quiz.RequestId.{create_request_id}
use history_quiz.RequestSize.{
  infinite, parse_content_length_header, check_content_length,
  assert_request_content_length_within_limit, resolve_request_id,
}
use history_quiz.Prelude.Decimal.{is_decimal, value_from}
use history_quiz.Oidc.Encoding.{
  encode_base64_url, generate_random_url_safe_string, create_pkce_code_challenge,
}
use history_quiz.Oidc.Cache.{OidcDiscoveryDocument, Fetched, rejected}
use history_quiz.Oidc.Flow.{begin_oidc_authorization}
use history_quiz.Login.Callback.{redirected, loader}
use history_quiz.Login.Callback.Returns.{Returns, loader-Returns}
use history_quiz.Login.Callback.Redirects.{IsRedirect, loader_redirected_iff}
use history_quiz.Login.Start.{is_logout, finish_start, start_for, start_login, logout_for, logout}
use history_quiz.Login.Start.Laws.{IsStarted, start_login-IsStarted, logout-checked}
use history_quiz.Observability.Laws.{no_metrics}
use history_quiz.GrpcClient.{CallOutside, UnaryMethod, replied}
use history_quiz.Quiz.{
  SubmitAnswer, SubmitAnswerResponse, Submission, success, QuizResult, graded, action,
}
use history_quiz.Quiz.Returns.{IsGrade, action_iff}
use history_quiz.Tests.Logins.{login_code}
use history_quiz.Tests.World.{
  world, outside, storage, random, request_with, pending_session, alice_session, field_of_form,
  no_caches,
}

loader-Returns_example :
    Returns (loader world outside storage (request_with (some pending_session)) no_caches).0
loader-Returns_example =
    loader-Returns world outside storage (request_with (some pending_session)) (λ s. (s, refl))
      no_caches

abbrev pending : PendingOidcAuth
pending = record { code_verifier = "cv"; nonce = "nn"; redirect_to = "/quiz"; state = "st" }

loader_redirected_iff_example :
    ((loader world outside storage (request_with (some pending_session)) no_caches).0
      ≡ returned (redirected "/quiz" alice_session))
    ↔ IsRedirect world outside storage
        (request_with (some pending_session))
        no_caches
        "/quiz"
        alice_session
loader_redirected_iff_example =
    loader_redirected_iff world outside storage (request_with (some pending_session)) no_caches
      "/quiz" alice_session

-- The redirect is due: both sides of the equivalence hold.
pending-IsRedirect :
    IsRedirect world outside storage
      (request_with (some pending_session))
      no_caches
      "/quiz"
      alice_session
unfolding login_code get_user_session get_pending_oidc_auth clear_pending_oidc_auth_on_session
    create_user_session_cookie to_session_non_empty_string sanitize_redirect_to
pending-IsRedirect = record {
  pending = pending;
  code = "c1";
  subject = "alice";
  was_pending = refl;
  no_error = inl refl;
  code_given = refl;
  some_code = λ h. cc;
  state_given = refl;
  some_state = λ h. cc;
  completes = refl;
  saved = refl;
  leads = refl;
}

-- The session of a login that has begun.
abbrev begun_session : SessionData
begun_session = record empty_session {
  oidc_code_verifier = some "ab-_";
  oidc_nonce = some "ab-_";
  oidc_redirect_to = some "/me";
  oidc_state = some "ab-_";
}

start_login-IsStarted_example :
    IsStarted world outside storage
      (request_with none)
      (request_with (some begun_session))
      no_caches
      "https://id/auth"
unfolding login_code start_login start_for finish_start begin_oidc_authorization get_user
    get_user_session to_session_non_empty_string create_pending_oidc_auth_cookie encode_base64_url
    generate_random_url_safe_string create_pkce_code_challenge resolve_post_login_redirect
    sanitize_redirect_to
start_login-IsStarted_example =
    start_login-IsStarted world outside storage (request_with none)
      (request_with (some begun_session)) [] no_caches "https://id/auth" begun_session refl refl

abbrev logout_form : String → Option FormValue
logout_form k = if k == "intent" then some (text "logout") else some (text "tok")

logout-checked_example :
    (form : String → Option FormValue) × (◌≡◌ {A = Result (String → Option FormValue)}
      (returned logout_form)
      (returned form))
    × Agree
        (get_session_csrf_token storage (request_with (some alice_session)))
        (to_optional_trimmed_token (form csrf_token_field_name))
    × (is_logout (form "intent") ≡ true)
    × (destroy_user_session_cookie storage (request_with (some alice_session))
        ≡ returned empty_session)
unfolding logout logout_for destroy_user_session_cookie get_user_session to_session_non_empty_string
    get_session_csrf_token to_optional_trimmed_token safe_token_equals tokens_match
    verify_csrf_token trim trimmed
logout-checked_example =
    logout-checked world outside storage (request_with (some alice_session))
      (request_with (some empty_session)) random (returned logout_form) "/" "u1" empty_session refl

abbrev document : OidcDiscoveryDocument
document = record {
  authorization_endpoint = "https://id/auth";
  issuer = "https://id";
  jwks_uri = "https://id/jwks";
  token_endpoint = "https://id/token";
}

abbrev offline : String → Fetched
offline _ = rejected

abbrev keys : List Json
keys = obj (field "kid" (str "k1") end) ∷ []

abbrev call_outside : CallOutside
call_outside = record { node_env = none; deadline_from = 10; started_at = 11; ended_at = 15 }

abbrev reply : SubmitAnswerResponse
reply = record { attempt_id = "a1"; correct_choice_id = "c2"; is_correct = false }

abbrev grade : UnaryMethod SubmitAnswer SubmitAnswerResponse
grade _ _ _ = replied reply

abbrev parse : (String → Option FormValue) → Submission
parse _ = success "q1" "c1"

-- The result of the user's choice.
abbrev graded_choice : QuizResult
graded_choice = record {
  attempt_id = "a1";
  correct_choice_id = "c2";
  is_correct = false;
  question_id = "q1";
  selected_choice_id = "c1";
}

action_iff_example :
    ((action world storage random 3000 call_outside grade
        (request_with (some alice_session))
        (returned field_of_form)
        parse
        no_metrics).0
      ≡ returned (record {
        body = graded "u1" graded_choice;
        headers = ("x-request-id", "u1") ∷ [];
        status = 200;
      }))
    ↔ IsGrade world storage random 3000 call_outside grade
        (request_with (some alice_session))
        (returned field_of_form)
        parse
        no_metrics
        "u1"
        graded_choice
action_iff_example =
    action_iff world storage random 3000 call_outside grade (request_with (some alice_session))
      (returned field_of_form) parse no_metrics "u1" graded_choice

-- The choice is graded: both sides of the equivalence hold.
choice-IsGrade :
    IsGrade world storage random 3000 call_outside grade
      (request_with (some alice_session))
      (returned field_of_form)
      parse
      no_metrics
      "u1"
      graded_choice
unfolding get_session_csrf_token get_user_session to_session_non_empty_string
    to_optional_trimmed_token trim trimmed non_blank infinite parse_content_length_header
    check_content_length assert_request_content_length_within_limit resolve_request_id is_decimal
    value_from create_request_id
choice-IsGrade = record {
  form = field_of_form;
  read = refl;
  fits = refl;
  token = ("tok", refl, refl);
  parsed = refl;
  reply = reply;
  replies = refl;
  attempt = refl;
  correct_choice = refl;
  verdict = refl;
}
