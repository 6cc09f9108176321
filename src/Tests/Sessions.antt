-- ===== src/Tests/Sessions.antt =====
-- Sessions, CSRF tokens, redirects and body sizes.
use history_quiz.Prelude.{String, ◌≡◌, ◌⊎◌, refl, Option, none, some}
use history_quiz.Prelude.Text.{trim, trimmed}
use history_quiz.Errors.{returned, thrown, error_response}
use history_quiz.Web.{FormValue, text}
use history_quiz.Session.{
  SessionData, empty_session, PendingOidcAuth, IssuedCsrfToken, get_user_session, get_user,
  get_pending_oidc_auth, get_session_csrf_token, ensure_session_csrf_token,
  create_pending_oidc_auth_cookie, clear_pending_oidc_auth_cookie, create_user_session_cookie,
  clear_pending_oidc_auth_on_session, to_session_non_empty_string, generate_csrf_token,
}
use history_quiz.Session.Laws.{create_user_session_cookie-login}
use history_quiz.Session.Tokens.{to_hex}
use history_quiz.Csrf.{
  verify_csrf_token, csrf_token_field_name, csrf_error_response, answered_id,
  to_optional_trimmed_token, issue_csrf_token,
}
use history_quiz.Csrf.Laws.{Agree, verify_csrf_token-cases}
use history_quiz.Tests.World.{
  storage, random, request_with, pending_session, alice_session, field_of_form,
}

session_code : Unit {0}
unfolding get_user_session get_user get_pending_oidc_auth get_session_csrf_token
    ensure_session_csrf_token create_pending_oidc_auth_cookie clear_pending_oidc_auth_cookie
    create_user_session_cookie clear_pending_oidc_auth_on_session to_session_non_empty_string
    generate_csrf_token to_hex trimmed trim issue_csrf_token
session_code = tt

-- The callback's request logs alice in.
create_user_session_cookie-login_example :
    (get_user storage (request_with (some alice_session))
      ≡ some (record { user_id = trim "alice " }))
    × (get_session_csrf_token storage (request_with (some alice_session))
        ≡ get_session_csrf_token storage (request_with (some pending_session)))
    × (get_pending_oidc_auth storage (request_with (some alice_session)) ≡ none)
unfolding session_code
create_user_session_cookie-login_example =
    create_user_session_cookie-login storage (request_with (some pending_session))
      (request_with (some alice_session)) "alice " alice_session refl refl

abbrev pending_login : PendingOidcAuth
pending_login = record { code_verifier = "cv"; nonce = "nn"; redirect_to = "/quiz"; state = "st" }

abbrev token_session : SessionData
token_session = record empty_session { csrf_token = some "tok" }

-- A first visit, whose token is made of two bytes.
abbrev new_session : SessionData
new_session = record empty_session { csrf_token = some "0aff" }

abbrev new_token : IssuedCsrfToken SessionData
new_token = record { csrf_token = "0aff"; set_cookie = some new_session }

abbrev new_form : String → Option FormValue
new_form _ = some (text "0aff")

verify_csrf_token-cases_example :
    (Agree
        (get_session_csrf_token storage (request_with (some alice_session)))
        (to_optional_trimmed_token (field_of_form csrf_token_field_name))
      × (verify_csrf_token storage random field_of_form (request_with (some alice_session)) none
          ≡ returned (answered_id random none)))
    ⊎ ((¬ (
          Agree
            (get_session_csrf_token storage (request_with (some alice_session)))
            (to_optional_trimmed_token (field_of_form csrf_token_field_name))))
        × (verify_csrf_token storage random field_of_form (request_with (some alice_session)) none
            ≡ thrown (error_response (csrf_error_response (answered_id random none)))))
verify_csrf_token-cases_example =
    verify_csrf_token-cases storage random field_of_form (request_with (some alice_session)) none
