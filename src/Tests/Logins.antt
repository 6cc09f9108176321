-- ===== src/Tests/Logins.antt =====
-- A login of alice, from the provider's answer to the session.
use history_quiz.Prelude.{String, ◌≡◌, ◌↔◌, ◌⊎◌, refl, some}
use history_quiz.Prelude.Dict.{lookup, put}
use history_quiz.Prelude.Json.{property}
use history_quiz.Prelude.Text.{trim, trimmed, split_on, non_blank, starts_with}
use history_quiz.Errors.{returned}
use history_quiz.Session.{
  SessionData, PendingOidcAuth, get_user_session, get_pending_oidc_auth,
  clear_pending_oidc_auth_on_session, create_user_session_cookie, to_session_non_empty_string,
}
use history_quiz.Auth.{sanitize_redirect_to}
use history_quiz.Oidc.Encoding.{
  replace_all, strip_end, count_chars, padding_for, to_base64, decode_base64_url_bytes,
  decode_base64_url_json,
}
use history_quiz.Oidc.Config.{normalize_issuer_url, read_required_env, resolve_oidc_config}
use history_quiz.Oidc.Cache.{
  parse_json, fresh, read_discovery, discovery_of_fetched, get_oidc_discovery, read_keys,
  keys_of_fetched, get_jwks_keys,
}
use history_quiz.Oidc.Claims.{
  is_audience_matched, check_sub, is_expired, check_claims, validate_id_token_claims,
}
use history_quiz.Oidc.Claims.Laws.{IsAccepted, validate_id_token_claims_iff}
use history_quiz.Oidc.Token.{
  read_token_fields, read_tokens, tokens_of_fetched, exchange_authorization_code,
  resolve_jwt_algorithm, find_key, choose_key, verify_with_key, verify_id_token_signature,
}
use history_quiz.Oidc.Flow.{
  verify_segments, verify_and_decode_id_token, complete_oidc_authorization,
}
use history_quiz.Oidc.Flow.Laws.{IsLogin, complete_oidc_authorization-IsLogin}
use history_quiz.Login.Callback.{Answer, redirected, check_code, check_state, finish_login, loader}
use history_quiz.Login.Callback.Laws.{IsEstablished, IsRefused, loader-cases}
use history_quiz.Tests.World.{
  world, outside, storage, request_with, pending_session, alice_session, url, claims_json,
  no_caches,
}

unfoldable pub login_code : Unit {0}
unfolding lookup put property trim trimmed split_on non_blank replace_all strip_end count_chars
    padding_for to_base64 decode_base64_url_bytes decode_base64_url_json normalize_issuer_url
    read_required_env resolve_oidc_config parse_json fresh read_discovery discovery_of_fetched
    get_oidc_discovery read_keys keys_of_fetched get_jwks_keys is_audience_matched check_sub
    is_expired check_claims validate_id_token_claims read_token_fields read_tokens tokens_of_fetched
    exchange_authorization_code resolve_jwt_algorithm find_key choose_key verify_with_key
    verify_id_token_signature verify_segments verify_and_decode_id_token complete_oidc_authorization
login_code = tt

validate_id_token_claims_iff_example :
    (validate_id_token_claims 7 claims_json "quiz" "https://id" "nn" ≡ returned tt)
    ↔ ((subject : String) × IsAccepted 7 claims_json "quiz" "https://id" "nn" subject)
validate_id_token_claims_iff_example =
    validate_id_token_claims_iff 7 claims_json "quiz" "https://id" "nn"

abbrev pending : PendingOidcAuth
pending = record { code_verifier = "cv"; nonce = "nn"; redirect_to = "/quiz"; state = "st" }

complete_oidc_authorization-IsLogin_example :
    IsLogin world outside "c1" pending url no_caches "alice"
unfolding login_code
complete_oidc_authorization-IsLogin_example =
    complete_oidc_authorization-IsLogin world outside "c1" pending url no_caches
      (complete_oidc_authorization world outside "c1" pending url no_caches).1 "alice" refl

loader_code : Unit {0}
unfolding login_code loader check_code check_state finish_login get_user_session
    get_pending_oidc_auth clear_pending_oidc_auth_on_session create_user_session_cookie
    to_session_non_empty_string sanitize_redirect_to starts_with
loader_code = tt

abbrev answer : Answer SessionData
answer = redirected "/quiz" alice_session

loader-cases_example :
    IsEstablished world outside storage
      (request_with (some pending_session))
      (request_with (some alice_session))
      no_caches
      answer
    ⊎ IsRefused world outside storage
        (request_with (some pending_session))
        (request_with (some alice_session))
        no_caches
        answer
unfolding loader_code
loader-cases_example =
    loader-cases world outside storage (request_with (some pending_session))
      (request_with (some alice_session)) no_caches answer refl refl
