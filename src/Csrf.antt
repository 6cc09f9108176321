-- ===== src/Csrf.antt =====
-- CSRF tokens of state-changing forms: client/app/services/csrf.server.ts.
pub mod Laws
use Prim.Native.String.{len}
use history_quiz.Prelude.{
  ℕ, String, Bool, true, false, not, ◌||◌, Option, none, some, List, [], ◌∷◌, ◌==◌, nat_eq,
  if◌then◌else◌,
}
use history_quiz.Prelude.Text.{is_empty, trimmed}
use history_quiz.Errors.{HttpErrorPayload, Response, Result, returned, thrown, error_response}
use history_quiz.Web.{Request, FormValue, text, file}
use history_quiz.RequestId.{Random, create_request_id}
use history_quiz.Session.{
  CookieStorage, IssuedCsrfToken, ensure_session_csrf_token, get_session_csrf_token,
}

abbrev pub csrf_token_field_name : String
csrf_token_field_name = "csrfToken"

abbrev pub csrf_error_message : String
csrf_error_message = "セキュリティ検証に失敗しました。ページを再読み込みして再試行してください。"

-- toOptionalTrimmedToken
unfoldable pub to_optional_trimmed_token : Option FormValue → Option String
unfolding trimmed
to_optional_trimmed_token (some (text value)) = trimmed value
to_optional_trimmed_token (some file) = none
to_optional_trimmed_token none = none

-- safeTokenEquals: `len` counts the bytes of UTF-8, and texts are equal when their bytes are.
unfoldable pub safe_token_equals : String → String → Bool
safe_token_equals left right = if not (nat_eq (len left) (len right)) then false else left == right

-- !sessionToken || !postedToken || !safeTokenEquals(sessionToken, postedToken), negated.
unfoldable pub tokens_match : Option String → Option String → Bool
unfolding safe_token_equals
tokens_match (some session_token) (some posted_token) = not (
    is_empty session_token
    || is_empty posted_token
    || not (safe_token_equals session_token posted_token))
tokens_match _ _ = false

-- The response that verifyCsrfToken throws.
abbrev pub csrf_error_response : String → Response HttpErrorPayload
csrf_error_response request_id = record {
  body = record {
    code = "FORBIDDEN";
    field_violations = none;
    message = csrf_error_message;
    request_id = some request_id;
  };
  headers = ("x-request-id", request_id) ∷ [];
  status = 403;
}

-- params.requestId ?? createRequestId()
abbrev pub answered_id : Random → Option String → String
answered_id random none = create_request_id random
answered_id random (some id) = id

module _ {C : Type 0} (storage : CookieStorage C) where
  -- issueCsrfToken
  unfoldable pub issue_csrf_token : List ℕ → Request C → Result (IssuedCsrfToken C)
  issue_csrf_token random_bytes request = ensure_session_csrf_token storage random_bytes request

  -- verifyCsrfToken, which returns the request id; `form` is formData.get.
  unfoldable pub verify_csrf_token :
      Random → (form : String → Option FormValue) → Request C → Option String → Result String
  unfolding create_request_id
  verify_csrf_token random form request given =
      let request_id = answered_id random given in
      let session_token = get_session_csrf_token storage request in
      let posted_token = to_optional_trimmed_token (form csrf_token_field_name) in
      if tokens_match session_token posted_token
      then returned request_id
      else thrown (error_response (csrf_error_response request_id))
