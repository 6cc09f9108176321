-- ===== src/Session.antt =====
-- The session kept in a signed cookie: client/app/services/session.server.ts.
pub mod Tokens
pub mod Laws
pub mod Secrets
use Tokens.{to_hex}
use history_quiz.Prelude.{ℕ, String, ◌≡◌, Bool, Option, none, some, List, if◌then◌else◌}
use history_quiz.Prelude.Text.{is_empty, trim, trimmed}
use history_quiz.Errors.{Result, returned, thrown, error, ◌>>=◌}
use history_quiz.Web.{Request}

pub record SessionData : Type 0 where
  pub csrf_token : Option String
  pub oidc_code_verifier : Option String
  pub oidc_nonce : Option String
  pub oidc_redirect_to : Option String
  pub oidc_state : Option String
  pub user_id : Option String

abbrev pub empty_session : SessionData
empty_session = record {
  csrf_token = none;
  oidc_code_verifier = none;
  oidc_nonce = none;
  oidc_redirect_to = none;
  oidc_state = none;
  user_id = none;
}

-- Remix' cookie session storage. `C` is the cookie's name=value pair, which a browser sends back.
-- `commit_session` throws where the cookie would be too long.
pub record CookieStorage (C : Type 0) : Type 0 where
  pub get_session : Option C → SessionData
  pub commit_session : SessionData → Result C
  pub destroy_session : SessionData → Result C
  pub get-none : get_session none ≡ empty_session
  pub get-commit :
      (s : SessionData) (c : C) → commit_session s ≡ returned c → get_session (some c) ≡ s

pub record SessionUser : Type 0 where
  pub user_id : String

pub record PendingOidcAuth : Type 0 where
  pub code_verifier : String
  pub nonce : String
  pub redirect_to : String
  pub state : String

-- clearPendingOidcAuthOnSession
unfoldable pub clear_pending_oidc_auth_on_session : SessionData → SessionData
clear_pending_oidc_auth_on_session session = record session {
  oidc_state = none;
  oidc_nonce = none;
  oidc_code_verifier = none;
  oidc_redirect_to = none;
}

-- generateCsrfToken, of the 32 random bytes.
unfoldable pub generate_csrf_token : List ℕ → String
generate_csrf_token random_bytes = to_hex random_bytes

-- toSessionNonEmptyString
unfoldable pub to_session_non_empty_string : Option String → Option String
unfolding trimmed
to_session_non_empty_string none = none
to_session_non_empty_string (some value) = trimmed value

abbrev pub user_of : Option String → Option SessionUser
user_of none = none
user_of (some id) = some (record { user_id = id })

abbrev pub pending_of :
    (state nonce code_verifier redirect_to : Option String) → Option PendingOidcAuth
pending_of (some s) (some n) (some c) (some r) =
    some (record { code_verifier = c; nonce = n; redirect_to = r; state = s })
pending_of _ _ _ _ = none

pub record IssuedCsrfToken (C : Type 0) : Type 0 where
  pub csrf_token : String
  pub set_cookie : Option C

module _ {C : Type 0} (storage : CookieStorage C) where
  -- getUserSession
  unfoldable pub get_user_session : Request C → SessionData
  get_user_session request = storage.get_session request.cookie

  -- getUser
  unfoldable pub get_user : Request C → Option SessionUser
  unfolding get_user_session to_session_non_empty_string
  get_user request = user_of (to_session_non_empty_string (get_user_session request).user_id)

  -- getPendingOidcAuth
  unfoldable pub get_pending_oidc_auth : Request C → Option PendingOidcAuth
  unfolding get_user_session to_session_non_empty_string
  get_pending_oidc_auth request =
      let session = get_user_session request in
      pending_of (to_session_non_empty_string session.oidc_state)
        (to_session_non_empty_string session.oidc_nonce)
        (to_session_non_empty_string session.oidc_code_verifier)
        (to_session_non_empty_string session.oidc_redirect_to)

  -- getSessionCsrfToken
  unfoldable pub get_session_csrf_token : Request C → Option String
  unfolding get_user_session to_session_non_empty_string
  get_session_csrf_token request = to_session_non_empty_string (get_user_session request).csrf_token

  abbrev pub issue_new : SessionData → String → Result (IssuedCsrfToken C)
  issue_new session token =
      storage.commit_session (record session { csrf_token = some token }) >>= λ c.
      returned (record { csrf_token = token; set_cookie = some c })

  abbrev pub keep_or_issue : Option String → SessionData → List ℕ → Result (IssuedCsrfToken C)
  keep_or_issue (some existing) session random_bytes =
      returned (record { csrf_token = existing; set_cookie = none })
  keep_or_issue none session random_bytes = issue_new session (generate_csrf_token random_bytes)

  -- ensureSessionCsrfToken; `random_bytes` are the bytes that a new token is made of.
  unfoldable pub ensure_session_csrf_token : List ℕ → Request C → Result (IssuedCsrfToken C)
  unfolding get_user_session to_session_non_empty_string generate_csrf_token
  ensure_session_csrf_token random_bytes request =
      let session = get_user_session request in
      keep_or_issue (to_session_non_empty_string session.csrf_token) session random_bytes

  -- requireUser
  unfoldable pub require_user : Request C → Result SessionUser
  unfolding get_user
  require_user request = elim (get_user request) [
    | some user ↦ returned user
    | none ↦ thrown (error "セッションにユーザー情報がありません。")
  ]

  -- createPendingOidcAuthCookie
  unfoldable pub create_pending_oidc_auth_cookie : PendingOidcAuth → Request C → Result C
  unfolding get_user_session
  create_pending_oidc_auth_cookie pending_auth request =
      storage.commit_session (record (get_user_session request) {
        oidc_state = some pending_auth.state;
        oidc_nonce = some pending_auth.nonce;
        oidc_code_verifier = some pending_auth.code_verifier;
        oidc_redirect_to = some pending_auth.redirect_to;
      })

  -- clearPendingOidcAuthCookie
  unfoldable pub clear_pending_oidc_auth_cookie : Request C → Result C
  unfolding get_user_session clear_pending_oidc_auth_on_session
  clear_pending_oidc_auth_cookie request =
      storage.commit_session (clear_pending_oidc_auth_on_session (get_user_session request))

  -- createUserSessionCookie
  unfoldable pub create_user_session_cookie : Request C → String → Result C
  unfolding get_user_session clear_pending_oidc_auth_on_session
  create_user_session_cookie request user_id =
      let normalized_user_id = trim user_id in
      if is_empty normalized_user_id
      then thrown (error "userId が空文字です。セッションへ保存できません。")
      else storage.commit_session
          (record (clear_pending_oidc_auth_on_session (get_user_session request)) {
            user_id = some normalized_user_id;
          })

  -- destroyUserSessionCookie
  unfoldable pub destroy_user_session_cookie : Request C → Result C
  unfolding get_user_session
  destroy_user_session_cookie request = storage.destroy_session (get_user_session request)
