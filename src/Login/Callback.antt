-- ===== src/Login/Callback.antt =====
-- The loader of client/app/routes/auth.callback.tsx.
pub mod Laws
pub mod Redirects
pub mod Returns
use history_quiz.Prelude.{
  ℕ, String, Bool, true, false, not, ◌||◌, Option, none, some, List, [], ◌∷◌, ◌==◌, if◌then◌else◌,
}
use history_quiz.Prelude.Text.{is_empty}
use history_quiz.Runtime.{Runtime}
use history_quiz.Errors.{Result, returned, thrown, Thrown, oidc_flow_error, ◌>>=◌, catch}
use history_quiz.Web.{Request}
use history_quiz.Session.{
  CookieStorage, PendingOidcAuth, get_pending_oidc_auth, clear_pending_oidc_auth_cookie,
  create_user_session_cookie,
}
use history_quiz.Auth.{sanitize_redirect_to, build_login_url}
use history_quiz.Oidc.Cache.{Caches}
use history_quiz.Oidc.Flow.{Outside, complete_oidc_authorization}

-- The loader's data.
pub record LoaderData : Type 0 where
  pub message : String
  pub retry_url : String

-- An answer of the loader: an error page or a redirect, with the cookie that it sets.
pub data Answer (C : Type 0) : Type 0 where
  error_page : (status : ℕ) → LoaderData → (set_cookie : C) → Answer C
  redirected : (location : String) → (set_cookie : C) → Answer C

abbrev pub redirect_of : Option PendingOidcAuth → Option String
redirect_of none = none
redirect_of (some p) = some p.redirect_to

-- A parameter that is there and not empty.
abbrev pub is_present : Option String → Bool
is_present none = false
is_present (some s) = not (is_empty s)

abbrev pub same_text : Option String → String → Bool
same_text none t = false
same_text (some s) t = s == t

module _ (r : Runtime) (out : Outside) {C : Type 0} (storage : CookieStorage C)
    (request : Request C) where
  -- createErrorResponse
  unfoldable pub create_error_response :
      (message retry_redirect_to : String) (status : ℕ) → Result (Answer C)
  create_error_response message retry_redirect_to status =
      clear_pending_oidc_auth_cookie storage request >>= λ set_cookie. returned (
        error_page status
          (record { message = message; retry_url = build_login_url r (some retry_redirect_to) })
          set_cookie)

  -- The catch clause of the loader.
  unfoldable pub failed_login : (retry_redirect_to : String) → Thrown → Result (Answer C)
  failed_login retry (oidc_flow_error message status) = create_error_response message retry status
  failed_login retry _ = create_error_response "ログイン処理中に予期しないエラーが発生しました。時間をおいて再試行してください。" retry 500

  -- The try statement's answer, once the flow is complete.
  unfoldable pub finish_login : (retry_redirect_to : String) → Result String → Result (Answer C)
  finish_login retry subject =
      catch
        (subject >>= λ sub. create_user_session_cookie storage request sub >>= λ set_cookie.
          returned (redirected retry set_cookie))
        (failed_login retry)

  -- From the test of the pending login on.
  unfoldable pub check_state :
      (retry code : String) (state : Option String)
      → Option PendingOidcAuth
      → Caches
      → Result (Answer C) × Caches
  check_state retry code state none caches =
      (create_error_response "ログインセッションが期限切れです。再度ログインしてください。" retry 401, caches)
  check_state retry code state (some pending) caches =
      if not (same_text state pending.state)
      then (create_error_response "state の検証に失敗しました。CSRF 対策のため処理を中断しました。" retry 401, caches)
      else (let (subject, caches') =
            complete_oidc_authorization r out code pending request.url caches in
          (finish_login retry subject, caches'))

  -- From the test of the code and the state on.
  unfoldable pub check_code :
      (retry : String) (code state : Option String)
      → Option PendingOidcAuth
      → Caches
      → Result (Answer C) × Caches
  check_code retry none state pending caches =
      (create_error_response "認証レスポンスが不正です。再度ログインしてください。" retry 400, caches)
  check_code retry (some code) state pending caches =
      if is_empty code || not (is_present state)
      then (create_error_response "認証レスポンスが不正です。再度ログインしてください。" retry 400, caches)
      else check_state retry code state pending caches

  -- loader
  unfoldable pub loader : Caches → Result (Answer C) × Caches
  loader caches =
      let pending = get_pending_oidc_auth storage request in
      let retry = sanitize_redirect_to (redirect_of pending) "/me" in
      if is_present (request.url.search_param "error")
      then (create_error_response "ログインがキャンセルされたか、認証サーバーでエラーが発生しました。再度お試しください。" retry 401, caches)
      else check_code retry (request.url.search_param "code") (request.url.search_param "state")
          pending caches
