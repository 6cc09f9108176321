-- ===== src/Login/Start.antt =====
-- The loader and the action of client/app/routes/login.tsx.
pub mod Laws
use Prim.Native.String
use history_quiz.Prelude.{ℕ, String, Bool, Option, none, some, List, [], ◌==◌, if◌then◌else◌, false}
use history_quiz.Prelude.Text.{is_empty}
use history_quiz.Runtime.{Runtime}
use history_quiz.Errors.{Result, returned, thrown, Thrown, oidc_flow_error, ◌>>=◌, catch}
use history_quiz.Web.{Request, FormValue, text}
use history_quiz.RequestId.{Random}
use history_quiz.Session.{
  CookieStorage, SessionUser, IssuedCsrfToken, get_user, create_pending_oidc_auth_cookie,
  destroy_user_session_cookie,
}
use history_quiz.Csrf.{issue_csrf_token, verify_csrf_token}
use history_quiz.Auth.{sanitize_redirect_to, resolve_post_login_redirect}
use history_quiz.Oidc.Cache.{Caches}
use history_quiz.Oidc.Flow.{Outside, OidcStart, begin_oidc_authorization}

-- An answer of the loader: a redirect, the page of a user with a token, or an error page.
pub data StartAnswer (C : Type 0) : Type 0 where
  started : (location : String) → (set_cookie : C) → StartAnswer C
  elsewhere : (location : String) → StartAnswer C
  logged_in : (csrf_token user_id : String) → (set_cookie : Option C) → StartAnswer C
  failure_page : (message : String) → (status : ℕ) → StartAnswer C

-- An answer of the action.
pub data LogoutAnswer (C : Type 0) : Type 0 where
  logged_out : (location request_id : String) → (set_cookie : C) → LogoutAnswer C
  bad_intent : (message request_id : String) → (status : ℕ) → LogoutAnswer C

abbrev pub is_logout : Option FormValue → Bool
is_logout (some (text s)) = s == "logout"
is_logout _ = false

module _ (r : Runtime) (out : Outside) {C : Type 0} (storage : CookieStorage C)
    (request : Request C) where
  -- The catch clause of the loader.
  unfoldable pub failed_start : Thrown → Result (StartAnswer C)
  failed_start (oidc_flow_error message status) = returned (failure_page message status)
  failed_start _ = returned (failure_page "ログインを開始できませんでした。設定を確認してから再試行してください。" 500)

  -- The try statement, once the flow has begun.
  unfoldable pub finish_start : Result OidcStart → Result (StartAnswer C)
  finish_start begun =
      catch
        (begun >>= λ start.
          create_pending_oidc_auth_cookie storage start.pending_auth request >>= λ set_cookie.
          returned (started start.authorization_url set_cookie))
        failed_start

  -- The answer to a user who is logged in.
  unfoldable pub answer_user : (random_bytes : List ℕ) → SessionUser → Result (StartAnswer C)
  answer_user random_bytes user = issue_csrf_token storage random_bytes request >>= λ issued.
      let requested = sanitize_redirect_to (request.url.search_param "redirectTo") "" in
      if is_empty requested
      then returned (logged_in issued.csrf_token user.user_id issued.set_cookie)
      else returned (elsewhere requested)

  -- From the test of the user on.
  unfoldable pub start_for :
      (random_bytes : List ℕ) → Option SessionUser → Caches → Result (StartAnswer C) × Caches
  start_for random_bytes (some user) caches = (answer_user random_bytes user, caches)
  start_for random_bytes none caches =
      let (begun, caches') =
        begin_oidc_authorization r out (resolve_post_login_redirect request.url "/me") request.url
          caches in
      (finish_start begun, caches')

  -- loader; `random_bytes` are the bytes that a new token is made of.
  unfoldable pub start_login : (random_bytes : List ℕ) → Caches → Result (StartAnswer C) × Caches
  start_login random_bytes caches = start_for random_bytes (get_user storage request) caches

  -- From the test of the intent on.
  unfoldable pub logout_for :
      (intent : Option FormValue) (request_id : String) → Result (LogoutAnswer C)
  logout_for intent request_id =
      if is_logout intent
      then (destroy_user_session_cookie storage request >>= λ set_cookie.
          returned (logged_out "/" request_id set_cookie))
      else returned (bad_intent "不正なリクエストです。" request_id 400)

  -- action; `form_data` is what request.formData() gives.
  unfoldable pub logout :
      Random → (form_data : Result (String → Option FormValue)) → Result (LogoutAnswer C)
  logout random form_data = form_data >>= λ form.
      verify_csrf_token storage random form request none >>= λ request_id.
      logout_for (form "intent") request_id
