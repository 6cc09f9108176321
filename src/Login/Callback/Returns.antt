-- ===== src/Login/Callback/Returns.antt =====
-- That a login callback gets an answer.
use history_quiz.Prelude.{ℕ, String, ◌≡◌, refl, not, ◌||◌, Option, none, some, Bool-cases, inl, inr}
use history_quiz.Prelude.Text.{is_empty}
use history_quiz.Runtime.{Runtime}
use history_quiz.Errors.{Result, returned, thrown, Thrown, oidc_flow_error, catch}
use history_quiz.Web.{Request}
use history_quiz.Session.{
  SessionData, CookieStorage, PendingOidcAuth, get_user_session, clear_pending_oidc_auth_on_session,
  clear_pending_oidc_auth_cookie,
}
use history_quiz.Auth.{build_login_url}
use history_quiz.Oidc.Cache.{Caches}
use history_quiz.Oidc.Flow.{Outside}
use history_quiz.Login.Callback.{
  Answer, error_page, is_present, same_text, create_error_response, failed_login, finish_login,
  check_state, check_code, loader,
}

-- A storage that never throws at a commit: no session is too long for a cookie.
abbrev pub Commits : {C : Type 0} → CookieStorage C → Type 0
Commits {C} storage = (s : SessionData) → (c : C) × (storage.commit_session s ≡ returned c)

abbrev pub Returns : {A : Type 0} → Result A → Type 0
Returns {A} m = (a : A) × (m ≡ returned a)

module _ (r : Runtime) (out : Outside) {C : Type 0} (storage : CookieStorage C)
    (request : Request C) (commits : Commits storage) where
  create_error_response-Returns :
      (message retry : String) (status : ℕ)
      → Returns (create_error_response r out storage request message retry status)
  unfolding create_error_response clear_pending_oidc_auth_cookie
  create_error_response-Returns message retry status =
      let (c, e) =
        commits (clear_pending_oidc_auth_on_session (get_user_session storage request)) in
      (
        error_page status (record { message = message; retry_url = build_login_url r (some retry) })
            c,
        rw e refl,
      )

  failed_login-Returns :
      (retry : String) (e : Thrown) → Returns (failed_login r out storage request retry e)
  unfolding failed_login
  failed_login-Returns retry (oidc_flow_error m s) = create_error_response-Returns m retry s
  failed_login-Returns retry _ = create_error_response-Returns _ retry 500

  catch-Returns :
      (retry : String) (m : Result (Answer C))
      → Returns (catch m (failed_login r out storage request retry))
  catch-Returns retry (returned a) = (a, refl)
  catch-Returns retry (thrown e) = failed_login-Returns retry e

  check_state-Returns :
      (retry code : String) (state : Option String) (o : Option PendingOidcAuth) (caches : Caches)
      → Returns (check_state r out storage request retry code state o caches).0
  unfolding check_state finish_login
  check_state-Returns retry code state none caches = create_error_response-Returns _ retry 401
  check_state-Returns retry code state (some pending) caches =
      elim (Bool-cases (same_text state pending.state)) [
        | inl e ↦ rw e (catch-Returns retry _)
        | inr e ↦ rw e (create_error_response-Returns _ retry 401)
      ]

  check_code-Returns :
      (retry : String) (code state : Option String) (o : Option PendingOidcAuth) (caches : Caches)
      → Returns (check_code r out storage request retry code state o caches).0
  unfolding check_code
  check_code-Returns retry none state o caches = create_error_response-Returns _ retry 400
  check_code-Returns retry (some code) state o caches =
      elim (Bool-cases (is_empty code || not (is_present state))) [
        | inl e ↦ rw e (create_error_response-Returns _ retry 400)
        | inr e ↦ rw e (check_state-Returns retry code state o caches)
      ]

  -- If the storage never throws at a commit, the callback's loader answers every request, whatever
  -- the provider, the network and the request's parameters do.
  pub loader-Returns : (caches : Caches) → Returns (loader r out storage request caches).0
  unfolding loader
  loader-Returns caches = elim (Bool-cases (is_present (request.url.search_param "error"))) [
    | inl e ↦ rw e (create_error_response-Returns _ _ 401)
    | inr e ↦ rw e (check_code-Returns _ (request.url.search_param "code") _ _ caches)
  ]
