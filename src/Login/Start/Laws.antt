-- ===== src/Login/Start/Laws.antt =====
-- What a login that begins has stored, and who is logged out.
use history_quiz.Prelude.{
  ℕ, String, ◌≡◌, refl, ap, subst, ◌∙◌, true, Option, none, some, List, Bool-cases, inl, inr,
}
use history_quiz.Prelude.Text.{is_empty}
use history_quiz.Runtime.{Runtime}
use history_quiz.Errors.{bind_inv, Result, returned, thrown, Thrown, oidc_flow_error, ◌>>=◌, catch}
use history_quiz.Web.{Request, FormValue}
use history_quiz.RequestId.{Random}
use history_quiz.Session.{
  CookieStorage, SessionUser, PendingOidcAuth, get_user, get_pending_oidc_auth,
  get_session_csrf_token, create_pending_oidc_auth_cookie, destroy_user_session_cookie,
}
use history_quiz.Session.Laws.{stored, create_pending_oidc_auth_cookie-stored}
use history_quiz.Csrf.{
  issue_csrf_token, verify_csrf_token, to_optional_trimmed_token, csrf_token_field_name,
}
use history_quiz.Csrf.Laws.{Agree, verify_csrf_token-cases}
use history_quiz.Auth.{sanitize_redirect_to, resolve_post_login_redirect}
use history_quiz.Oidc.Cache.{Caches}
use history_quiz.Oidc.Flow.Authorization.{IsAuthorization, begin-IsAuthorization}
use history_quiz.Oidc.Flow.{Outside, OidcStart, begin_oidc_authorization}
use history_quiz.Login.Start.{
  started, failed_start, finish_start, answer_user, start_for, start_login, logged_out, is_logout,
  logout_for, logout,
}

module _ (r : Runtime) (out : Outside) where
  module _ {C : Type 0} (storage : CookieStorage C) (request next : Request C) where
    -- A login has begun: the next request has the pending login of the authorization request, and
    -- with it the page to return to.
    pub record IsStarted (caches : Caches) (location : String) : Type 0 where
      pub no_user : get_user storage request ≡ none
      pub pending : PendingOidcAuth
      pub authorization : IsAuthorization r out request.url caches location pending
      pub return_to : pending.redirect_to ≡ resolve_post_login_redirect request.url "/me"
      pub saved : get_pending_oidc_auth storage next ≡ stored pending

    failed_start_other :
        (e : Thrown) (location : String) (c : C)
        → failed_start r out storage request e ≡ returned (started location c)
        → ⊥
    unfolding failed_start
    failed_start_other (oidc_flow_error m s) location c h = cc
    failed_start_other _ location c h = cc

    answer_user_other :
        (bytes : List ℕ) (user : SessionUser) (location : String) (c : C)
        → answer_user r out storage request bytes user ≡ returned (started location c)
        → ⊥
    unfolding answer_user
    answer_user_other bytes user location c h =
        let (issued, e, k) =
          bind_inv (issue_csrf_token storage bytes request) _ (started location c) h in
        elim (Bool-cases
          (is_empty (sanitize_redirect_to (request.url.search_param "redirectTo") ""))) [
            | inl t ↦ (let clash = rw t at k in absurd (cc))
            | inr t ↦ (let clash = rw t at k in absurd (cc))
          ]

    saved_inv :
        (m : Result C) (url location : String) (c : C)
        → catch (m >>= λ d. returned (started url d)) (failed_start r out storage request)
          ≡ returned (started location c)
        → (m ≡ returned c) × (url ≡ location)
    saved_inv (thrown e) url location c h = absurd (failed_start_other e location c h)
    saved_inv (returned d) url location c h = (cc, cc)

    logged_inj :
        {l l' i i' : String} {c d : C}
        → returned (logged_out l i d) ≡ returned (logged_out l' i' c)
        → returned d ≡ returned c
    logged_inj h = cc

    finish_start_inv :
        (begun : Result OidcStart) (location : String) (c : C)
        → finish_start r out storage request begun ≡ returned (started location c)
        → (start : OidcStart) × (begun ≡ returned start)
          × (create_pending_oidc_auth_cookie storage start.pending_auth request ≡ returned c)
          × (start.authorization_url ≡ location)
    unfolding finish_start
    finish_start_inv (thrown e) location c h = absurd (failed_start_other e location c h)
    finish_start_inv (returned start) location c h =
        let (saved, same) =
          saved_inv (create_pending_oidc_auth_cookie storage start.pending_auth request)
            start.authorization_url location c h in
        (start, refl, saved, same)

    start_for-IsStarted :
        (bytes : List ℕ) (o : Option SessionUser) (caches : Caches) (location : String) (c : C)
        → get_user storage request ≡ o
        → (start_for r out storage request bytes o caches).0 ≡ returned (started location c)
        → next.cookie ≡ some c
        → IsStarted caches location
    unfolding start_for
    start_for-IsStarted bytes (some user) caches location c n h k =
        absurd (answer_user_other bytes user location c h)
    start_for-IsStarted bytes none caches location c n h k =
        let return_to = resolve_post_login_redirect request.url "/me" in
        let begun = begin_oidc_authorization r out return_to request.url caches in
        let (start, began, committed, same) = finish_start_inv begun.0 location c h in
        let (authorization, returns) =
          begin-IsAuthorization r out return_to request.url caches start begun.1
            (ap {B = Result OidcStart × Caches} (λ m. (m, begun.1)) began) in
        let (saved, _, _) =
          create_pending_oidc_auth_cookie-stored storage request next start.pending_auth c committed
            k in
        record {
          no_user = n;
          pending = start.pending_auth;
          authorization =
              subst (λ l. IsAuthorization r out request.url caches l start.pending_auth) same
                authorization;
          return_to = returns;
          saved = saved;
        }

    -- If the login route redirects to the provider, then no user was logged in, the location is an
    -- authorization request of the endpoint that the provider's discovery document names, with the
    -- state, the nonce and the challenge of one pending login, and the next request has just this
    -- pending login, with the page to return to.
    pub start_login-IsStarted :
        (bytes : List ℕ) (caches : Caches) (location : String) (c : C)
        → (start_login r out storage request bytes caches).0 ≡ returned (started location c)
        → next.cookie ≡ some c
        → IsStarted caches location
    unfolding start_login
    start_login-IsStarted bytes caches location c h k =
        start_for-IsStarted bytes (get_user storage request) caches location c refl h k

    -- A user is logged out only by a form with the session's token and the intent to log out.
    pub logout-checked :
        (random : Random) (form_data : Result (String → Option FormValue)) (location id : String)
        (c : C)
        → logout r out storage request random form_data ≡ returned (logged_out location id c)
        → (form : String → Option FormValue) × (form_data ≡ returned form)
          × Agree
              (get_session_csrf_token storage request)
              (to_optional_trimmed_token (form csrf_token_field_name))
          × (is_logout (form "intent") ≡ true)
          × (destroy_user_session_cookie storage request ≡ returned c)
    unfolding logout logout_for
    logout-checked random form_data location id c h =
        let (form, read, h1) = bind_inv form_data _ (logged_out location id c) h in
        let (id', verified, h2) =
          bind_inv (verify_csrf_token storage random form request none) _ (logged_out location id c)
            h1 in
        elim (verify_csrf_token-cases storage random form request none) [
          | inr (_, refusal) ↦ absurd (cc)
          | inl (agree, _) ↦ elim (Bool-cases (is_logout (form "intent"))) [
            | inr e ↦ (let clash = rw e at h2 in absurd (cc))
            | inl e ↦
                let (d, destroyed, same) =
                  bind_inv (destroy_user_session_cookie storage request) _
                    (logged_out location id c) (rw e at h2) in
                (form, read, agree, e, destroyed ∙ logged_inj same)
          ]
        ]
