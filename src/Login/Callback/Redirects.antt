-- ===== src/Login/Callback/Redirects.antt =====
-- When a login callback leads to the page that was asked for.
use history_quiz.Prelude.{
  ℕ, String, ◌≡◌, ◌≢◌, ◌⊎◌, ◌↔◌, refl, ◌∙◌, Bool, true, false, not, ◌||◌, ◌==◌, Option, none, some,
  eq_iff, Bool-cases, inl, inr,
}
use history_quiz.Prelude.Text.{is_empty}
use history_quiz.Runtime.{Runtime}
use history_quiz.Errors.{Result, returned, thrown, Thrown, oidc_flow_error, ◌>>=◌, catch}
use history_quiz.Web.{Request}
use history_quiz.Session.{
  CookieStorage, PendingOidcAuth, get_pending_oidc_auth, clear_pending_oidc_auth_cookie,
  create_user_session_cookie,
}
use history_quiz.Auth.{sanitize_redirect_to, build_login_url}
use history_quiz.Oidc.Cache.{Caches}
use history_quiz.Oidc.Flow.{Outside, complete_oidc_authorization}
use history_quiz.Login.Callback.Laws.{same_text-eq}
use history_quiz.Login.Callback.{
  LoaderData, error_page, redirected, redirect_of, is_present, same_text, create_error_response,
  failed_login, finish_login, check_state, check_code, loader,
}

-- A parameter that is missing or empty.
abbrev pub IsMissing : Option String → Type 0
IsMissing o = (o ≡ none) ⊎ (o ≡ some "")

missing : (o : Option String) → is_present o ≡ false → IsMissing o
missing none h = inl refl
missing (some String.[]) h = inr refl
missing (some (String.◌∷◌ c s)) h = absurd (cc)

not_present : (o : Option String) → IsMissing o → is_present o ≡ false
not_present o (inl e) = rw e refl
not_present o (inr e) = rw e refl

not_empty : (s : String) → s ≢ "" → is_empty s ≡ false
not_empty String.[] h = absurd (h refl)
not_empty (String.◌∷◌ c s) h = refl

is_empty-no : (s : String) → is_empty s ≡ false → s ≢ ""
is_empty-no s h e = let clash = rw e at h in absurd (cc)

neither : (a b : Bool) → (a || not b) ≡ false → (a ≡ false) × (b ≡ true)
neither true b h = absurd (cc)
neither false true h = (refl, refl)
neither false false h = absurd (cc)

module _ (r : Runtime) (out : Outside) {C : Type 0} (storage : CookieStorage C)
    (request : Request C) (caches : Caches) where
  -- A redirect to the location with the cookie is due: no error came back, the code and the state are
  -- not empty, the state is that of the session's pending login, the flow gives a subject for the
  -- code, the cookie is that of the subject's session, and the location is the pending login's page.
  pub record IsRedirect (location : String) (cookie : C) : Type 0 where
    pub pending : PendingOidcAuth
    pub code : String
    pub subject : String
    pub was_pending : get_pending_oidc_auth storage request ≡ some pending
    pub no_error : IsMissing (request.url.search_param "error")
    pub code_given : request.url.search_param "code" ≡ some code
    pub some_code : code ≢ ""
    pub state_given : request.url.search_param "state" ≡ some pending.state
    pub some_state : pending.state ≢ ""
    pub completes :
        (complete_oidc_authorization r out code pending request.url caches).0 ≡ returned subject
    pub saved : create_user_session_cookie storage request subject ≡ returned cookie
    pub leads : location ≡ sanitize_redirect_to (some pending.redirect_to) "/me"

  no_redirect :
      (m : Result C) (status : ℕ) (page : LoaderData) (location : String) (cookie : C)
      → (m >>= λ c. returned (error_page status page c)) ≡ returned (redirected location cookie)
      → ⊥
  no_redirect (returned c) status page location cookie h = cc
  no_redirect (thrown e) status page location cookie h = cc

  create_error_response_other :
      (message retry : String) (status : ℕ) (location : String) (cookie : C)
      → create_error_response r out storage request message retry status
        ≡ returned (redirected location cookie)
      → ⊥
  unfolding create_error_response
  create_error_response_other message retry status location cookie h =
      no_redirect (clear_pending_oidc_auth_cookie storage request) status
        (record { message = message; retry_url = build_login_url r (some retry) }) location cookie h

  failed_login_other :
      (retry : String) (e : Thrown) (location : String) (cookie : C)
      → failed_login r out storage request retry e ≡ returned (redirected location cookie)
      → ⊥
  unfolding failed_login
  failed_login_other retry (oidc_flow_error m s) location cookie h =
      create_error_response_other m retry s location cookie h
  failed_login_other retry _ location cookie h =
      create_error_response_other _ retry 500 location cookie h

  saved_inv :
      (m : Result C) (retry location : String) (cookie : C)
      → catch (m >>= λ c. returned (redirected retry c)) (failed_login r out storage request retry)
        ≡ returned (redirected location cookie)
      → (m ≡ returned cookie) × (location ≡ retry)
  saved_inv (thrown e) retry location cookie h =
      absurd (failed_login_other retry e location cookie h)
  saved_inv (returned c) retry location cookie h = (cc, cc)

  finish_login_inv :
      (retry : String) (m : Result String) (location : String) (cookie : C)
      → finish_login r out storage request retry m ≡ returned (redirected location cookie)
      → (subject : String) × (m ≡ returned subject)
        × (create_user_session_cookie storage request subject ≡ returned cookie)
        × (location ≡ retry)
  unfolding finish_login
  finish_login_inv retry (thrown e) location cookie h =
      absurd (failed_login_other retry e location cookie h)
  finish_login_inv retry (returned subject) location cookie h =
      let (saved, leads) =
        saved_inv (create_user_session_cookie storage request subject) retry location cookie h in
      (subject, refl, saved, leads)

  check_state-IsRedirect :
      (retry code : String) (o : Option PendingOidcAuth) (location : String) (cookie : C)
      → get_pending_oidc_auth storage request ≡ o
      → retry ≡ sanitize_redirect_to (redirect_of o) "/me"
      → IsMissing (request.url.search_param "error")
      → request.url.search_param "code" ≡ some code
      → code ≢ ""
      → is_present (request.url.search_param "state") ≡ true
      → (check_state r out storage request retry code (request.url.search_param "state") o caches).0
        ≡ returned (redirected location cookie)
      → IsRedirect location cookie
  unfolding check_state
  check_state-IsRedirect retry code none location cookie p q n c full given h =
      absurd (create_error_response_other _ retry 401 location cookie h)
  check_state-IsRedirect retry code (some pending) location cookie p q n c full given h =
      elim (Bool-cases (same_text (request.url.search_param "state") pending.state)) [
        | inr e ↦ absurd (create_error_response_other _ retry 401 location cookie (rw e at h))
        | inl e ↦
            let (subject, completes, saved, leads) =
              finish_login_inv retry
                (complete_oidc_authorization r out code pending request.url caches).0 location
                cookie (rw e at h) in
            let state = same_text-eq (request.url.search_param "state") pending.state e in
            record {
              pending = pending;
              code = code;
              subject = subject;
              was_pending = p;
              no_error = n;
              code_given = c;
              some_code = full;
              state_given = state;
              some_state = λ blank. let clash = rw (state, blank) at given in absurd (cc);
              completes = completes;
              saved = saved;
              leads = leads ∙ q;
            }
      ]

  check_code-IsRedirect :
      (retry : String) (code : Option String) (location : String) (cookie : C)
      → request.url.search_param "code" ≡ code
      → retry ≡ sanitize_redirect_to (redirect_of (get_pending_oidc_auth storage request)) "/me"
      → IsMissing (request.url.search_param "error")
      → (check_code r out storage request retry code
          (request.url.search_param "state")
          (get_pending_oidc_auth storage request)
          caches).0
        ≡ returned (redirected location cookie)
      → IsRedirect location cookie
  unfolding check_code
  check_code-IsRedirect retry none location cookie c q n h =
      absurd (create_error_response_other _ retry 400 location cookie h)
  check_code-IsRedirect retry (some code) location cookie c q n h =
      elim (Bool-cases (is_empty code || not (is_present (request.url.search_param "state")))) [
        | inl e ↦ absurd (create_error_response_other _ retry 400 location cookie (rw e at h))
        | inr e ↦
            let (full, given) = neither (is_empty code) _ e in
            check_state-IsRedirect retry code (get_pending_oidc_auth storage request) location
              cookie refl q n c (is_empty-no code full) given (rw e at h)
      ]

  loader-IsRedirect :
      (location : String) (cookie : C)
      → (loader r out storage request caches).0 ≡ returned (redirected location cookie)
      → IsRedirect location cookie
  unfolding loader
  loader-IsRedirect location cookie h =
      elim (Bool-cases (is_present (request.url.search_param "error"))) [
        | inl e ↦ absurd (create_error_response_other _ _ 401 location cookie (rw e at h))
        | inr e ↦
            check_code-IsRedirect
              (sanitize_redirect_to (redirect_of (get_pending_oidc_auth storage request)) "/me")
              (request.url.search_param "code") location cookie refl refl
              (missing (request.url.search_param "error") e) (rw e at h)
      ]

  loader_of_IsRedirect :
      (location : String) (cookie : C)
      → IsRedirect location cookie
      → (loader r out storage request caches).0 ≡ returned (redirected location cookie)
  unfolding loader check_code check_state finish_login
  loader_of_IsRedirect location cookie d =
      let same : (d.pending.state == d.pending.state) ≡ true =
        (eq_iff d.pending.state d.pending.state).1 refl in
      let no_error = not_present (request.url.search_param "error") d.no_error in
      let full = not_empty d.code d.some_code in
      let given = not_empty d.pending.state d.some_state in
      rw (
        d.was_pending, no_error, d.code_given, full, d.state_given, given, same, d.completes,
        d.saved, d.leads,
      )

  -- The callback is answered with a redirect exactly if no error came back, the code and the state are
  -- not empty, the state is that of the session's pending login, the flow gives a subject for the
  -- code, and a session of this subject can be saved. The redirect leads to the page that the pending
  -- login asked for and carries the cookie of the subject's session.
  pub loader_redirected_iff :
      (location : String) (cookie : C)
      → ((loader r out storage request caches).0 ≡ returned (redirected location cookie))
        ↔ IsRedirect location cookie
  loader_redirected_iff location cookie =
      (loader-IsRedirect location cookie, loader_of_IsRedirect location cookie)
