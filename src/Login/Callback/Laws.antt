-- ===== src/Login/Callback/Laws.antt =====
-- What a login callback can do to a session.
use history_quiz.Prelude.{
  ℕ, String, ◌≡◌, ◌⊎◌, refl, ap, ◌∙◌, sym, true, not, ◌||◌, Option, none, some, eq_iff, arith,
  Bool-cases, inl, inr,
}
use history_quiz.Prelude.Text.{is_empty, trim}
use history_quiz.Runtime.{Runtime}
use history_quiz.Errors.{bind_inv, Result, returned, thrown, Thrown, oidc_flow_error, ◌>>=◌, catch}
use history_quiz.Web.{Request}
use history_quiz.Session.{
  CookieStorage, PendingOidcAuth, get_user, get_session_csrf_token, get_pending_oidc_auth,
  clear_pending_oidc_auth_cookie, create_user_session_cookie,
}
use history_quiz.Session.Laws.{
  create_user_session_cookie-login, clear_pending_oidc_auth_cookie-clears,
}
use history_quiz.Auth.{sanitize_redirect_to, build_login_url}
use history_quiz.Oidc.Cache.{Caches}
use history_quiz.Oidc.Flow.{Outside, complete_oidc_authorization}
use history_quiz.Oidc.Flow.Laws.{IsLogin, complete_oidc_authorization-IsLogin}
use history_quiz.Login.Callback.{
  Answer, error_page, redirected, LoaderData, redirect_of, is_present, same_text,
  create_error_response, failed_login, finish_login, check_state, check_code, loader,
}

abbrev pub cookie_of : {C : Type 0} → Answer C → C
cookie_of (error_page status page c) = c
cookie_of (redirected location c) = c

pub same_text-eq : (o : Option String) (t : String) → same_text o t ≡ true → o ≡ some t
same_text-eq none t h = absurd (cc)
same_text-eq (some s) t h = ap some ((eq_iff s t).0 h)

module _ (r : Runtime) (out : Outside) {C : Type 0} (storage : CookieStorage C)
    (request next : Request C) (caches : Caches) where
  -- A login was established: the callback has the state of the session's pending login, the flow
  -- gave the subject, and the next request is the subject's.
  pub record IsEstablished (answer : Answer C) : Type 0 where
    pub pending : PendingOidcAuth
    pub code : String
    pub subject : String
    pub cookie : C
    pub was_pending : get_pending_oidc_auth storage request ≡ some pending
    pub same_state : request.url.search_param "state" ≡ some pending.state
    pub code_given : request.url.search_param "code" ≡ some code
    pub login : IsLogin r out code pending request.url caches subject
    pub answered :
        answer ≡ redirected (sanitize_redirect_to (some pending.redirect_to) "/me") cookie
    pub user : get_user storage next ≡ some (record { user_id = trim subject })
    pub none_pending : get_pending_oidc_auth storage next ≡ none

  -- The callback was refused: an error page, the user as before, and no pending login.
  pub record IsRefused (answer : Answer C) : Type 0 where
    pub status : ℕ
    pub page : LoaderData
    pub cookie : C
    pub answered : answer ≡ error_page status page cookie
    pub user : get_user storage next ≡ get_user storage request
    pub csrf : get_session_csrf_token storage next ≡ get_session_csrf_token storage request
    pub none_pending : get_pending_oidc_auth storage next ≡ none

  returned_inj : {A : Type 0} {a b : A} → returned a ≡ returned b → a ≡ b
  returned_inj h = ground arith

  cookie-of_eq :
      {a b : Answer C} → a ≡ b → next.cookie ≡ some (cookie_of b) → next.cookie ≡ some (cookie_of a)
  cookie-of_eq e k = k ∙ ap (λ x. some (cookie_of x)) (sym e)

  create_error_response-IsRefused :
      (message retry : String) (status : ℕ) (answer : Answer C)
      → create_error_response r out storage request message retry status ≡ returned answer
      → next.cookie ≡ some (cookie_of answer)
      → IsRefused answer
  unfolding create_error_response
  create_error_response-IsRefused message retry status answer h k =
      let (c, cleared, same) =
        bind_inv (clear_pending_oidc_auth_cookie storage request) _ answer h in
      let e = returned_inj same in
      let (none_pending, user, csrf) =
        clear_pending_oidc_auth_cookie-clears storage request next c cleared (cookie-of_eq e k) in
      record {
        status = status;
        page = record { message = message; retry_url = build_login_url r (some retry) };
        cookie = c;
        answered = sym e;
        user = user;
        csrf = csrf;
        none_pending = none_pending;
      }

  failed_login-IsRefused :
      (retry : String) (e : Thrown) (answer : Answer C)
      → failed_login r out storage request retry e ≡ returned answer
      → next.cookie ≡ some (cookie_of answer)
      → IsRefused answer
  unfolding failed_login
  failed_login-IsRefused retry (oidc_flow_error m s) answer h k =
      create_error_response-IsRefused m retry s answer h k
  failed_login-IsRefused retry _ answer h k = create_error_response-IsRefused _ retry 500 answer h k

  save-cases :
      (retry : String) (m : Result C) (answer : Answer C)
      → catch (m >>= λ c. returned (redirected retry c)) (failed_login r out storage request retry)
        ≡ returned answer
      → next.cookie ≡ some (cookie_of answer)
      → ((c : C) × (m ≡ returned c) × (answer ≡ redirected retry c)) ⊎ IsRefused answer
  save-cases retry (returned c) answer h k = inl (c, refl, sym (returned_inj h))
  save-cases retry (thrown e) answer h k = inr (failed_login-IsRefused retry e answer h k)

  finish_login-cases :
      (retry : String) (m : Result String) (answer : Answer C)
      → finish_login r out storage request retry m ≡ returned answer
      → next.cookie ≡ some (cookie_of answer)
      → ((subject : String) × (c : C) × (m ≡ returned subject)
          × (create_user_session_cookie storage request subject ≡ returned c)
          × (answer ≡ redirected retry c))
        ⊎ IsRefused answer
  unfolding finish_login
  finish_login-cases retry (thrown e) answer h k = inr (failed_login-IsRefused retry e answer h k)
  finish_login-cases retry (returned s) answer h k =
      elim (save-cases retry (create_user_session_cookie storage request s) answer h k) [
        | inl (c, saved, same) ↦ inl (s, c, refl, saved, same)
        | inr refused ↦ inr refused
      ]

  check_state-cases :
      (retry code : String) (o : Option PendingOidcAuth) (answer : Answer C)
      → get_pending_oidc_auth storage request ≡ o
      → retry ≡ sanitize_redirect_to (redirect_of o) "/me"
      → request.url.search_param "code" ≡ some code
      → (check_state r out storage request retry code (request.url.search_param "state") o caches).0
        ≡ returned answer
      → next.cookie ≡ some (cookie_of answer)
      → IsEstablished answer ⊎ IsRefused answer
  unfolding check_state
  check_state-cases retry code none answer p q c h k =
      inr (create_error_response-IsRefused _ retry 401 answer h k)
  check_state-cases retry code (some pending) answer p q c h k =
      elim (Bool-cases (same_text (request.url.search_param "state") pending.state)) [
        | inl e ↦
            let done = complete_oidc_authorization r out code pending request.url caches in
            elim (finish_login-cases retry done.0 answer (rw e at h) k) [
              | inl (subject, cookie, finished, saved, same) ↦
                  let (user, _, none_pending) =
                    create_user_session_cookie-login storage request next subject cookie saved
                      (cookie-of_eq (sym same) k) in
                  inl (record {
                    pending = pending;
                    code = code;
                    subject = subject;
                    cookie = cookie;
                    was_pending = p;
                    same_state = same_text-eq (request.url.search_param "state") pending.state e;
                    code_given = c;
                    login =
                        complete_oidc_authorization-IsLogin r out code pending request.url caches
                          done.1 subject
                          (ap {B = Result String × Caches} (λ m. (m, done.1)) finished);
                    answered = same ∙ ap (λ x. redirected x cookie) q;
                    user = user;
                    none_pending = none_pending;
                  })
              | inr refused ↦ inr refused
            ]
        | inr e ↦ inr (create_error_response-IsRefused _ retry 401 answer (rw e at h) k)
      ]

  check_code-cases :
      (retry : String) (code : Option String) (answer : Answer C)
      → request.url.search_param "code" ≡ code
      → retry ≡ sanitize_redirect_to (redirect_of (get_pending_oidc_auth storage request)) "/me"
      → (check_code r out storage request retry code
          (request.url.search_param "state")
          (get_pending_oidc_auth storage request)
          caches).0
        ≡ returned answer
      → next.cookie ≡ some (cookie_of answer)
      → IsEstablished answer ⊎ IsRefused answer
  unfolding check_code
  check_code-cases retry none answer c q h k =
      inr (create_error_response-IsRefused _ retry 400 answer h k)
  check_code-cases retry (some code) answer c q h k =
      elim (Bool-cases (is_empty code || not (is_present (request.url.search_param "state")))) [
        | inl e ↦ inr (create_error_response-IsRefused _ retry 400 answer (rw e at h) k)
        | inr e ↦
            check_state-cases retry code (get_pending_oidc_auth storage request) answer refl q c
              (rw e at h) k
      ]

  -- Every answer of the callback's loader either establishes a login or is refused. A login is
  -- established only with the state of the session's pending login and by a complete flow for its
  -- code, and the next request is then the subject's; a refusal leaves the user as it was. In both
  -- cases the pending login is gone, so that it cannot be used again.
  pub loader-cases :
      (answer : Answer C)
      → (loader r out storage request caches).0 ≡ returned answer
      → next.cookie ≡ some (cookie_of answer)
      → IsEstablished answer ⊎ IsRefused answer
  unfolding loader
  loader-cases answer h k = elim (Bool-cases (is_present (request.url.search_param "error"))) [
    | inl e ↦ inr (
        create_error_response-IsRefused _
          (sanitize_redirect_to (redirect_of (get_pending_oidc_auth storage request)) "/me") 401
          answer (rw e at h) k)
    | inr e ↦
        check_code-cases
          (sanitize_redirect_to (redirect_of (get_pending_oidc_auth storage request)) "/me")
          (request.url.search_param "code") answer refl refl (rw e at h) k
  ]
