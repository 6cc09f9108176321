-- ===== src/Session/Laws.antt =====
-- What a session holds after each cookie that the server sets.
use history_quiz.Prelude.{
  ℕ, String, ◌≡◌, refl, ap, ◌∙◌, subst, sym, false, Option, none, some, List, ◌∷◌, arith,
  Bool-cases, inl, inr,
}
use history_quiz.Prelude.Text.{is_empty, trim, trimmed, trim_idem, trim_of_HasNoBlank}
use history_quiz.Errors.{Result, returned, thrown, ◌>>=◌}
use history_quiz.Web.{Request}
use history_quiz.Session.Tokens.{to_hex, HasNoBlank-to_hex, is_empty-to_hex}
use history_quiz.Session.{
  SessionData, CookieStorage, PendingOidcAuth, generate_csrf_token, to_session_non_empty_string,
  pending_of, get_user_session, get_user, get_pending_oidc_auth, get_session_csrf_token,
  create_user_session_cookie, create_pending_oidc_auth_cookie, clear_pending_oidc_auth_cookie,
  ensure_session_csrf_token, IssuedCsrfToken, keep_or_issue,
}

-- The cookie that a browser holds after an answer.
abbrev pub follow {ℓ} : {C : Type ℓ} → Option C → Option C → Option C
follow none held = held
follow (some c) held = some c

-- The pending login of a session that holds `p`: what is read back is trimmed.
abbrev pub stored : PendingOidcAuth → Option PendingOidcAuth
stored p =
    pending_of (trimmed p.state) (trimmed p.nonce) (trimmed p.code_verifier) (trimmed p.redirect_to)

pub trimmed_of_present : (s : String) → is_empty (trim s) ≡ false → trimmed s ≡ some (trim s)
unfolding trimmed
trimmed_of_present s h = rw h

pub trimmed_of_trimmed : (s t : String) → trimmed s ≡ some t → (t ≡ trim s) × (trimmed t ≡ some t)
unfolding trimmed
trimmed_of_trimmed s t h = elim (Bool-cases (is_empty (trim s))) [
  | inl e ↦ absurd (cc (rw e at h))
  | inr e ↦ let same : trim s ≡ t = ground arith in (sym same, rw (← same) (rw (trim_idem s, e)))
]

trimmed-token :
    (b : ℕ) (bs : List ℕ)
    → trimmed (generate_csrf_token (b ∷ bs)) ≡ some (generate_csrf_token (b ∷ bs))
unfolding trimmed generate_csrf_token
trimmed-token b bs =
    rw (trim_of_HasNoBlank (to_hex (b ∷ bs)) (HasNoBlank-to_hex (b ∷ bs)), is_empty-to_hex b bs)

to_session_idem :
    (o : Option String) (t : String)
    → to_session_non_empty_string o ≡ some t
    → to_session_non_empty_string (some t) ≡ some t
unfolding to_session_non_empty_string
to_session_idem none t h = cc
to_session_idem (some s) t h = (trimmed_of_trimmed s t h).1

module _ {C : Type 0} (storage : CookieStorage C) where
  bind-eq-returned :
      {A : Type 0} (m : Result C) (f : C → A) (a : A)
      → (m >>= λ c. returned (f c)) ≡ returned a
      → (c : C) × (m ≡ returned c) × (f c ≡ a)
  bind-eq-returned (returned c) f a h = (c, refl, ground arith)
  bind-eq-returned (thrown e) f a h = absurd (cc)

  get_user_session-commit :
      (s : SessionData) (c : C) (next : Request C)
      → storage.commit_session s ≡ returned c
      → next.cookie ≡ some c
      → get_user_session storage next ≡ s
  unfolding get_user_session
  get_user_session-commit s c next h k = rw k (storage.get-commit s c h)

  -- If the session of a login can be saved and the next request has its cookie, then that request is
  -- of the user with the trimmed id, keeps the CSRF token, and has no pending login.
  pub create_user_session_cookie-login :
      (request next : Request C) (id : String) (c : C)
      → create_user_session_cookie storage request id ≡ returned c
      → next.cookie ≡ some c
      → (get_user storage next ≡ some (record { user_id = trim id }))
        × (get_session_csrf_token storage next ≡ get_session_csrf_token storage request)
        × (get_pending_oidc_auth storage next ≡ none)
  unfolding create_user_session_cookie get_user get_session_csrf_token get_pending_oidc_auth
  create_user_session_cookie-login request next id c h k = elim (Bool-cases (is_empty (trim id))) [
    | inl e ↦ absurd (cc (rw e at h))
    | inr e ↦
        rw (get_user_session-commit _ c next (rw e at h) k) (rw (trim_idem id, e) refl, refl, refl)
  ]

  -- A pending login that was saved is read back by the next request, each text trimmed (and not at
  -- all if one of them is blank); the user and the CSRF token stay.
  pub create_pending_oidc_auth_cookie-stored :
      (request next : Request C) (p : PendingOidcAuth) (c : C)
      → create_pending_oidc_auth_cookie storage p request ≡ returned c
      → next.cookie ≡ some c
      → (get_pending_oidc_auth storage next ≡ stored p)
        × (get_user storage next ≡ get_user storage request)
        × (get_session_csrf_token storage next ≡ get_session_csrf_token storage request)
  unfolding create_pending_oidc_auth_cookie get_user get_session_csrf_token get_pending_oidc_auth
  create_pending_oidc_auth_cookie-stored request next p c h k =
      rw (get_user_session-commit _ c next h k) (refl, refl, refl)

  -- Dropping the pending login leaves none to the next request, and keeps the user and the token.
  pub clear_pending_oidc_auth_cookie-clears :
      (request next : Request C) (c : C)
      → clear_pending_oidc_auth_cookie storage request ≡ returned c
      → next.cookie ≡ some c
      → (get_pending_oidc_auth storage next ≡ none)
        × (get_user storage next ≡ get_user storage request)
        × (get_session_csrf_token storage next ≡ get_session_csrf_token storage request)
  unfolding clear_pending_oidc_auth_cookie get_user get_session_csrf_token get_pending_oidc_auth
  clear_pending_oidc_auth_cookie-clears request next c h k =
      rw (get_user_session-commit _ c next h k) (refl, refl, refl)

  keep_or_issue-kept :
      (o : Option String) (b : ℕ) (bs : List ℕ) (request next : Request C)
      (issued : IssuedCsrfToken C)
      → to_session_non_empty_string (get_user_session storage request).csrf_token ≡ o
      → keep_or_issue storage o (get_user_session storage request) (b ∷ bs) ≡ returned issued
      → next.cookie ≡ follow issued.set_cookie request.cookie
      → (get_session_csrf_token storage next ≡ some issued.csrf_token)
        × (get_user storage next ≡ get_user storage request)
        × (get_pending_oidc_auth storage next ≡ get_pending_oidc_auth storage request)
  unfolding get_user get_session_csrf_token get_pending_oidc_auth
  keep_or_issue-kept (some t) b bs request next issued e h k =
      let same : ◌≡◌ {A = IssuedCsrfToken C} (record { csrf_token = t; set_cookie = none }) issued =
        cc in
      let held : next.cookie ≡ request.cookie =
        subst (λ x. next.cookie ≡ follow x.set_cookie request.cookie) (sym same) k in
      rw held (e ∙ ap (λ x. some x.csrf_token) same, refl, refl)
  keep_or_issue-kept none b bs request next issued e h k =
      let (c, committed, same) =
        bind-eq-returned
          (storage.commit_session (record (get_user_session storage request) {
            csrf_token = some (generate_csrf_token (b ∷ bs));
          }))
          (λ c. record { csrf_token = generate_csrf_token (b ∷ bs); set_cookie = some c }) issued
          h in
      rw
        (get_user_session-commit _ c next committed
          (subst (λ x. next.cookie ≡ follow x.set_cookie request.cookie) (sym same) k))
        (trimmed-token b bs ∙ ap (λ x. some x.csrf_token) same, refl, refl)

  -- The token that was issued is the session's token at the next request, be it the old one or one
  -- made of the random bytes; the user and the pending login stay.
  pub ensure_session_csrf_token-kept :
      (b : ℕ) (bs : List ℕ) (request next : Request C) (issued : IssuedCsrfToken C)
      → ensure_session_csrf_token storage (b ∷ bs) request ≡ returned issued
      → next.cookie ≡ follow issued.set_cookie request.cookie
      → (get_session_csrf_token storage next ≡ some issued.csrf_token)
        × (get_user storage next ≡ get_user storage request)
        × (get_pending_oidc_auth storage next ≡ get_pending_oidc_auth storage request)
  unfolding ensure_session_csrf_token
  ensure_session_csrf_token-kept b bs request next issued h k =
      keep_or_issue-kept _ b bs request next issued refl h k
