-- ===== src/Csrf/Laws.antt =====
-- When a form passes the CSRF check.
use Prim.Native.String.{len}
use history_quiz.Prelude.{
  ℕ, String, ◌≡◌, ◌↔◌, ◌⊎◌, refl, ap, true, false, not, Option, none, some, List, ◌∷◌, ◌==◌, eq_iff,
  nat_eq, if◌then◌else◌, arith, Bool-cases, inl, inr,
}
use history_quiz.Prelude.Text.{is_empty, trimmed}
use history_quiz.Errors.{returned, thrown, error_response}
use history_quiz.Web.{Request, FormValue, text}
use history_quiz.RequestId.{Random}
use history_quiz.Session.{
  CookieStorage, IssuedCsrfToken, get_session_csrf_token, to_session_non_empty_string,
}
use history_quiz.Session.Laws.{follow, ensure_session_csrf_token-kept, trimmed_of_trimmed}
use history_quiz.Csrf.{
  answered_id, to_optional_trimmed_token, safe_token_equals, tokens_match, csrf_error_response,
  csrf_token_field_name, issue_csrf_token, verify_csrf_token,
}

safe_token_equals_iff : (s t : String) → (safe_token_equals s t ≡ true) ↔ (s ≡ t)
unfolding safe_token_equals
safe_token_equals_iff s t = (to, from)
  where
    to : (if not (nat_eq (len s) (len t)) then false else s == t) ≡ true → s ≡ t
    to h = ground (arith, eq_iff s t)

    from : s ≡ t → (if not (nat_eq (len s) (len t)) then false else s == t) ≡ true
    from e = rw e (ground (arith, eq_iff t t))

-- A token of the session or of a form is not empty.
is_empty_of_trimmed : (s t : String) → trimmed s ≡ some t → is_empty t ≡ false
unfolding trimmed
is_empty_of_trimmed s t h = ground arith

session_token-present :
    {C : Type 0} (storage : CookieStorage C) (request : Request C) (t : String)
    → get_session_csrf_token storage request ≡ some t
    → (is_empty t ≡ false) × (trimmed t ≡ some t)
unfolding get_session_csrf_token
session_token-present storage request t h = go (storage.get_session request.cookie).csrf_token h
  where
    go :
        (o : Option String)
        → to_session_non_empty_string o ≡ some t
        → (is_empty t ≡ false) × (trimmed t ≡ some t)
    go none e = absurd (cc)
    go (some s) e = (is_empty_of_trimmed s t e, (trimmed_of_trimmed s t e).1)

-- The session and the form hold one and the same token.
abbrev pub Agree : Option String → Option String → Type 0
Agree o p = (t : String) × (o ≡ some t) × (p ≡ some t)

tokens_match-Agree : (o p : Option String) → tokens_match o p ≡ true → Agree o p
unfolding tokens_match
tokens_match-Agree (some s) (some t) h =
    let same : safe_token_equals s t ≡ true = ground arith in
    (t, ap some ((safe_token_equals_iff s t).0 same), refl)
tokens_match-Agree none p h = absurd (cc)
tokens_match-Agree (some s) none h = absurd (cc)

tokens_match_self : (t : String) → is_empty t ≡ false → tokens_match (some t) (some t) ≡ true
unfolding tokens_match
tokens_match_self t h = rw (h, (safe_token_equals_iff t t).1 refl)

module _ {C : Type 0} (storage : CookieStorage C) where
  tokens_match_of_Agree :
      (request : Request C) (p : Option String)
      → Agree (get_session_csrf_token storage request) p
      → tokens_match (get_session_csrf_token storage request) p ≡ true
  tokens_match_of_Agree request p (t, e, f) =
      rw (e, f) (tokens_match_self t (session_token-present storage request t e).0)

  -- A form passes if the session has a token and the form's token, trimmed, is the same text. Any
  -- other form is answered 403. Both answers carry the request id that was given or made.
  pub verify_csrf_token-cases :
      (random : Random) (form : String → Option FormValue) (request : Request C)
      (given : Option String)
      → (Agree
            (get_session_csrf_token storage request)
            (to_optional_trimmed_token (form csrf_token_field_name))
          × (verify_csrf_token storage random form request given
              ≡ returned (answered_id random given)))
        ⊎ ((¬ (
              Agree
                (get_session_csrf_token storage request)
                (to_optional_trimmed_token (form csrf_token_field_name))))
            × (verify_csrf_token storage random form request given
                ≡ thrown (error_response (csrf_error_response (answered_id random given)))))
  unfolding verify_csrf_token
  verify_csrf_token-cases random form request given =
      let posted = to_optional_trimmed_token (form csrf_token_field_name) in
      elim (Bool-cases (tokens_match (get_session_csrf_token storage request) posted)) [
        | inl e ↦ inl (tokens_match-Agree _ _ e, rw e)
        | inr e ↦ inr ((λ a. cc (tokens_match_of_Agree request posted a)), rw e)
      ]

  -- With the id of the request, the token decides alone.
  pub agreed :
      (random : Random) (form : String → Option FormValue) (request : Request C) (id shown : String)
      → verify_csrf_token storage random form request (some id) ≡ returned shown
      → Agree
          (get_session_csrf_token storage request)
          (to_optional_trimmed_token (form csrf_token_field_name))
        × (id ≡ shown)
  agreed random form request id shown h =
      elim (verify_csrf_token-cases random form request (some id)) [
        | inl (agree, passed) ↦ (agree, cc)
        | inr (no_token, refusal) ↦ absurd (cc)
      ]

  pub verified :
      (random : Random) (form : String → Option FormValue) (request : Request C) (id : String)
      → Agree
          (get_session_csrf_token storage request)
          (to_optional_trimmed_token (form csrf_token_field_name))
      → verify_csrf_token storage random form request (some id) ≡ returned id
  verified random form request id a = elim (verify_csrf_token-cases random form request (some id)) [
    | inl (_, passed) ↦ passed
    | inr (no_token, refusal) ↦ absurd (no_token a)
  ]

  pub refused_token :
      (random : Random) (form : String → Option FormValue) (request : Request C) (id : String)
      → ¬ (
          Agree
            (get_session_csrf_token storage request)
            (to_optional_trimmed_token (form csrf_token_field_name)))
      → verify_csrf_token storage random form request (some id)
        ≡ thrown (error_response (csrf_error_response id))
  refused_token random form request id n =
      elim (verify_csrf_token-cases random form request (some id)) [
        | inl (agree, passed) ↦ absurd (n agree)
        | inr (_, refusal) ↦ refusal
      ]

  -- A form that posts the token which was issued with its page passes the check, if the browser
  -- keeps the cookie that came with it.
  pub issue-verify_csrf_token :
      (b : ℕ) (bs : List ℕ) (random : Random) (request next : Request C)
      (issued : IssuedCsrfToken C) (form : String → Option FormValue) (given : Option String)
      → issue_csrf_token storage (b ∷ bs) request ≡ returned issued
      → next.cookie ≡ follow issued.set_cookie request.cookie
      → form csrf_token_field_name ≡ some (text issued.csrf_token)
      → verify_csrf_token storage random form next given ≡ returned (answered_id random given)
  unfolding issue_csrf_token verify_csrf_token to_optional_trimmed_token
  issue-verify_csrf_token b bs random request next issued form given h k f =
      let t = issued.csrf_token in
      let (kept, _, _) = ensure_session_csrf_token-kept storage b bs request next issued h k in
      let (present, solid) = session_token-present storage next t kept in
      rw (kept, f, solid, tokens_match_self t present)
