-- ===== src/Entry/Secure.antt =====
-- The security headers of a page.
use history_quiz.Prelude.{
  subst, ℕ, String, ◌≡◌, refl, sym, ◌∙◌, Bool, true, false, Option, some, List, [], ◌∷◌, inl, inr,
  if◌then◌else◌,
}
use history_quiz.Prelude.Dict.{lookup, lookup-put}
use history_quiz.Prelude.Letters.{UpperCase}
use history_quiz.Web.{Request}
use history_quiz.Observability.{Metrics}
use history_quiz.Entry.{
  apply_security_headers, resolved, RenderEvent, shell_ready, shell_error, render_error,
  page_headers, handle_request,
}
use history_quiz.Prelude.{All, ◌⊎◌}
use history_quiz.Entry.Laws.{first_answer, handle_request-answer}

-- The headers that docs/security.md asks for, with their values.
abbrev required_headers : List (String × String)
required_headers =
    (
      "content-security-policy",
      "default-src 'self'; base-uri 'self'; frame-ancestors 'none'; object-src 'none'; script-src 'self' 'unsafe-inline'; style-src 'self' 'unsafe-inline'; img-src 'self' data:; font-src 'self' data:; connect-src 'self'; form-action 'self'",
    )
    ∷ ("x-frame-options", "DENY")
    ∷ ("x-content-type-options", "nosniff")
    ∷ ("referrer-policy", "strict-origin-when-cross-origin")
    ∷ ("permissions-policy", "camera=(), microphone=(), geolocation=(), payment=()")
    ∷ ("strict-transport-security", "max-age=31536000; includeSubDomains")
    ∷ []

-- A page's headers have every required header.
abbrev pub IsSecure : List (String × String) → Type 0
IsSecure headers = All (λ h. lookup h.0 headers ≡ some h.1) required_headers

module _ (u : UpperCase) {C : Type 0} (request : Request C) (response_status_code : ℕ)
    (started_at_ms : ℕ) where
  page_headers-IsSecure :
      (headers : List (String × String))
      → IsSecure (page_headers u request response_status_code started_at_ms headers)
  unfolding apply_security_headers
  page_headers-IsSecure headers =
      simp (lookup-put) (refl, (refl, (refl, (refl, (refl, (refl, tt))))))

  first_answer-IsSecure :
      (did_error : Bool) (headers : List (String × String)) (events : List RenderEvent) (status : ℕ)
      (h : List (String × String))
      → first_answer u request response_status_code started_at_ms did_error headers events
        ≡ some (resolved status h)
      → IsSecure h × ((status ≡ response_status_code) ⊎ (status ≡ 500))
  first_answer-IsSecure did_error headers [] status h e = absurd (cc)
  first_answer-IsSecure did_error headers (shell_ready moment ∷ events) status h e = (
    subst IsSecure (headers_inj e) (page_headers-IsSecure headers),
    of_status did_error (status_inj e),
  )
    where
      headers_inj :
          {m n : ℕ} {k l : List (String × String)}
          → some (resolved m k) ≡ some (resolved n l)
          → k ≡ l
      headers_inj q = cc

      status_inj :
          {m n : ℕ} {k l : List (String × String)}
          → some (resolved m k) ≡ some (resolved n l)
          → m ≡ n
      status_inj q = cc

      of_status :
          (b : Bool)
          → (if b then 500 else response_status_code) ≡ status
          → (status ≡ response_status_code) ⊎ (status ≡ 500)
      of_status true q = inr (sym q)
      of_status false q = inl (sym q)
  first_answer-IsSecure did_error headers (shell_error moment x ∷ events) status h e = absurd (cc)
  first_answer-IsSecure did_error headers (render_error moment x ∷ events) status h e =
      first_answer-IsSecure true headers events status h e

  -- A page that is sent has the six security headers that docs/security.md asks for, each with its
  -- value, whatever headers the routes set, and the status that was given or 500.
  pub handle_request-IsSecure :
      (node_env : Option String) (headers : List (String × String)) (events : List RenderEvent)
      (metrics : Metrics) (status : ℕ) (h : List (String × String))
      → (handle_request u request response_status_code started_at_ms node_env headers events
          metrics).outcome
        ≡ some (resolved status h)
      → IsSecure h × ((status ≡ response_status_code) ⊎ (status ≡ 500))
  handle_request-IsSecure node_env headers events metrics status h e =
      first_answer-IsSecure false headers events status h (
        sym
          (handle_request-answer u request response_status_code started_at_ms node_env headers
            events metrics).0
        ∙ e)
