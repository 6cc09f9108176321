-- ===== src/Oidc/Flow/Authorization.antt =====
-- What a begun login asks the provider for.
use history_quiz.Prelude.{[], ◌∷◌, sym, String, subst, ap, ◌≡◌, refl}
use history_quiz.Runtime.{Runtime}
use history_quiz.Errors.{Result, returned}
use history_quiz.Web.{Url}
use history_quiz.Session.{PendingOidcAuth}
use history_quiz.Oidc.Encoding.{create_pkce_code_challenge, generate_random_url_safe_string}
use history_quiz.Oidc.Config.{OidcResolvedConfig, resolve_oidc_config}
use history_quiz.Oidc.Cache.{Caches, OidcDiscoveryDocument, get_oidc_discovery}
use history_quiz.Oidc.Flow.{Outside, OidcStart, authorization_params, begin_oidc_authorization}
use history_quiz.Oidc.Cache.Laws.{then_in-eq-returned, snd_eq}

start_inj : {s t : OidcStart} → returned s ≡ returned t → s ≡ t
start_inj h = cc

module _ (r : Runtime) (out : Outside) where
  -- An authorization request of the endpoint that the provider's discovery document names, fetched
  -- or still cached, for the values of a pending login.
  pub record IsAuthorization (url : Url) (caches : Caches) (location : String)
      (pending : PendingOidcAuth) : Type 0 where
    pub config : OidcResolvedConfig
    pub document : OidcDiscoveryDocument
    pub configured : resolve_oidc_config out.env url ≡ returned config
    pub after : Caches
    pub discovered :
        ◌≡◌ {A = Result OidcDiscoveryDocument × Caches}
          (get_oidc_discovery out.discovery_at out.fetch config.issuer_url caches)
          (returned document, after)
    pub asks :
        out.url_with document.authorization_endpoint (
          ("client_id", config.client_id)
          ∷ ("code_challenge", create_pkce_code_challenge r pending.code_verifier)
          ∷ ("code_challenge_method", "S256")
          ∷ ("nonce", pending.nonce)
          ∷ ("redirect_uri", config.redirect_uri)
          ∷ ("response_type", "code")
          ∷ ("scope", config.scopes)
          ∷ ("state", pending.state)
          ∷ [])
        ≡ returned location

  -- The pending login that is made of the random bytes.
  abbrev new_pending : String → PendingOidcAuth
  new_pending redirect_to = record {
    code_verifier = generate_random_url_safe_string r out.verifier_bytes;
    nonce = generate_random_url_safe_string r out.nonce_bytes;
    redirect_to = redirect_to;
    state = generate_random_url_safe_string r out.state_bytes;
  }

  pub begin-IsAuthorization :
      (redirect_to : String) (url : Url) (caches : Caches) (start : OidcStart) (last : Caches)
      → ◌≡◌ {A = Result OidcStart × Caches}
          (begin_oidc_authorization r out redirect_to url caches)
          (returned start, last)
      → IsAuthorization url caches start.authorization_url start.pending_auth
        × (start.pending_auth.redirect_to ≡ redirect_to)
  unfolding begin_oidc_authorization
  begin-IsAuthorization redirect_to url caches start last h =
      let (config, c1, e1, h1) =
        then_in-eq-returned (resolve_oidc_config out.env url, caches) _ start last h in
      let (document, c2, e2, h2) =
        then_in-eq-returned (get_oidc_discovery out.discovery_at out.fetch config.issuer_url c1) _
          start last h1 in
      let p = new_pending redirect_to in
      let (location, c3, e3, h3) =
        then_in-eq-returned
          (
            out.url_with document.authorization_endpoint (
                authorization_params config (create_pkce_code_challenge r p.code_verifier) p.nonce
                  p.state),
            c2,
          )
          _ start last h2 in
      let same : returned (record { authorization_url = location; pending_auth = p })
          ≡ returned start =
        ap (λ m. m.0) h3 in
      subst
        (λ s.
          IsAuthorization url caches s.authorization_url s.pending_auth
          × (s.pending_auth.redirect_to ≡ redirect_to))
        (start_inj same)
        (
          record {
            config = config;
            document = document;
            configured = ap (λ m. m.0) e1;
            after = c2;
            discovered =
                subst
                  (λ x.
                    ◌≡◌ {A = Result OidcDiscoveryDocument × Caches}
                      (get_oidc_discovery out.discovery_at out.fetch config.issuer_url x)
                      (returned document, c2))
                  (sym (snd_eq e1)) e2;
            asks = ap (λ m. m.0) e3;
          },
          refl,
        )
