-- ===== src/Oidc/Flow/Laws.antt =====
-- What a completed login has checked.
use history_quiz.Prelude.{
  String, ◌≡◌, refl, ap, subst, ◌∙◌, sym, Option, none, some, List, [], ◌∷◌, arith,
}
use history_quiz.Prelude.Json.{Json, str, property, as_text}
use history_quiz.Prelude.Text.{split_on}
use history_quiz.Runtime.{Runtime}
use history_quiz.Errors.{bind_inv, Result, returned, ◌>>◌}
use history_quiz.Web.{Url}
use history_quiz.Session.{PendingOidcAuth}
use history_quiz.Oidc.Encoding.{decode_base64_url_json}
use history_quiz.Oidc.Config.{OidcResolvedConfig, resolve_oidc_config}
use history_quiz.Oidc.Cache.Laws.{then_in-eq-returned, fst_eq, snd_eq}
use history_quiz.Oidc.Flow.Signature.{IsSigned, verify_id_token_signature-IsSigned}
use history_quiz.Oidc.Cache.{Caches, OidcDiscoveryDocument, get_oidc_discovery}
use history_quiz.Oidc.Claims.{validate_id_token_claims}
use history_quiz.Oidc.Claims.Laws.{IsAccepted, validate_id_token_claims_iff}
use history_quiz.Oidc.Token.{OidcTokenResponse, tokens_of_fetched, exchange_authorization_code}
use history_quiz.Oidc.Flow.{
  Outside, subject_of, verify_segments, verify_and_decode_id_token, complete_oidc_authorization,
}

str_inj : {s t : String} → ◌≡◌ {A = Option Json} (some (str s)) (some (str t)) → s ≡ t
str_inj h = ground arith

sub_of_subject :
    (o : Option Json) (s : String) → subject_of (as_text o) ≡ returned s → o ≡ some (str s)
sub_of_subject (some (str t)) s h = ground arith
sub_of_subject (some _) s h = absurd (cc)
sub_of_subject none s h = absurd (cc)

module _ (r : Runtime) (out : Outside) where
  -- An ID token for this client and this login that names the subject.
  pub record IsAuthentic (id_token client_id issuer nonce jwks_uri subject : String)
      (caches : Caches) : Type 0 where
    pub encoded_header : String
    pub encoded_payload : String
    pub encoded_signature : String
    pub header : Json
    pub claims : Json
    pub parts : split_on b'.' id_token ≡ encoded_header ∷ encoded_payload ∷ encoded_signature ∷ []
    pub header_read : decode_base64_url_json r encoded_header ≡ returned header
    pub claims_read : decode_base64_url_json r encoded_payload ≡ returned claims
    pub signed :
        IsSigned r out jwks_uri caches header encoded_header encoded_payload encoded_signature
    pub accepted : IsAccepted out.claims_at claims client_id issuer nonce subject

  -- A login that names the subject: the settings, the provider's document and the token answer of
  -- this very code and code verifier, with an authentic token.
  pub record IsLogin (code : String) (pending : PendingOidcAuth) (url : Url) (caches : Caches)
      (subject : String) : Type 0 where
    pub config : OidcResolvedConfig
    pub document : OidcDiscoveryDocument
    pub tokens : OidcTokenResponse
    pub after : Caches
    pub configured : resolve_oidc_config out.env url ≡ returned config
    pub discovered :
        ◌≡◌ {A = Result OidcDiscoveryDocument × Caches}
          (get_oidc_discovery out.discovery_at out.fetch config.issuer_url caches)
          (returned document, after)
    pub exchanged :
        tokens_of_fetched (
          out.post document.token_endpoint (
            ("client_id", config.client_id)
            ∷ ("client_secret", config.client_secret)
            ∷ ("code", code)
            ∷ ("code_verifier", pending.code_verifier)
            ∷ ("grant_type", "authorization_code")
            ∷ ("redirect_uri", config.redirect_uri)
            ∷ []))
        ≡ returned tokens
    pub authentic :
        IsAuthentic tokens.id_token config.client_id document.issuer pending.nonce document.jwks_uri
          subject after

  validate_id_token_claims-IsAccepted :
      (claims last : Json) (c i n subject : String)
      → (validate_id_token_claims out.claims_at claims c i n >> returned claims) ≡ returned last
      → property "sub" last ≡ some (str subject)
      → (claims ≡ last) × IsAccepted out.claims_at claims c i n subject
  validate_id_token_claims-IsAccepted claims last c i n subject e sub =
      let (u, valid, same) =
        bind_inv (validate_id_token_claims out.claims_at claims c i n) (λ _. returned claims) last
          e in
      let one : claims ≡ last = ground arith in
      let (s, a) = (validate_id_token_claims_iff out.claims_at claims c i n).0 valid in
      let known : s ≡ subject = str_inj (sym a.sub ∙ ap (property "sub") one ∙ sub) in
      (one, subst (IsAccepted out.claims_at claims c i n) known a)

  verify_segments-IsAuthentic :
      (id_token : String) (segments : List String) (c i n jwks_uri subject : String) (claims : Json)
      (before last : Caches)
      → split_on b'.' id_token ≡ segments
      → ◌≡◌ {A = Result Json × Caches}
          (verify_segments r out segments c i n jwks_uri before)
          (returned claims, last)
      → property "sub" claims ≡ some (str subject)
      → IsAuthentic id_token c i n jwks_uri subject before
  unfolding verify_segments
  verify_segments-IsAuthentic id_token (h ∷ p ∷ g ∷ []) c i n jwks_uri subject claims before last
        split e sub =
      let (header, c1, header_read, e1) = then_in-eq-returned _ _ claims last e in
      let (read, c2, claims_read, e2) = then_in-eq-returned _ _ claims last e1 in
      let (u, c3, signed, e3) = then_in-eq-returned _ _ claims last e2 in
      let (one, accepted) =
        validate_id_token_claims-IsAccepted read claims c i n subject (fst_eq e3) sub in
      record {
        encoded_header = h;
        encoded_payload = p;
        encoded_signature = g;
        header = header;
        claims = read;
        parts = split;
        header_read = fst_eq header_read;
        claims_read = fst_eq claims_read;
        signed =
            subst (λ x. IsSigned r out jwks_uri x header h p g)
              (sym (snd_eq header_read ∙ snd_eq claims_read))
              (verify_id_token_signature-IsSigned r out jwks_uri header h p g u c2 c3 signed);
        accepted = accepted;
      }
  verify_segments-IsAuthentic id_token _ c i n jwks_uri subject claims before last split e sub =
      absurd (cc (fst_eq e))

  -- A completed login gives a subject only from an ID token that was answered to this code and code
  -- verifier, is signed with a key of the key set that is fetched or still cached for the provider's
  -- jwks_uri, and whose claims name that subject, the provider, this client and the nonce of this
  -- login, and expired less than thirty seconds ago if at all.
  pub complete_oidc_authorization-IsLogin :
      (code : String) (pending : PendingOidcAuth) (url : Url) (caches last : Caches)
      (subject : String)
      → ◌≡◌ {A = Result String × Caches}
          (complete_oidc_authorization r out code pending url caches)
          (returned subject, last)
      → IsLogin code pending url caches subject
  unfolding complete_oidc_authorization verify_and_decode_id_token exchange_authorization_code
  complete_oidc_authorization-IsLogin code pending url caches last subject e =
      let (config, c1, configured, e1) =
        then_in-eq-returned (resolve_oidc_config out.env url, caches) _ subject last e in
      let (document, c2, discovered, e2) = then_in-eq-returned _ _ subject last e1 in
      let (tokens, c3, exchanged, e3) = then_in-eq-returned _ _ subject last e2 in
      let (claims, c4, verified, e4) = then_in-eq-returned _ _ subject last e3 in
      let same : c1 ≡ caches = sym (ap (λ p. p.1) configured) in
      record {
        config = config;
        document = document;
        tokens = tokens;
        after = c2;
        configured = fst_eq configured;
        discovered =
            subst
              (λ x.
                ◌≡◌ {A = Result OidcDiscoveryDocument × Caches}
                  (get_oidc_discovery out.discovery_at out.fetch config.issuer_url x)
                  (returned document, c2))
              same discovered;
        exchanged = fst_eq exchanged;
        authentic =
            subst
              (IsAuthentic tokens.id_token config.client_id document.issuer pending.nonce
                document.jwks_uri subject)
              (sym (snd_eq exchanged))
              (verify_segments-IsAuthentic tokens.id_token (split_on b'.' tokens.id_token)
                config.client_id document.issuer pending.nonce document.jwks_uri subject claims c3
                c4 refl verified (sub_of_subject _ subject (fst_eq e4)));
      }
