-- ===== src/Oidc/Flow.antt =====
-- Beginning and completing a login, of client/app/services/oidc.server.ts.
pub mod Authorization
pub mod Laws
pub mod Signature
use Prim.Native.String
use history_quiz.Prelude.{ℕ, String, Bool, Option, none, some, List, [], ◌∷◌}
use history_quiz.Prelude.Json.{Json, str, property, as_text}
use history_quiz.Prelude.Text.{split_on}
use history_quiz.Runtime.{Runtime}
use history_quiz.Errors.{Result, returned, thrown, error, ◌>>=◌, ◌>>◌}
use history_quiz.Web.{Url}
use history_quiz.Session.{PendingOidcAuth}
use history_quiz.Oidc.Encoding.{
  decode_base64_url_json, generate_random_url_safe_string, create_pkce_code_challenge,
}
use history_quiz.Oidc.Config.{OidcResolvedConfig, resolve_oidc_config}
use history_quiz.Oidc.Cache.{
  Fetched, Cached, Caches, then_in, type_error, OidcDiscoveryDocument, get_oidc_discovery,
}
use history_quiz.Oidc.Claims.{rejected_claims, validate_id_token_claims}
use history_quiz.Oidc.Token.{
  OidcTokenResponse, exchange_authorization_code, verify_id_token_signature,
}

-- What the flow meets outside the process: the environment, the clock at each of its readings, the
-- answers of the network, random bytes, and `URL` with its parameters set.
pub record Outside : Type 0 where
  pub env : String → Option String
  pub discovery_at : ℕ
  pub jwks_at : ℕ
  pub claims_at : ℕ
  pub fetch : String → Fetched
  pub post : String → List (String × String) → Fetched
  pub state_bytes : List ℕ
  pub nonce_bytes : List ℕ
  pub verifier_bytes : List ℕ
  pub url_with : String → List (String × String) → Result String

pub record OidcStart : Type 0 where
  pub authorization_url : String
  pub pending_auth : PendingOidcAuth

abbrev pub authorization_params :
    OidcResolvedConfig → (code_challenge nonce state : String) → List (String × String)
authorization_params config code_challenge nonce state =
    ("client_id", config.client_id)
    ∷ ("code_challenge", code_challenge)
    ∷ ("code_challenge_method", "S256")
    ∷ ("nonce", nonce)
    ∷ ("redirect_uri", config.redirect_uri)
    ∷ ("response_type", "code")
    ∷ ("scope", config.scopes)
    ∷ ("state", state)
    ∷ []

-- claims.sub, where the claims have passed their checks.
abbrev pub subject_of : Option String → Result String
subject_of (some sub) = returned sub
subject_of none = thrown (error type_error)

module _ (r : Runtime) (out : Outside) where
  -- beginOidcAuthorization
  unfoldable pub begin_oidc_authorization : (redirect_to : String) → Url → Cached OidcStart
  begin_oidc_authorization redirect_to url caches =
      then_in (resolve_oidc_config out.env url, caches)
        λ config caches.
          then_in (get_oidc_discovery out.discovery_at out.fetch config.issuer_url caches)
            λ discovery caches.
              let state = generate_random_url_safe_string r out.state_bytes in
              let nonce = generate_random_url_safe_string r out.nonce_bytes in
              let code_verifier = generate_random_url_safe_string r out.verifier_bytes in
              let code_challenge = create_pkce_code_challenge r code_verifier in
              then_in
                (
                  out.url_with discovery.authorization_endpoint
                      (authorization_params config code_challenge nonce state),
                  caches,
                )
                λ authorization_url caches. (
                  returned (record {
                    authorization_url = authorization_url;
                    pending_auth = record {
                      code_verifier = code_verifier;
                      nonce = nonce;
                      redirect_to = redirect_to;
                      state = state;
                    };
                  }),
                  caches,
                )

  -- The part of verifyAndDecodeIdToken behind the split of the token.
  unfoldable pub verify_segments :
      (segments : List String) (client_id expected_issuer expected_nonce jwks_uri : String)
      → Cached Json
  verify_segments (encoded_header ∷ encoded_payload ∷ encoded_signature ∷ []) client_id
        expected_issuer expected_nonce jwks_uri caches =
      then_in (decode_base64_url_json r encoded_header, caches)
        λ header caches.
          then_in (decode_base64_url_json r encoded_payload, caches)
            λ claims caches.
              then_in
                (verify_id_token_signature r out.jwks_at out.fetch jwks_uri header encoded_header
                  encoded_payload encoded_signature caches)
                λ _ caches. (
                  validate_id_token_claims out.claims_at claims client_id expected_issuer
                        expected_nonce
                      >> returned claims,
                  caches,
                )
  verify_segments _ client_id expected_issuer expected_nonce jwks_uri caches =
      (rejected_claims "ID Token の形式が不正です。", caches)

  -- verifyAndDecodeIdToken
  unfoldable pub verify_and_decode_id_token :
      (id_token client_id expected_issuer expected_nonce jwks_uri : String) → Cached Json
  verify_and_decode_id_token id_token = verify_segments (split_on b'.' id_token)

  -- completeOidcAuthorization, which returns the subject.
  unfoldable pub complete_oidc_authorization :
      (code : String) → PendingOidcAuth → Url → Cached String
  complete_oidc_authorization code pending_auth url caches =
      then_in (resolve_oidc_config out.env url, caches)
        λ config caches.
          then_in (get_oidc_discovery out.discovery_at out.fetch config.issuer_url caches)
            λ discovery caches.
              then_in
                (
                  exchange_authorization_code out.post code pending_auth.code_verifier config
                      discovery.token_endpoint,
                  caches,
                )
                λ tokens caches.
                  then_in
                    (verify_and_decode_id_token tokens.id_token config.client_id discovery.issuer
                      pending_auth.nonce discovery.jwks_uri caches)
                    λ claims caches. (subject_of (as_text (property "sub" claims)), caches)
