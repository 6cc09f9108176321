-- ===== src/Oidc/Token.antt =====
-- ID tokens: their signature and the exchange that gives them, of
-- client/app/services/oidc.server.ts.
use Prim.Native.String
use history_quiz.Prelude.{
  ℕ, String, Bool, true, false, not, Option, none, some, List, [], ◌∷◌, ◌==◌, nat_eq, if◌then◌else◌,
}
use history_quiz.Prelude.Json.{Json, null, bool, nat, str, property, as_text}
use history_quiz.Runtime.{Runtime}
use history_quiz.Errors.{Result, returned, thrown, oidc_flow_error, error, foreign, ◌>>=◌}
use history_quiz.Oidc.Encoding.{decode_base64_url_bytes}
use history_quiz.Oidc.Config.{OidcResolvedConfig}
use history_quiz.Oidc.Cache.{
  Fetched, rejected, answered, Cached, then_in, type_error, parse_json, get_jwks_keys,
}
use history_quiz.Oidc.Claims.{rejected_claims, is_text}

pub record OidcTokenResponse : Type 0 where
  pub access_token : String
  pub id_token : String
  pub token_type : String

-- The form that exchangeAuthorizationCode posts.
abbrev pub token_request_body : String → String → OidcResolvedConfig → List (String × String)
token_request_body code code_verifier config =
    ("client_id", config.client_id)
    ∷ ("client_secret", config.client_secret)
    ∷ ("code", code)
    ∷ ("code_verifier", code_verifier)
    ∷ ("grant_type", "authorization_code")
    ∷ ("redirect_uri", config.redirect_uri)
    ∷ []

abbrev pub tokens_of : (access id token_type : Option String) → Result OidcTokenResponse
tokens_of (some a) (some i) (some t) =
    returned (record { access_token = a; id_token = i; token_type = t })
tokens_of _ _ _ = thrown (oidc_flow_error "トークンレスポンスが不正です。" 502)

abbrev pub has_error : Option String → Bool
has_error none = false
has_error (some e) = true

-- The tests on the JSON of a good token answer; reading a property of null throws.
unfoldable pub read_token_fields : Json → Result OidcTokenResponse
read_token_fields null = thrown (error type_error)
read_token_fields parsed =
    if has_error (as_text (property "error" parsed))
    then thrown (oidc_flow_error "認証サーバーからエラーが返されました。再度ログインしてください。" 401)
    else tokens_of (as_text (property "access_token" parsed)) (as_text (property "id_token" parsed))
        (as_text (property "token_type" parsed))

unfoldable pub read_tokens : Bool → Json → Result OidcTokenResponse
read_tokens ok parsed =
    if not ok
    then thrown (oidc_flow_error "認証サーバーでトークン交換に失敗しました。時間をおいて再度お試しください。" 502)
    else read_token_fields parsed

unfoldable pub tokens_of_fetched : Fetched → Result OidcTokenResponse
tokens_of_fetched rejected = thrown foreign
tokens_of_fetched (answered ok body) = parse_json body >>= read_tokens ok

-- exchangeAuthorizationCode; `post` is the answer to a POST of a form to a URL.
unfoldable pub exchange_authorization_code :
    (post : String → List (String × String) → Fetched) (code code_verifier : String)
    → OidcResolvedConfig
    → (token_endpoint : String) → Result OidcTokenResponse
exchange_authorization_code post code code_verifier config token_endpoint =
    tokens_of_fetched (post token_endpoint (token_request_body code code_verifier config))

-- The text of `${alg}`, for a text; other values of a header print otherwise.
abbrev pub unsupported : Option Json → String
unsupported (some (str alg)) = String.◌++◌ "サポートしていない署名アルゴリズムです: " alg
unsupported _ = "サポートしていない署名アルゴリズムです: "

-- resolveJwtAlgorithm: the hash of the RSASSA-PKCS1-v1_5 algorithm.
unfoldable pub resolve_jwt_algorithm : Option Json → Result String
resolve_jwt_algorithm alg =
    if is_text alg "RS256"
    then returned "SHA-256"
    else if is_text alg "RS384"
    then returned "SHA-384"
    else if is_text alg "RS512"
    then returned "SHA-512"
    else rejected_claims (unsupported alg)

-- A truthy `kid`.
abbrev pub is_truthy : Option Json → Bool
is_truthy none = false
is_truthy (some null) = false
is_truthy (some (bool b)) = b
is_truthy (some (nat n)) = not (nat_eq n 0)
is_truthy (some (str s)) = not (s == "")
is_truthy (some _) = true

-- candidate.kid === kid, for the values that a `kid` has: texts and natural numbers.
abbrev pub same_kid : Option Json → Option Json → Bool
same_kid (some (str s)) (some (str t)) = s == t
same_kid (some (nat m)) (some (nat n)) = nat_eq m n
same_kid _ _ = false

abbrev pub missing_key : Result Json
missing_key = thrown (oidc_flow_error "ID Token 検証に必要な公開鍵が見つかりません。" 401)

-- keys.find((candidate) => candidate.kid === kid); a key null has no property.
unfoldable pub find_key : Option Json → List Json → Result Json
find_key kid [] = missing_key
find_key kid (null ∷ ks) = thrown (error type_error)
find_key kid (k ∷ ks) =
    let rest = find_key kid ks in if same_kid (property "kid" k) kid then returned k else rest

abbrev pub first_key : List Json → Result Json
first_key [] = missing_key
first_key (k ∷ ks) = if is_truthy (some k) then returned k else missing_key

-- The choice that findJwkByKid makes among the keys.
unfoldable pub choose_key : Option Json → List Json → Result Json
choose_key kid keys = if is_truthy kid then find_key kid keys else first_key keys

-- header.name, which throws if the header is null.
abbrev pub of_header : Json → String → Result (Option Json)
of_header null name = thrown (error type_error)
of_header header name = returned (property name header)

module _ (r : Runtime) where
  -- The verification that verifyIdTokenSignature makes with a key.
  unfoldable pub verify_with_key :
      (hash : String) (jwk : Json) (encoded_header encoded_payload encoded_signature : String)
      → Result (Unit {0})
  verify_with_key hash jwk encoded_header encoded_payload encoded_signature = do
    signature ← decode_base64_url_bytes r encoded_signature
    verified ←
        r.verify_signature hash jwk (String.◌++◌ encoded_header (String.◌++◌ "." encoded_payload))
          signature
    if verified then returned tt else rejected_claims "ID Token 署名の検証に失敗しました。"

  module _ (now : ℕ) (fetch : String → Fetched) (jwks_uri : String) where
    -- verifyIdTokenSignature
    unfoldable pub verify_id_token_signature :
        (header : Json) (encoded_header encoded_payload encoded_signature : String)
        → Cached (Unit {0})
    verify_id_token_signature header encoded_header encoded_payload encoded_signature caches =
        then_in (of_header header "alg" >>= resolve_jwt_algorithm, caches)
          λ hash caches.
            then_in (of_header header "kid", caches)
              λ kid caches. then_in (get_jwks_keys now fetch jwks_uri caches) λ keys caches.
                then_in (choose_key kid keys, caches)
                  λ jwk caches. (
                    verify_with_key hash jwk encoded_header encoded_payload encoded_signature,
                    caches,
                  )
