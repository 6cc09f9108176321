-- ===== src/Oidc/Cache.antt =====
-- The caches of discovery documents and key sets, of client/app/services/oidc.server.ts. A function
-- that reads or writes them takes the caches and returns them beside its result; what was written
-- before an exception stays.
pub mod Laws
use Prim.Native.String
use history_quiz.Prelude.{
  ℕ, String, ◌+◌, Bool, not, Option, none, some, List, [], ◌∷◌, ltb, if◌then◌else◌,
}
use history_quiz.Prelude.Dict.{lookup, put}
use history_quiz.Prelude.Json.{Json, null, arr, items, property, as_text}
use history_quiz.Errors.{Result, returned, thrown, oidc_flow_error, error, foreign, ◌>>=◌}

pub record OidcDiscoveryDocument : Type 0 where
  pub authorization_endpoint : String
  pub issuer : String
  pub jwks_uri : String
  pub token_endpoint : String

pub record CachedEntry (T : Type 0) : Type 0 where
  pub expires_at : ℕ
  pub value : T

pub record Caches : Type 0 where
  pub discovery : List (String × CachedEntry OidcDiscoveryDocument)
  pub jwks : List (String × CachedEntry (List Json))

abbrev pub cache_ttl_milliseconds : ℕ
cache_ttl_milliseconds = 60000

-- What a fetch gives: a rejection, or an answer with its `ok` and its JSON, `none` if it has none.
pub data Fetched : Type 0 where
  rejected : Fetched
  answered : Bool → Option Json → Fetched

abbrev pub Cached : Type 0 → Type 0
Cached A = Caches → Result A × Caches

abbrev pub then_in : {A B : Type 0} → Result A × Caches → (A → Cached B) → Result B × Caches
then_in (returned a, c) f = f a c
then_in (thrown e, c) f = (thrown e, c)

abbrev pub type_error : String
type_error = "TypeError"

-- parseJson
unfoldable pub parse_json : Option Json → Result Json
parse_json none = thrown (oidc_flow_error "認証サーバーのレスポンスが JSON ではありません。" 502)
parse_json (some json) = returned json

abbrev pub still_valid : {T : Type 0} → ℕ → Option (CachedEntry T) → Option T
still_valid now none = none
still_valid now (some entry) = if ltb now entry.expires_at then some entry.value else none

-- A cached value that has not expired.
unfoldable pub fresh : {T : Type 0} → String → ℕ → List (String × CachedEntry T) → Option T
fresh key now cache = still_valid now (lookup key cache)

abbrev pub malformed_discovery : Result OidcDiscoveryDocument
malformed_discovery = thrown (oidc_flow_error "OIDC Discovery のレスポンス形式が不正です。" 502)

abbrev pub document_of :
    (issuer authorization token jwks : Option String) → Result OidcDiscoveryDocument
document_of (some i) (some a) (some t) (some j) =
    returned (record { authorization_endpoint = a; issuer = i; jwks_uri = j; token_endpoint = t })
document_of _ _ _ _ = malformed_discovery

-- The typeof tests on a discovery answer; reading a property of null throws.
unfoldable pub read_discovery : Json → Result OidcDiscoveryDocument
read_discovery null = thrown (error type_error)
read_discovery parsed =
    document_of (as_text (property "issuer" parsed))
      (as_text (property "authorization_endpoint" parsed))
      (as_text (property "token_endpoint" parsed)) (as_text (property "jwks_uri" parsed))

unfoldable pub discovery_of_fetched : Fetched → Result OidcDiscoveryDocument
discovery_of_fetched rejected = thrown foreign
discovery_of_fetched (answered ok body) =
    if not ok
    then thrown (oidc_flow_error "OIDC Discovery の取得に失敗しました。Authentik の接続設定を確認してください。" 502)
    else (parse_json body >>= read_discovery)

abbrev pub store_discovery :
    String → ℕ → Result OidcDiscoveryDocument → Cached OidcDiscoveryDocument
store_discovery key now (thrown e) caches = (thrown e, caches)
store_discovery key now (returned value) caches = (
  returned value,
  record caches {
    discovery =
        put key (record { expires_at = now + cache_ttl_milliseconds; value = value })
          caches.discovery;
  },
)

abbrev pub cached_or_discovery :
    Option OidcDiscoveryDocument
    → String
    → ℕ
    → Result OidcDiscoveryDocument
    → Cached OidcDiscoveryDocument
cached_or_discovery (some value) key now fetched caches = (returned value, caches)
cached_or_discovery none key now fetched caches = store_discovery key now fetched caches

-- getOidcDiscovery at the time `now`; `fetch` is the answer to a GET of a URL.
unfoldable pub get_oidc_discovery :
    (now : ℕ) (fetch : String → Fetched) → String → Cached OidcDiscoveryDocument
get_oidc_discovery now fetch issuer_url caches =
    cached_or_discovery (fresh issuer_url now caches.discovery) issuer_url now
      (discovery_of_fetched (fetch (String.◌++◌ issuer_url "/.well-known/openid-configuration")))
      caches

abbrev pub empty_jwks : Result (List Json)
empty_jwks = thrown (oidc_flow_error "公開鍵セット（JWKS）が空です。" 502)

abbrev pub non_empty_keys : List Json → Result (List Json)
non_empty_keys [] = empty_jwks
non_empty_keys (k ∷ ks) = returned (k ∷ ks)

abbrev pub keys_of_value : Option Json → Result (List Json)
keys_of_value (some (arr ks)) = non_empty_keys (items ks)
keys_of_value _ = empty_jwks

unfoldable pub read_keys : Json → Result (List Json)
read_keys null = thrown (error type_error)
read_keys parsed = keys_of_value (property "keys" parsed)

unfoldable pub keys_of_fetched : Fetched → Result (List Json)
keys_of_fetched rejected = thrown foreign
keys_of_fetched (answered ok body) =
    if not ok
    then thrown (oidc_flow_error "公開鍵セット（JWKS）の取得に失敗しました。" 502)
    else (parse_json body >>= read_keys)

abbrev pub store_keys : String → ℕ → Result (List Json) → Cached (List Json)
store_keys key now (thrown e) caches = (thrown e, caches)
store_keys key now (returned value) caches = (
  returned value,
  record caches {
    jwks =
        put key (record { expires_at = now + cache_ttl_milliseconds; value = value }) caches.jwks;
  },
)

abbrev pub cached_or_keys :
    Option (List Json) → String → ℕ → Result (List Json) → Cached (List Json)
cached_or_keys (some value) key now fetched caches = (returned value, caches)
cached_or_keys none key now fetched caches = store_keys key now fetched caches

-- getJwksKeys
unfoldable pub get_jwks_keys : (now : ℕ) (fetch : String → Fetched) → String → Cached (List Json)
get_jwks_keys now fetch jwks_uri caches =
    cached_or_keys (fresh jwks_uri now caches.jwks) jwks_uri now (keys_of_fetched (fetch jwks_uri))
      caches
