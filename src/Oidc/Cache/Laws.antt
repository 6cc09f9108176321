-- ===== src/Oidc/Cache/Laws.antt =====
-- What the caches keep.
use Prim.Native.String
use history_quiz.Prelude.{
  ℕ, String, ◌+◌, ◌<◌, ◌≡◌, refl, ap, true, Option, none, some, List, ltb, ◌==◌, eq_refl, arith,
}
use history_quiz.Prelude.Json.{Json}
use history_quiz.Prelude.Dict.{put, lookup-put}
use history_quiz.Errors.{Result, returned, thrown, Thrown}
use history_quiz.Oidc.Cache.{
  OidcDiscoveryDocument, CachedEntry, Cached, Caches, then_in, cache_ttl_milliseconds, Fetched,
  fresh, discovery_of_fetched, cached_or_discovery, get_oidc_discovery, keys_of_fetched,
  get_jwks_keys,
}

-- Inversion of a step that returned.
pub then_in-eq-returned :
    {A B : Type 0} (m : Result A × Caches) (f : A → Cached B) (b : B) (last : Caches)
    → ◌≡◌ {A = Result B × Caches} (then_in m f) (returned b, last)
    → (a : A) × (c : Caches) × (◌≡◌ {A = Result A × Caches} m (returned a, c))
      × (◌≡◌ {A = Result B × Caches} (f a c) (returned b, last))
then_in-eq-returned (returned a, c) f b last h = (a, c, refl, h)
then_in-eq-returned (thrown e, c) f b last h = absurd (cc (ap (λ p. p.0) h))

-- The result of an equation between steps.
pub fst_eq :
    {A : Type 0} {m n : Result A} {c d : Caches} → ◌≡◌ {A = Result A × Caches} (m, c) (n, d) → m ≡ n
fst_eq h = ap (λ p. p.0) h

-- The caches of an equation between steps.
pub snd_eq :
    {A : Type 0} {m n : Result A} {c d : Caches} → ◌≡◌ {A = Result A × Caches} (m, c) (n, d) → c ≡ d
snd_eq h = ap (λ p. p.1) h

fresh-put :
    {T : Type 0} (key : String) (now later : ℕ) (value : T) (cache : List (String × CachedEntry T))
    → later < now + cache_ttl_milliseconds
    → fresh key later
        (put key (record { expires_at = now + cache_ttl_milliseconds; value = value }) cache)
      ≡ some value
unfolding fresh
fresh-put key now later value cache lt =
    let same : (key == key) ≡ true = eq_refl key in
    let valid : ltb later (now + cache_ttl_milliseconds) ≡ true = ground arith in
    rw (
      lookup-put key key (record { expires_at = now + cache_ttl_milliseconds; value = value })
          cache,
      same,
      valid,
    )

abbrev pub discovery_fetched :
    (fetch : String → Fetched) (issuer : String) → Result OidcDiscoveryDocument
discovery_fetched fetch issuer =
    discovery_of_fetched (fetch (String.◌++◌ issuer "/.well-known/openid-configuration"))

-- A document that was fetched is what every later call gets until its sixty seconds are over,
-- whatever the provider answers then, and the caches stay as they are.
pub get_oidc_discovery-cached :
    (now later : ℕ) (fetch fetch_later : String → Fetched) (issuer : String) (caches : Caches)
    (document : OidcDiscoveryDocument)
    → fresh issuer now caches.discovery ≡ none
    → discovery_fetched fetch issuer ≡ returned document
    → later < now + cache_ttl_milliseconds
    → ◌≡◌ {A = Result OidcDiscoveryDocument × Caches}
        (get_oidc_discovery later fetch_later issuer (get_oidc_discovery now fetch issuer caches).1)
        (returned document, (get_oidc_discovery now fetch issuer caches).1)
unfolding get_oidc_discovery
get_oidc_discovery-cached now later fetch fetch_later issuer caches document m f lt =
    rw (m, f, fresh-put issuer now later document caches.discovery lt)

-- A failed request for a document leaves the caches as they were.
pub get_oidc_discovery-failed :
    (now : ℕ) (fetch : String → Fetched) (issuer : String) (caches : Caches) (e : Thrown)
    → (get_oidc_discovery now fetch issuer caches).0 ≡ thrown e
    → (get_oidc_discovery now fetch issuer caches).1 ≡ caches
unfolding get_oidc_discovery
get_oidc_discovery-failed now fetch issuer caches e h =
    go (fresh issuer now caches.discovery) (discovery_fetched fetch issuer) h
  where
    go :
        (o : Option OidcDiscoveryDocument) (m : Result OidcDiscoveryDocument)
        → (cached_or_discovery o issuer now m caches).0 ≡ thrown e
        → (cached_or_discovery o issuer now m caches).1 ≡ caches
    go (some d) m k = refl
    go none (thrown x) k = refl
    go none (returned d) k = absurd (cc)

-- A key set that was fetched is what every later call gets until its sixty seconds are over,
-- whatever the provider answers then, and the caches stay as they are.
pub get_jwks_keys-cached :
    (now later : ℕ) (fetch fetch_later : String → Fetched) (uri : String) (caches : Caches)
    (keys : List Json)
    → fresh uri now caches.jwks ≡ none
    → keys_of_fetched (fetch uri) ≡ returned keys
    → later < now + cache_ttl_milliseconds
    → ◌≡◌ {A = Result (List Json) × Caches}
        (get_jwks_keys later fetch_later uri (get_jwks_keys now fetch uri caches).1)
        (returned keys, (get_jwks_keys now fetch uri caches).1)
unfolding get_jwks_keys
get_jwks_keys-cached now later fetch fetch_later uri caches keys m f lt =
    rw (m, f, fresh-put uri now later keys caches.jwks lt)
