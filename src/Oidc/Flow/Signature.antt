-- ===== src/Oidc/Flow/Signature.antt =====
-- What it means that the signature of an ID token was verified.
use Prim.Native.String
use history_quiz.Prelude.{
  ℕ, String, ◌≡◌, refl, ap, subst, sym, ◌∙◌, Bool, true, false, Option, List, if◌then◌else◌,
}
use history_quiz.Prelude.Json.{Json}
use history_quiz.Runtime.{Runtime}
use history_quiz.Errors.{bind_inv, Result, returned, ◌>>=◌}
use history_quiz.Oidc.Encoding.{decode_base64_url_bytes}
use history_quiz.Oidc.Cache.Laws.{then_in-eq-returned, fst_eq, snd_eq}
use history_quiz.Oidc.Cache.{Caches, get_jwks_keys}
use history_quiz.Oidc.Claims.{rejected_claims}
use history_quiz.Oidc.Token.{
  of_header, resolve_jwt_algorithm, choose_key, verify_with_key, verify_id_token_signature,
}
use history_quiz.Oidc.Flow.{Outside}

verified_true :
    (b : Bool) (m : String)
    → (if b then returned (tt {0}) else rejected_claims m) ≡ returned tt
    → b ≡ true
verified_true true m h = refl
verified_true false m h = absurd (cc)

module _ (r : Runtime) (out : Outside) where
  -- A token that is signed, in the sense of crypto.subtle.verify, with a key of the key set that
  -- getJwksKeys gives for the URL, the caches being as they are then.
  pub record IsSigned (jwks_uri : String) (caches : Caches) (header : Json) (h p g : String)
      : Type 0 where
    pub hash : String
    pub keys : List Json
    pub key : Json
    pub kid : Option Json
    pub after : Caches
    pub signature : List ℕ
    pub algorithm : (of_header header "alg" >>= resolve_jwt_algorithm) ≡ returned hash
    pub key_id : of_header header "kid" ≡ returned kid
    pub key_set :
        ◌≡◌ {A = Result (List Json) × Caches}
          (get_jwks_keys out.jwks_at out.fetch jwks_uri caches)
          (returned keys, after)
    pub chosen : choose_key kid keys ≡ returned key
    pub decoded : decode_base64_url_bytes r g ≡ returned signature
    pub verified :
        r.verify_signature hash key (String.◌++◌ h (String.◌++◌ "." p)) signature ≡ returned true

  verify_with_key_inv :
      (hash : String) (key : Json) (h p g : String)
      → verify_with_key r hash key h p g ≡ returned tt
      → (s : List ℕ) × (decode_base64_url_bytes r g ≡ returned s)
        × (r.verify_signature hash key (String.◌++◌ h (String.◌++◌ "." p)) s ≡ returned true)
  unfolding verify_with_key
  verify_with_key_inv hash key h p g e =
      let (s, decoded, e1) = bind_inv (decode_base64_url_bytes r g) _ tt e in
      let (b, checked, e2) =
        bind_inv (r.verify_signature hash key (String.◌++◌ h (String.◌++◌ "." p)) s) _ tt e1 in
      (s, decoded, checked ∙ ap returned (verified_true b _ e2))

  pub verify_id_token_signature-IsSigned :
      (jwks_uri : String) (header : Json) (h p g : String) (u : Unit {0}) (c last : Caches)
      → ◌≡◌ {A = Result (Unit {0}) × Caches}
          (verify_id_token_signature r out.jwks_at out.fetch jwks_uri header h p g c)
          (returned u, last)
      → IsSigned jwks_uri c header h p g
  unfolding verify_id_token_signature
  verify_id_token_signature-IsSigned jwks_uri header h p g u c last e =
      let (hash, c1, algorithm, e1) = then_in-eq-returned _ _ u last e in
      let (kid, c2, key_id, e2) = then_in-eq-returned _ _ u last e1 in
      let (keys, c3, key_set, e3) = then_in-eq-returned _ _ u last e2 in
      let (key, c4, chosen, e4) = then_in-eq-returned _ _ u last e3 in
      let (signature, decoded, verified) = verify_with_key_inv hash key h p g (fst_eq e4) in
      record {
        hash = hash;
        keys = keys;
        key = key;
        kid = kid;
        after = c3;
        signature = signature;
        algorithm = fst_eq algorithm;
        key_id = fst_eq key_id;
        key_set =
            subst
              (λ x.
                ◌≡◌ {A = Result (List Json) × Caches}
                  (get_jwks_keys out.jwks_at out.fetch jwks_uri x) (returned keys, c3))
              (sym (snd_eq algorithm ∙ snd_eq key_id)) key_set;
        chosen = fst_eq chosen;
        decoded = decoded;
        verified = verified;
      }
