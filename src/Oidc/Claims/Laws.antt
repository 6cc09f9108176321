-- ===== src/Oidc/Claims/Laws.antt =====
-- Which claims pass.
use history_quiz.Prelude.{
  ℕ, String, ◌≡◌, ◌↔◌, ◌⊎◌, ◌+◌, ◌/◌, ◌<◌, inl, inr, refl, Bool, true, false, not, Option, none,
  some, List, [], ◌∷◌, eq_iff, eq_refl, any, arith, Bool-cases,
}
use history_quiz.Prelude.Json.{
  Json, null, bool, nat, fraction, negative, str, arr, obj, items, property,
}
use history_quiz.Prelude.Text.{non_blank, trim}
use history_quiz.Errors.{Result, returned, thrown, ◌>>◌}
use history_quiz.Oidc.Claims.{
  check_claims, is_text, is_audience_matched, check_sub, is_expired, require_that,
  validate_id_token_claims,
}

-- One of the values is the text.
abbrev pub Holds : String → List Json → Type 0
Holds t [] = ⊥
Holds t (j ∷ js) = (j ≡ str t) ⊎ Holds t js

-- The audience is the client, or a list that holds it.
abbrev pub IsFor : String → Option Json → Type 0
IsFor client_id none = ⊥
IsFor client_id (some (str s)) = s ≡ client_id
IsFor client_id (some (arr js)) = Holds client_id (items js)
IsFor client_id (some _) = ⊥

-- The time of expiry is a number, and at most thirty seconds past.
abbrev pub IsCurrent : ℕ → Option Json → Type 0
IsCurrent now_in_seconds none = ⊥
IsCurrent now_in_seconds (some (nat n)) = now_in_seconds < n + 30
IsCurrent now_in_seconds (some (fraction n)) = now_in_seconds < n + 1 + 30
IsCurrent now_in_seconds (some _) = ⊥

-- What a client has to check of an ID token's claims, and the subject that it may then trust.
pub record IsAccepted (now : ℕ) (claims : Json) (client_id issuer nonce subject : String)
    : Type 0 where
  pub sub : property "sub" claims ≡ some (str subject)
  pub sub_present : non_blank subject ≡ true
  pub iss : property "iss" claims ≡ some (str issuer)
  pub aud : IsFor client_id (property "aud" claims)
  pub exp : IsCurrent (now / 1000) (property "exp" claims)
  pub nonce_same : property "nonce" claims ≡ some (str nonce)

is_text_iff : (o : Option Json) (t : String) → (is_text o t ≡ true) ↔ (o ≡ some (str t))
is_text_iff (some (str s)) t = (λ h. ground (arith, eq_iff s t), λ h. ground (arith, eq_iff s t))
is_text_iff none t = ((λ h. cc), (λ h. cc))
is_text_iff (some null) t = ((λ h. cc), (λ h. cc))
is_text_iff (some (bool b)) t = ((λ h. cc), (λ h. cc))
is_text_iff (some (nat b)) t = ((λ h. cc), (λ h. cc))
is_text_iff (some (fraction b)) t = ((λ h. cc), (λ h. cc))
is_text_iff (some negative) t = ((λ h. cc), (λ h. cc))
is_text_iff (some (arr b)) t = ((λ h. cc), (λ h. cc))
is_text_iff (some (obj b)) t = ((λ h. cc), (λ h. cc))

any-Holds : (t : String) (js : List Json) → any (λ j. is_text (some j) t) js ≡ true → Holds t js
any-Holds t [] h = cc
any-Holds t (j ∷ js) h = elim (Bool-cases (is_text (some j) t)) [
  | inl e ↦
      let same : ◌≡◌ {A = Option Json} (some j) (some (str t)) = (is_text_iff (some j) t).0 e in
      inl (cc)
  | inr e ↦ inr (any-Holds t js (rw e at h))
]

any_of_Holds : (t : String) (js : List Json) → Holds t js → any (λ j. is_text (some j) t) js ≡ true
any_of_Holds t [] h = absurd h
any_of_Holds t (j ∷ js) (inl e) = rw (e, eq_refl t)
any_of_Holds t (j ∷ js) (inr k) = elim (Bool-cases (is_text (some j) t)) [
  | inl e ↦ rw e
  | inr e ↦ rw e (any_of_Holds t js k)
]

is_audience_matched_iff :
    (o : Option Json) (c : String) → (is_audience_matched o c ≡ true) ↔ IsFor c o
unfolding is_audience_matched
is_audience_matched_iff (some (str s)) c = eq_iff s c
is_audience_matched_iff (some (arr js)) c = (any-Holds c (items js), any_of_Holds c (items js))
is_audience_matched_iff none c = ((λ h. cc), (λ h. absurd h))
is_audience_matched_iff (some null) t = ((λ h. cc), (λ h. absurd h))
is_audience_matched_iff (some (bool b)) t = ((λ h. cc), (λ h. absurd h))
is_audience_matched_iff (some (nat b)) t = ((λ h. cc), (λ h. absurd h))
is_audience_matched_iff (some (fraction b)) t = ((λ h. cc), (λ h. absurd h))
is_audience_matched_iff (some negative) t = ((λ h. cc), (λ h. absurd h))
is_audience_matched_iff (some (obj b)) t = ((λ h. cc), (λ h. absurd h))

is_expired_iff : (o : Option Json) (now : ℕ) → (is_expired o now ≡ false) ↔ IsCurrent now o
unfolding is_expired
is_expired_iff (some (nat n)) now = ((λ h. ground arith), (λ h. ground arith))
is_expired_iff (some (fraction n)) now = ((λ h. ground arith), (λ h. ground arith))
is_expired_iff none c = ((λ h. cc), (λ h. absurd h))
is_expired_iff (some null) t = ((λ h. cc), (λ h. absurd h))
is_expired_iff (some (bool b)) t = ((λ h. cc), (λ h. absurd h))
is_expired_iff (some (str b)) t = ((λ h. cc), (λ h. absurd h))
is_expired_iff (some (arr b)) t = ((λ h. cc), (λ h. absurd h))
is_expired_iff (some negative) t = ((λ h. cc), (λ h. absurd h))
is_expired_iff (some (obj b)) t = ((λ h. cc), (λ h. absurd h))

check_sub_text :
    (o : Option Json)
    → check_sub o ≡ returned tt
    → (s : String) × (o ≡ some (str s)) × (non_blank s ≡ true)
unfolding check_sub
check_sub_text (some (str s)) h = (s, refl, ground arith)
check_sub_text none h = absurd (cc)
check_sub_text (some null) h = absurd (cc)
check_sub_text (some (bool b)) h = absurd (ground arith)
check_sub_text (some (nat b)) h = absurd (ground arith)
check_sub_text (some (fraction b)) h = absurd (cc)
check_sub_text (some negative) h = absurd (cc)
check_sub_text (some (arr b)) h = absurd (cc)
check_sub_text (some (obj b)) h = absurd (cc)

non_blank-empty : non_blank "" ≡ false
unfolding non_blank trim
non_blank-empty = refl

check_sub_of_text : (s : String) → non_blank s ≡ true → check_sub (some (str s)) ≡ returned tt
unfolding check_sub
check_sub_of_text String.[] h = absurd (cc (non_blank-empty))
check_sub_of_text (String.◌∷◌ c s) h = rw h

then-eq-returned :
    (m n : Result (Unit {0})) → (m >> n) ≡ returned tt → (m ≡ returned tt) × (n ≡ returned tt)
then-eq-returned (returned u) n h = (refl, h)
then-eq-returned (thrown e) n h = absurd (cc)

require_that-true : (b : Bool) (m : String) → require_that b m ≡ returned tt → b ≡ true
require_that-true true m h = refl
require_that-true false m h = absurd (cc)

not-true : (b : Bool) → not b ≡ true → b ≡ false
not-true true h = cc
not-true false h = refl

check_claims-IsAccepted :
    (now : ℕ) (claims : Json) (c i n : String)
    → check_claims now claims c i n ≡ returned tt
    → (subject : String) × IsAccepted now claims c i n subject
unfolding check_claims
check_claims-IsAccepted now claims c i n h =
    let (a, h1) = then-eq-returned _ _ h in
    let (b, h2) = then-eq-returned _ _ h1 in
    let (d, h3) = then-eq-returned _ _ h2 in
    let (e, f) = then-eq-returned _ _ h3 in
    let (s, is_sub, present) = check_sub_text (property "sub" claims) a in
    (
      s,
      record {
        sub = is_sub;
        sub_present = present;
        iss = (is_text_iff (property "iss" claims) i).0 (require_that-true _ _ b);
        aud = (is_audience_matched_iff (property "aud" claims) c).0 (require_that-true _ _ d);
        exp =
            (is_expired_iff (property "exp" claims) (now / 1000)).0
              (not-true _ (require_that-true _ _ e));
        nonce_same = (is_text_iff (property "nonce" claims) n).0 (require_that-true _ _ f);
      },
    )

check_claims_of_IsAccepted :
    (now : ℕ) (claims : Json) (c i n subject : String)
    → IsAccepted now claims c i n subject
    → check_claims now claims c i n ≡ returned tt
unfolding check_claims
check_claims_of_IsAccepted now claims c i n s a = rw (
  a.sub,
  check_sub_of_text s a.sub_present,
  (is_text_iff (property "iss" claims) i).1 a.iss,
  (is_audience_matched_iff (property "aud" claims) c).1 a.aud,
  (is_expired_iff (property "exp" claims) (now / 1000)).1 a.exp,
  (is_text_iff (property "nonce" claims) n).1 a.nonce_same,
)

-- Claims pass exactly when they name a subject that is not blank, the expected issuer and nonce, an
-- audience that is or holds the client, and a time of expiry less than thirty seconds past.
pub validate_id_token_claims_iff :
    (now : ℕ) (claims : Json) (client_id issuer nonce : String)
    → (validate_id_token_claims now claims client_id issuer nonce ≡ returned tt)
      ↔ ((subject : String) × IsAccepted now claims client_id issuer nonce subject)
unfolding validate_id_token_claims
validate_id_token_claims_iff now null c i n =
    ((λ h. absurd (cc)), (λ (s, a). absurd (let e = a.sub in unfold property in cc e)))
validate_id_token_claims_iff now claims c i n = (
  check_claims-IsAccepted now claims c i n,
  λ (s, a). check_claims_of_IsAccepted now claims c i n s a,
)
