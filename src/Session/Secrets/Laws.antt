-- ===== src/Session/Secrets/Laws.antt =====
-- Which secrets sign the session cookie.
use history_quiz.Prelude.{
  String, ◌≡◌, ◌≢◌, refl, subst, sym, ◌∙◌, false, Option, none, some, List, [], ◌∷◌, All,
  Bool-cases, inl, inr,
}
use history_quiz.Prelude.Text.{is_empty, trim, trim_idem, non_blank, split_on}
use history_quiz.Errors.{returned}
use history_quiz.Session.Secrets.{present_texts, or_dev_secrets, resolve_session_secrets}

-- A secret that is trimmed and has text.
abbrev pub IsSecret : String → Type 0
IsSecret s = (trim s ≡ s) × (is_empty s ≡ false)

present_texts-IsSecret : (ss : List String) → All IsSecret (present_texts ss)
unfolding present_texts
present_texts-IsSecret [] = tt
present_texts-IsSecret (s ∷ ss) = elim (Bool-cases (is_empty (trim s))) [
  | inl e ↦ rw e (present_texts-IsSecret ss)
  | inr e ↦ rw e ((trim_idem s, e), present_texts-IsSecret ss)
]

-- In production the cookie is signed only with the trimmed, non-empty parts of SESSION_SECRET
-- between its commas, of which there is at least one; the secret of the source code is never used
-- in their place.
pub resolve_session_secrets-production :
    (raw : Option String) (secrets : List String)
    → resolve_session_secrets raw (some "production") ≡ returned secrets
    → (r : String) × (raw ≡ some r)
      × (secrets ≡ present_texts (split_on b',' r))
      × (secrets ≢ [])
      × All IsSecret secrets
unfolding resolve_session_secrets
resolve_session_secrets-production none secrets h = absurd (cc)
resolve_session_secrets-production (some r) secrets h = elim (Bool-cases (non_blank r)) [
  | inl e ↦
      go (present_texts (split_on b',' r)) (present_texts-IsSecret (split_on b',' r)) refl
        (rw e at h)
  | inr e ↦ (let clash = rw e at h in absurd (cc))
]
  where
    go :
        (found : List String)
        → All IsSecret found
        → found ≡ present_texts (split_on b',' r)
        → or_dev_secrets found (some "production") ≡ returned secrets
        → (s : String) × (some r ≡ some s)
          × (secrets ≡ present_texts (split_on b',' s))
          × (secrets ≢ [])
          × All IsSecret secrets
    go [] a e k = absurd (cc)
    go (s ∷ ss) a e k =
        let same : s ∷ ss ≡ secrets = cc in
        (r, refl, sym same ∙ e, (λ x. cc), subst (λ l. All IsSecret l) same a)
