-- ===== src/Question/Schema/Fields.antt =====
-- The fields of the form, and the names under which the backend reports them.
use Prim.Native.Char.{Char, code}
use Prim.Native.String
use history_quiz.Prelude.{
  String, ◌≡◌, inl, inr, refl, sym, ◌∙◌, subst, true, not, ◌||◌, ◌&&◌, Option, none, some, ◌==◌,
  nat_eq, Bool-cases,
}
use history_quiz.Prelude.Decimal.{is_digit, all_digits, is_decimal}
use history_quiz.Prelude.Text.{is_empty}
use history_quiz.Question.Schema.{
  strip_prefix, after, digits_closed, given, index_in, or_match, indexed_choice_match, choice_field,
  map_question_grpc_field_to_conform_field,
}

-- A name of a field of the form: of one of the four, or of a choice with its index.
pub data IsFormField : String → Type 0 where
  prompt_field : IsFormField "prompt"
  choices_field : IsFormField "choices"
  ordinal_field : IsFormField "correctOrdinal"
  explanation_field : IsFormField "explanation"
  indexed_field :
      (index : String)
      → is_decimal index ≡ true
      → IsFormField (String.◌++◌ "choices[" (String.◌++◌ index "]"))

pub some_inj {ℓ} : {A : Type ℓ} {a b : A} → some a ≡ some b → a ≡ b
some_inj h = cc

after_inv :
    (c : Char) (o : Option String) (t : String)
    → after c o ≡ some t
    → (s : String) × (o ≡ some s) × (t ≡ String.◌∷◌ c s)
after_inv c none t h = absurd (cc)
after_inv c (some s) t h = (s, refl, sym (some_inj h))

all_digits-digits_closed : (s t : String) → digits_closed s ≡ some t → all_digits t ≡ true
unfolding digits_closed all_digits
all_digits-digits_closed String.[] t h = absurd (cc)
all_digits-digits_closed (String.◌∷◌ c s) t h =
    elim (Bool-cases (nat_eq (code c) b']' && is_empty s)) [
      | inl e ↦ subst (λ x. all_digits x ≡ true) (some_inj (rw e at h)) refl
      | inr e ↦ elim (Bool-cases (is_digit (code c))) [
        | inl d ↦
            let (ds, found, same) = after_inv c (digits_closed s) t (rw (e, d) at h) in
            let rest = all_digits-digits_closed s ds found in rw (same, d, rest)
        | inr d ↦ (let clash = rw (e, d) at h in absurd (cc))
      ]
    ]

given-decimal :
    (o : Option String) (t : String)
    → ((s : String) → o ≡ some s → all_digits s ≡ true)
    → given o ≡ some t
    → is_decimal t ≡ true
unfolding is_decimal
given-decimal none t d h = absurd (cc)
given-decimal (some s) t d h = elim (Bool-cases (is_empty s)) [
  | inl e ↦ (let clash = rw e at h in absurd (cc))
  | inr e ↦
      let same : s ≡ t = some_inj (rw e at h) in
      let digits = d s refl in
      subst (λ x. (not (is_empty x) && all_digits x) ≡ true) same (rw (e, digits))
]

index_in-decimal : (o : Option String) (t : String) → index_in o ≡ some t → is_decimal t ≡ true
index_in-decimal none t h = absurd (cc)
index_in-decimal (some s) t h = given-decimal (digits_closed s) t (all_digits-digits_closed s) h

indexed-decimal :
    (field index : String) → indexed_choice_match field ≡ some index → is_decimal index ≡ true
unfolding indexed_choice_match
indexed-decimal field index h = go (index_in (strip_prefix "draft.choices[" field)) refl h
  where
    go :
        (o : Option String)
        → index_in (strip_prefix "draft.choices[" field) ≡ o
        → or_match o (index_in (strip_prefix "choices[" field)) ≡ some index
        → is_decimal index ≡ true
    go (some i) e k = index_in-decimal (strip_prefix "draft.choices[" field) index (e ∙ k)
    go none e k = index_in-decimal (strip_prefix "choices[" field) index k

choice_field-IsFormField :
    (o : Option String) (t : String)
    → ((index : String) → o ≡ some index → is_decimal index ≡ true)
    → choice_field o ≡ some t
    → IsFormField t
choice_field-IsFormField none t d h = absurd (cc)
choice_field-IsFormField (some index) t d h =
    subst IsFormField (some_inj h) (indexed_field index (d index refl))

-- A field of the backend that has a name in the form has that of a field of the form.
pub map_field-IsFormField :
    (field t : String) → map_question_grpc_field_to_conform_field field ≡ some t → IsFormField t
unfolding map_question_grpc_field_to_conform_field
map_field-IsFormField field t h = elim (Bool-cases (field == "draft.prompt" || field == "prompt")) [
  | inl a ↦ subst IsFormField (some_inj (rw a at h)) prompt_field
  | inr a ↦ elim (Bool-cases (field == "draft.choices" || field == "choices")) [
    | inl b ↦ subst IsFormField (some_inj (rw (a, b) at h)) choices_field
    | inr b ↦
        elim (Bool-cases (
          field == "draft.correct_ordinal"
          || (field == "draft.correctOrdinal"
              || (field == "correct_ordinal" || field == "correctOrdinal")))) [
                | inl c ↦ subst IsFormField (some_inj (rw (a, b, c) at h)) ordinal_field
                | inr c ↦
                    elim (Bool-cases (field == "draft.explanation" || field == "explanation")) [
                      | inl d ↦
                          subst IsFormField (some_inj (rw (a, b, c, d) at h)) explanation_field
                      | inr d ↦
                          choice_field-IsFormField (indexed_choice_match field) t
                            (indexed-decimal field) (rw (a, b, c, d) at h)
                    ]
              ]
  ]
]
