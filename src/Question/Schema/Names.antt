-- ===== src/Question/Schema/Names.antt =====
-- Names of the form that come back as they are.
use Prim.Native.Char.{code}
use Prim.Native.String
use history_quiz.Prelude.{
  String, ◌≡◌, ◌↔◌, inl, inr, refl, ap, sym, ◌∙◌, true, false, ◌&&◌, none, some, ◌==◌, eq_iff,
  nat_eq, leb, arith, Bool-cases,
}
use history_quiz.Prelude.Decimal.{is_digit, all_digits, is_decimal}
use history_quiz.Prelude.Text.{is_empty}
use history_quiz.Question.Schema.{
  strip_prefix, digits_closed, indexed_choice_match, map_question_grpc_field_to_conform_field,
}
use text.Mathlib.TextLemmas.{nil-append, cons-append}
use history_quiz.Question.Schema.Fields.{
  map_field-IsFormField, IsFormField, prompt_field, choices_field, ordinal_field, explanation_field,
  indexed_field,
}

-- A text that starts otherwise than another is not that text.
unlike :
    (start f k rest : String)
    → strip_prefix start f ≡ some rest
    → strip_prefix start k ≡ none
    → (f == k) ≡ false
unlike start f k rest h n = elim (Bool-cases (f == k)) [
  | inl e ↦
      let same = (eq_iff f k).0 e in
      let clash : some rest ≡ none = sym h ∙ ap (strip_prefix start) same ∙ n in absurd (cc)
  | inr e ↦ e
]

strip_prefix-append : (start s : String) → strip_prefix start (String.◌++◌ start s) ≡ some s
unfolding strip_prefix
strip_prefix-append String.[] s = ap some (nil-append s)
strip_prefix-append (String.◌∷◌ c start) s =
    let same : nat_eq (code c) (code c) ≡ true = ground arith in
    rw (cons-append c start s, same) (strip_prefix-append start s)

digits_closed-append :
    (index : String) → all_digits index ≡ true → digits_closed (String.◌++◌ index "]") ≡ some index
unfolding digits_closed all_digits is_digit
digits_closed-append String.[] h = ap digits_closed (nil-append "]")
digits_closed-append (String.◌∷◌ c index) h =
    let digit : (leb b'0' (code c) && leb (code c) b'9') ≡ true = ground arith in
    let rest : all_digits index ≡ true = ground arith in
    let other : nat_eq (code c) b']' ≡ false = ground arith in
    rw (cons-append c index "]", other, digit, digits_closed-append index rest)

-- A choice's name with its index.
abbrev indexed : String → String
indexed index = String.◌++◌ "choices[" (String.◌++◌ index "]")

unlike_indexed :
    (index k : String) → strip_prefix "choices[" k ≡ none → (indexed index == k) ≡ false
unlike_indexed index k n =
    unlike "choices[" (indexed index) k (String.◌++◌ index "]")
      (strip_prefix-append "choices[" (String.◌++◌ index "]")) n

strip_draft : (index : String) → strip_prefix "draft.choices[" (indexed index) ≡ none
unfolding strip_prefix
strip_draft index = rw (cons-append "c" "hoices[" (String.◌++◌ index "]"))

indexed_choice_match-indexed :
    (index : String) → is_decimal index ≡ true → indexed_choice_match (indexed index) ≡ some index
unfolding indexed_choice_match is_decimal
indexed_choice_match-indexed index h =
    let full : is_empty index ≡ false = ground arith in
    let digits : all_digits index ≡ true = ground arith in
    rw (
      strip_draft index,
      strip_prefix-append "choices[" (String.◌++◌ index "]"),
      digits_closed-append index digits,
      full,
    )

map_field_of_IsFormField :
    (t : String) → IsFormField t → map_question_grpc_field_to_conform_field t ≡ some t
unfolding map_question_grpc_field_to_conform_field strip_prefix
map_field_of_IsFormField _ prompt_field = refl
map_field_of_IsFormField _ choices_field = refl
map_field_of_IsFormField _ ordinal_field = refl
map_field_of_IsFormField _ explanation_field = refl
map_field_of_IsFormField _ (indexed_field index h) = rw (
  unlike_indexed index "draft.prompt" refl,
  unlike_indexed index "prompt" refl,
  unlike_indexed index "draft.choices" refl,
  unlike_indexed index "choices" refl,
  unlike_indexed index "draft.correct_ordinal" refl,
  unlike_indexed index "draft.correctOrdinal" refl,
  unlike_indexed index "correct_ordinal" refl,
  unlike_indexed index "correctOrdinal" refl,
  unlike_indexed index "draft.explanation" refl,
  unlike_indexed index "explanation" refl,
  indexed_choice_match-indexed index h,
)

-- The names that the renaming gives are exactly those of the fields of the form, and exactly these
-- are renamed to themselves.
pub map_field-IsFormField_iff :
    (t : String)
    → (((field : String) × (map_question_grpc_field_to_conform_field field ≡ some t))
        ↔ IsFormField t)
      × ((map_question_grpc_field_to_conform_field t ≡ some t) ↔ IsFormField t)
map_field-IsFormField_iff t = (
  ((λ (field, h). map_field-IsFormField field t h), λ f. (t, map_field_of_IsFormField t f)),
  (map_field-IsFormField t t, map_field_of_IsFormField t),
)
