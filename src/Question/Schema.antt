-- ===== src/Question/Schema.antt =====
-- The form of a question and the names of its fields: client/app/schemas/question.ts and
-- client/app/schemas/common.ts.
pub mod Errors
pub mod Fields
pub mod Names
use Prim.Native.Char.{Char, code}
use Prim.Native.String
use history_quiz.Prelude.{
  ℕ, ◌+◌, ◌≤◌, ◌≡◌, String, Bool, ◌||◌, ◌&&◌, Option, none, some, List, [], ◌∷◌, ◌==◌, All, length,
  nat_eq, leb, if◌then◌else◌,
}
use history_quiz.Prelude.Decimal.{is_digit}
use history_quiz.Prelude.Dict.{put, object_entries}
use history_quiz.Prelude.Text.{is_empty, trim}
use history_quiz.Question.{QuestionDraft}

abbrev pub question_choices_count : ℕ
question_choices_count = 4

abbrev pub max_explanation_length : ℕ
max_explanation_length = 500

-- `length` of a JavaScript text, in UTF-16 code units.
unfoldable pub utf16_length : String → ℕ
utf16_length String.[] = 0
utf16_length (String.◌∷◌ c s) = (if leb 65536 (code c) then 2 else 1) + utf16_length s

-- What requiredText lets through: a trimmed text of at least one character.
abbrev pub IsRequiredText : String → Type 0
IsRequiredText s = (trim s ≡ s) × (is_empty s ≡ Bool.false)

-- What createQuestionFormSchema lets through.
pub record IsQuestionForm (d : QuestionDraft) : Type 0 where
  pub prompt_given : IsRequiredText d.prompt
  pub choices_given : All IsRequiredText d.choices
  pub choices_counted : length d.choices ≡ question_choices_count
  pub ordinal_valid : d.correct_ordinal ≤ 3
  pub explanation_trimmed : trim d.explanation ≡ d.explanation
  pub explanation_short : utf16_length d.explanation ≤ max_explanation_length

-- The rest of a text behind a prefix.
unfoldable pub strip_prefix : (prefix s : String) → Option String
strip_prefix String.[] s = some s
strip_prefix (String.◌∷◌ p ps) String.[] = none
strip_prefix (String.◌∷◌ p ps) (String.◌∷◌ c s) =
    let rest = strip_prefix ps s in if nat_eq (code p) (code c) then rest else none

abbrev pub after : Char → Option String → Option String
after c none = none
after c (some s) = some (String.◌∷◌ c s)

-- The digits of a text that consists of digits and one closing bracket: /^(\d*)\]$/.
unfoldable pub digits_closed : String → Option String
digits_closed String.[] = none
digits_closed (String.◌∷◌ c s) =
    let rest = after c (digits_closed s) in
    if nat_eq (code c) b']' && is_empty s then some "" else if is_digit (code c) then rest else none

abbrev pub given : Option String → Option String
given none = none
given (some s) = if is_empty s then none else some s

-- The group of /^(\d+)\]$/ on what is left of a match of the prefix.
abbrev pub index_in : Option String → Option String
index_in none = none
index_in (some rest) = given (digits_closed rest)

-- a ?? b, of two matches.
abbrev pub or_match : Option String → Option String → Option String
or_match none second = second
or_match (some index) second = some index

-- field.match of the two patterns with an index.
unfoldable pub indexed_choice_match : String → Option String
indexed_choice_match field =
    or_match (index_in (strip_prefix "draft.choices[" field))
      (index_in (strip_prefix "choices[" field))

abbrev pub choice_field : Option String → Option String
choice_field none = none
choice_field (some index) = some (String.◌++◌ "choices[" (String.◌++◌ index "]"))

-- mapQuestionGrpcFieldToConformField
unfoldable pub map_question_grpc_field_to_conform_field : String → Option String
map_question_grpc_field_to_conform_field field =
    if field == "draft.prompt" || field == "prompt"
    then some "prompt"
    else if field == "draft.choices" || field == "choices"
    then some "choices"
    else if field == "draft.correct_ordinal"
        || (field == "draft.correctOrdinal"
            || (field == "correct_ordinal" || field == "correctOrdinal"))
    then some "correctOrdinal"
    else if field == "draft.explanation" || field == "explanation"
    then some "explanation"
    else choice_field (indexed_choice_match field)

abbrev pub add_error :
    Option String → String → List (String × List String) → List (String × List String)
add_error none message converted = converted
add_error (some mapped) message converted = put mapped (message ∷ []) converted

-- The loop of toQuestionConformFieldErrors. No mapped field is empty or `__proto__`.
unfoldable pub convert_errors :
    List (String × List String) → List (String × String) → List (String × List String)
convert_errors converted [] = converted
convert_errors converted ((field, message) ∷ entries) =
    convert_errors (add_error (map_question_grpc_field_to_conform_field field) message converted)
      entries

-- toQuestionConformFieldErrors
unfoldable pub to_question_conform_field_errors :
    List (String × String) → List (String × List String)
to_question_conform_field_errors field_errors = convert_errors [] (object_entries field_errors)
