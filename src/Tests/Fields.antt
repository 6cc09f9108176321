-- ===== src/Tests/Fields.antt =====
-- Errors of the backend under several names of one field.
use history_quiz.Prelude.{String, ◌≡◌, ◌↔◌, refl, some, List, [], ◌∷◌}
use history_quiz.Prelude.Decimal.{is_digit}
use history_quiz.Prelude.Dict.{lookup, put, object_entries, array_index}
use history_quiz.Question.Schema.{
  strip_prefix, digits_closed, indexed_choice_match, map_question_grpc_field_to_conform_field,
  convert_errors, to_question_conform_field_errors,
}
use history_quiz.Question.Schema.Fields.{IsFormField}
use history_quiz.Question.Schema.Errors.{
  last_message, lookup-to_question_conform_field_errors,
  to_question_conform_field_errors-IsFormField,
}
use history_quiz.Question.Schema.Names.{map_field-IsFormField_iff}

abbrev backend_errors : List (String × String)
backend_errors =
    ("draft.choices[1]", "first") ∷ ("draft.unknown", "lost") ∷ ("choices[1]", "second") ∷ []

lookup-to_question_conform_field_errors_example :
    lookup "choices[1]" (to_question_conform_field_errors backend_errors)
    ≡ last_message "choices[1]" (object_entries backend_errors)
lookup-to_question_conform_field_errors_example =
    lookup-to_question_conform_field_errors "choices[1]" backend_errors

to_question_conform_field_errors-IsFormField_example : IsFormField "choices[1]"
unfolding lookup to_question_conform_field_errors convert_errors put object_entries array_index
    map_question_grpc_field_to_conform_field indexed_choice_match strip_prefix digits_closed
    is_digit
to_question_conform_field_errors-IsFormField_example =
    to_question_conform_field_errors-IsFormField "choices[1]" backend_errors ("second" ∷ []) refl

map_field-IsFormField_iff_example :
    (((field : String) × (map_question_grpc_field_to_conform_field field ≡ some "choices[12]"))
      ↔ IsFormField "choices[12]")
    × ((map_question_grpc_field_to_conform_field "choices[12]" ≡ some "choices[12]")
        ↔ IsFormField "choices[12]")
map_field-IsFormField_iff_example = map_field-IsFormField_iff "choices[12]"
