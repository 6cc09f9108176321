-- ===== src/Question/Schema/Errors.antt =====
-- The errors of the form against those of the backend.
use history_quiz.Prelude.{
  String, ◌≡◌, inl, inr, refl, ap, sym, ◌∙◌, subst, Bool, false, Option, none, some, List, [], ◌∷◌,
  ◌==◌, eq_iff, if◌then◌else◌, Bool-cases,
}
use history_quiz.Prelude.Dict.{lookup, lookup-put, object_entries}
use history_quiz.Question.Schema.{
  map_question_grpc_field_to_conform_field, add_error, convert_errors,
  to_question_conform_field_errors,
}
use history_quiz.Question.Schema.Fields.{IsFormField, map_field-IsFormField}

-- Whether a field of the backend has the name `t` in the form.
abbrev pub is_named : String → Option String → Bool
is_named t none = false
is_named t (some mapped) = mapped == t

abbrev pub later : Option (List String) → Option (List String) → Option (List String)
later none first = first
later (some ms) first = some ms

-- The message of the last entry that has the name `t` in the form.
abbrev pub last_message : String → List (String × String) → Option (List String)
last_message t [] = none
last_message t ((field, message) ∷ entries) = later (last_message t entries) (
    if is_named t (map_question_grpc_field_to_conform_field field)
    then some (message ∷ [])
    else none)

later_assoc : (a b c : Option (List String)) → later a (later b c) ≡ later (later a b) c
later_assoc none b c = refl
later_assoc (some a) b c = refl

lookup-add_error :
    (t message : String) (o : Option String) (converted : List (String × List String))
    → lookup t (add_error o message converted)
      ≡ later (if is_named t o then some (message ∷ []) else none) (lookup t converted)
lookup-add_error t message none converted = refl
lookup-add_error t message (some mapped) converted = elim (Bool-cases (mapped == t)) [
  | inl e ↦ rw (lookup-put, e)
  | inr e ↦ rw (lookup-put, e)
]

lookup-convert_errors :
    (t : String) (entries : List (String × String)) (converted : List (String × List String))
    → lookup t (convert_errors converted entries)
      ≡ later (last_message t entries) (lookup t converted)
unfolding convert_errors
lookup-convert_errors t [] converted = refl
lookup-convert_errors t ((field, message) ∷ entries) converted =
    lookup-convert_errors t entries
      (add_error (map_question_grpc_field_to_conform_field field) message converted)
    ∙ ap (later (last_message t entries))
        (lookup-add_error t message (map_question_grpc_field_to_conform_field field) converted)
    ∙ later_assoc (last_message t entries) _ (lookup t converted)

later-none : (o : Option (List String)) → later o none ≡ o
later-none none = refl
later-none (some ms) = refl

-- The error of a field of the form is the message of the last of the backend's fields that has that
-- name in the form, alone, and there is none if no such field has an error.
pub lookup-to_question_conform_field_errors :
    (t : String) (field_errors : List (String × String))
    → lookup t (to_question_conform_field_errors field_errors)
      ≡ last_message t (object_entries field_errors)
unfolding to_question_conform_field_errors
lookup-to_question_conform_field_errors t field_errors =
    lookup-convert_errors t (object_entries field_errors) []
    ∙ (unfold lookup in later-none (last_message t (object_entries field_errors)))

named-IsFormField :
    (t : String) (entries : List (String × String)) (ms : List String)
    → last_message t entries ≡ some ms
    → IsFormField t
named-IsFormField t [] ms h = absurd (cc)
named-IsFormField t ((field, message) ∷ entries) ms h =
    go (λ other e. named-IsFormField t entries other e) (last_message t entries) refl h
  where
    of_name :
        (o : Option String)
        → map_question_grpc_field_to_conform_field field ≡ o
        → (if is_named t o then some (message ∷ []) else none) ≡ some ms
        → IsFormField t
    of_name none e k = absurd (cc)
    of_name (some mapped) e k = elim (Bool-cases (mapped == t)) [
      | inl s ↦ subst IsFormField ((eq_iff mapped t).0 s) (map_field-IsFormField field mapped e)
      | inr s ↦ (let clash = rw s at k in absurd (cc))
    ]

    go :
        ((other : List String) → last_message t entries ≡ some other → IsFormField t)
        → (o : Option (List String)) → last_message t entries ≡ o
        → later o (
            if is_named t (map_question_grpc_field_to_conform_field field)
            then some (message ∷ [])
            else none)
          ≡ some ms
        → IsFormField t
    go before none e k = of_name (map_question_grpc_field_to_conform_field field) refl k
    go before (some other) e k = before other e

-- Every name that has an error is that of a field of the form: of the prompt, the choices, the
-- correct choice, the explanation, or of a choice with a decimal index.
pub to_question_conform_field_errors-IsFormField :
    (t : String) (field_errors : List (String × String)) (ms : List String)
    → lookup t (to_question_conform_field_errors field_errors) ≡ some ms
    → IsFormField t
to_question_conform_field_errors-IsFormField t field_errors ms h =
    named-IsFormField t (object_entries field_errors) ms
      (sym (lookup-to_question_conform_field_errors t field_errors) ∙ h)
