-- ===== src/GrpcError/Violations.antt =====
-- Field violations in gRPC metadata, of client/app/services/grpc-error.server.ts.
use history_quiz.Prelude.{String, Bool, not, ◌||◌, Option, none, some, List, [], ◌∷◌, if◌then◌else◌}
use history_quiz.Prelude.Dict.{assign}
use history_quiz.Prelude.Json.{Json, arr, obj, items, property, as_text, coalesce}
use history_quiz.Prelude.Text.{is_empty, trim, non_blank}
use history_quiz.Runtime.{Runtime}
use history_quiz.Errors.{FieldViolation, MetadataValue, text, bytes}
use history_quiz.GrpcError.Codes.{or_else}

abbrev pub request_id_metadata_keys : List String
request_id_metadata_keys = "x-request-id" ∷ "request-id" ∷ []

abbrev pub field_violations_metadata_keys : List String
field_violations_metadata_keys =
    "x-field-violations" ∷ "field-violations" ∷ "x-error-field-violations"
    ∷ "error-field-violations" ∷ []

-- hasText
unfoldable pub has_text : Option String → Bool
unfolding non_blank
has_text none = Bool.false
has_text (some s) = non_blank s

-- toFieldViolation
unfoldable pub to_field_violation : Json → Option FieldViolation
unfolding trim property
to_field_violation input =
    let field = trim (or_else (as_text (property "field" input)) "") in
    let candidate = coalesce (property "description" input) (property "message" input) in
    let description = trim (or_else (as_text candidate) "") in
    if is_empty field || is_empty description
    then none
    else some (record { field = field; description = description })

abbrev pub push_present : Option FieldViolation → List FieldViolation → List FieldViolation
push_present none vs = vs
push_present (some v) vs = v ∷ vs

-- .map(toFieldViolation).filter(item => item !== null)
unfoldable pub present_violations : List Json → List FieldViolation
unfolding to_field_violation
present_violations [] = []
present_violations (j ∷ js) = push_present (to_field_violation j) (present_violations js)

abbrev pub violations_of_value : Option Json → List FieldViolation
violations_of_value (some (arr js)) = present_violations (items js)
violations_of_value _ = []

-- coerceFieldViolations
unfoldable pub coerce_field_violations : Json → List FieldViolation
unfolding present_violations property
coerce_field_violations (arr js) = present_violations (items js)
coerce_field_violations (obj fs) =
    violations_of_value
      (coalesce (property "fieldViolations" (obj fs)) (property "field_violations" (obj fs)))
coerce_field_violations _ = []

-- The result where the parse succeeds, and no violation where it throws.
abbrev pub coerce_parsed : Option Json → List FieldViolation
coerce_parsed none = []
coerce_parsed (some parsed) = coerce_field_violations parsed

abbrev pub first_non_empty : List FieldViolation → List FieldViolation → List FieldViolation
first_non_empty [] rest = rest
first_non_empty (v ∷ vs) rest = v ∷ vs

-- toFieldErrors
unfoldable pub to_field_errors_from :
    List (String × String) → List FieldViolation → List (String × String)
unfolding assign
to_field_errors_from mapped [] = mapped
to_field_errors_from mapped (v ∷ vs) = to_field_errors_from (assign v.field v.description mapped) vs

unfoldable pub to_field_errors : List FieldViolation → List (String × String)
unfolding to_field_errors_from
to_field_errors vs = to_field_errors_from [] vs

module _ (r : Runtime) where
  -- getMetadataString
  unfoldable pub get_metadata_string : (String → List MetadataValue) → String → Option String
  get_metadata_string metadata key = elim (metadata key) [
    | [] ↦ none
    | text s ∷ _ ↦ some s
    | bytes b ∷ _ ↦ some (r.decode_utf8 b)
  ]

  -- parseFieldViolationsFromJson
  unfoldable pub parse_field_violations_from_json : String → List FieldViolation
  unfolding coerce_field_violations
  parse_field_violations_from_json value = coerce_parsed (r.parse_json value)

  -- The loop of parseFieldViolations over the metadata keys.
  unfoldable pub parse_field_violations_from :
      (String → List MetadataValue) → List String → List FieldViolation
  unfolding has_text get_metadata_string parse_field_violations_from_json
  parse_field_violations_from metadata [] = []
  parse_field_violations_from metadata (key ∷ keys) =
      let raw = get_metadata_string metadata key in
      let rest = parse_field_violations_from metadata keys in
      if not (has_text raw)
      then rest
      else first_non_empty (parse_field_violations_from_json (or_else raw "")) rest

  -- parseFieldViolations
  unfoldable pub parse_field_violations : Option (String → List MetadataValue) → List FieldViolation
  unfolding parse_field_violations_from
  parse_field_violations none = []
  parse_field_violations (some metadata) =
      parse_field_violations_from metadata field_violations_metadata_keys
