-- ===== src/GrpcError/Fields.antt =====
-- What the field violations and field errors of an error answer are.
use history_quiz.Prelude.{
  String, ◌≡◌, ◌≢◌, refl, false, ◌||◌, Option, none, some, List, [], ◌∷◌, ◌==◌, if◌then◌else◌,
  arith, Bool-cases, inl, inr, All, eq_iff,
}
use history_quiz.Prelude.Dict.{lookup, put, assign, lookup-put}
use history_quiz.Prelude.Json.{Json, arr, obj, items, property, as_text, coalesce}
use history_quiz.Prelude.Text.{is_empty, trim, trim_idem}
use history_quiz.Runtime.{Runtime}
use history_quiz.Errors.{FieldViolation, MetadataValue}
use history_quiz.GrpcError.Codes.{or_else}
use history_quiz.GrpcError.Violations.{
  has_text, to_field_violation, present_violations, violations_of_value, push_present,
  coerce_parsed, coerce_field_violations, get_metadata_string, parse_field_violations_from_json,
  first_non_empty, parse_field_violations_from, parse_field_violations, to_field_errors_from,
  to_field_errors, field_violations_metadata_keys,
}

-- Both texts are trimmed and not empty.
pub record IsClean (v : FieldViolation) : Type 0 where
  pub field_trimmed : trim v.field ≡ v.field
  pub description_trimmed : trim v.description ≡ v.description
  pub field_present : is_empty v.field ≡ false
  pub description_present : is_empty v.description ≡ false

IsClean-trim :
    (f d : String) (v : FieldViolation)
    → (if is_empty (trim f) || is_empty (trim d)
        then none
        else some (record { field = trim f; description = trim d }))
      ≡ some v
    → IsClean v
IsClean-trim f d v h = ground (arith, trim_idem f, trim_idem d)

to_field_violation-IsClean :
    (j : Json) (v : FieldViolation) → to_field_violation j ≡ some v → IsClean v
unfolding to_field_violation
to_field_violation-IsClean j v h =
    IsClean-trim (or_else (as_text (property "field" j)) "")
      (or_else (as_text (coalesce (property "description" j) (property "message" j))) "") v h

push_present-IsClean :
    (o : Option FieldViolation) (vs : List FieldViolation)
    → ((v : FieldViolation) → o ≡ some v → IsClean v)
    → All IsClean vs
    → All IsClean (push_present o vs)
push_present-IsClean none vs h k = k
push_present-IsClean (some v) vs h k = (h v refl, k)

present_violations-IsClean : (js : List Json) → All IsClean (present_violations js)
unfolding present_violations
present_violations-IsClean [] = tt
present_violations-IsClean (j ∷ js) =
    push_present-IsClean (to_field_violation j) _ (to_field_violation-IsClean j)
      (present_violations-IsClean js)

violations_of_value-IsClean : (o : Option Json) → All IsClean (violations_of_value o)
violations_of_value-IsClean (some (arr js)) = present_violations-IsClean (items js)
violations_of_value-IsClean _ = tt

coerce-IsClean : (j : Json) → All IsClean (coerce_field_violations j)
unfolding coerce_field_violations
coerce-IsClean (arr js) = present_violations-IsClean (items js)
coerce-IsClean (obj fs) =
    violations_of_value-IsClean
      (coalesce (property "fieldViolations" (obj fs)) (property "field_violations" (obj fs)))
coerce-IsClean _ = tt

first_non_empty-IsClean :
    (vs ws : List FieldViolation)
    → All IsClean vs
    → All IsClean ws
    → All IsClean (first_non_empty vs ws)
first_non_empty-IsClean [] ws h k = k
first_non_empty-IsClean (v ∷ vs) ws h k = h

coerce_parsed-IsClean : (o : Option Json) → All IsClean (coerce_parsed o)
coerce_parsed-IsClean none = tt
coerce_parsed-IsClean (some j) = coerce-IsClean j

module _ (r : Runtime) where
  from_json-IsClean : (s : String) → All IsClean (parse_field_violations_from_json r s)
  unfolding parse_field_violations_from_json
  from_json-IsClean s = coerce_parsed-IsClean (r.parse_json s)

  from_keys-IsClean :
      (m : String → List MetadataValue) (keys : List String)
      → All IsClean (parse_field_violations_from r m keys)
  unfolding parse_field_violations_from
  from_keys-IsClean m [] = tt
  from_keys-IsClean m (k ∷ ks) = elim (Bool-cases (has_text (get_metadata_string r m k))) [
    | inl e ↦ rw e (
        first_non_empty-IsClean _ _ (from_json-IsClean (or_else (get_metadata_string r m k) ""))
          (from_keys-IsClean m ks))
    | inr e ↦ rw e (from_keys-IsClean m ks)
  ]

  -- Whatever the metadata hold, each violation taken from them has a field and a description that
  -- are trimmed and not empty.
  pub parse_field_violations-IsClean :
      (m : Option (String → List MetadataValue)) → All IsClean (parse_field_violations r m)
  unfolding parse_field_violations
  parse_field_violations-IsClean none = tt
  parse_field_violations-IsClean (some m) = from_keys-IsClean m field_violations_metadata_keys

-- The description of the last violation of a field, or else `d`.
abbrev pub last_of : String → Option String → List FieldViolation → Option String
last_of f d [] = d
last_of f d (v ∷ vs) = last_of f (if v.field == f then some v.description else d) vs

lookup-to_field_errors_from :
    (f : String) (m : List (String × String)) (vs : List FieldViolation)
    → f ≢ "__proto__"
    → lookup f (to_field_errors_from m vs) ≡ last_of f (lookup f m) vs
unfolding to_field_errors_from assign
lookup-to_field_errors_from f m [] h = refl
lookup-to_field_errors_from f m (v ∷ vs) h = elim (Bool-cases (v.field == "__proto__")) [
  | inl e ↦
      let ne : (v.field == f) ≡ false =
        ground (arith, eq_iff v.field f, eq_iff v.field "__proto__") in
      rw (e, ne) (lookup-to_field_errors_from f m vs h)
  | inr e ↦
      rw e (rw lookup-put at (lookup-to_field_errors_from f (put v.field v.description m) vs h))
]

-- For every field but `__proto__` the field errors hold the description of the last violation of that field, and nothing if there is none.
pub lookup-to_field_errors :
    (f : String) (vs : List FieldViolation)
    → f ≢ "__proto__"
    → lookup f (to_field_errors vs) ≡ last_of f none vs
unfolding to_field_errors lookup
lookup-to_field_errors f vs h = lookup-to_field_errors_from f [] vs h
