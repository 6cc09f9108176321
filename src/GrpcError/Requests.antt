-- ===== src/GrpcError/Requests.antt =====
-- Which request id an error answer carries.
use history_quiz.Prelude.{
  String, ◌≡◌, refl, Option, none, some, List, [], ◌∷◌, map, if◌then◌else◌, arith, Bool-cases, true,
  inl, inr,
}
use history_quiz.Prelude.Text.{is_empty, trim, non_blank, trim_idem}
use history_quiz.Runtime.{Runtime}
use history_quiz.Errors.{MetadataValue}
use history_quiz.GrpcError.Codes.{or_else}
use history_quiz.GrpcError.Violations.{request_id_metadata_keys, has_text, get_metadata_string}
use history_quiz.GrpcError.Normalize.{request_id_from, resolve_request_id}

-- The first candidate with text, trimmed.
abbrev pub first_text : List (Option String) → Option String
first_text [] = none
first_text (c ∷ cs) = if has_text c then some (trim (or_else c "")) else first_text cs

module _ (r : Runtime) where
  abbrev pub metadata_candidates : Option (String → List MetadataValue) → List (Option String)
  metadata_candidates none = []
  metadata_candidates (some m) = map (get_metadata_string r m) request_id_metadata_keys

  request_id_from-first_text :
      (m : String → List MetadataValue) (keys : List String)
      → request_id_from r m keys ≡ first_text (map (get_metadata_string r m) keys)
  unfolding request_id_from
  request_id_from-first_text m [] = refl
  request_id_from-first_text m (k ∷ ks) = rw (request_id_from-first_text m ks)

  -- The request id is the first text among the explicit id, the wrapper's and those of the
  -- metadata keys in their order, trimmed.
  pub resolve_request_id-first_text :
      (explicit wrapped : Option String) (m : Option (String → List MetadataValue))
      → resolve_request_id r explicit wrapped m
        ≡ first_text (explicit ∷ wrapped ∷ metadata_candidates m)
  unfolding resolve_request_id
  resolve_request_id-first_text explicit wrapped none = refl
  resolve_request_id-first_text explicit wrapped (some m) =
      rw (request_id_from-first_text m request_id_metadata_keys)

has_text_of_first_text :
    (cs : List (Option String)) (id : String)
    → first_text cs ≡ some id
    → (trim id ≡ id) × (non_blank id ≡ true)
unfolding has_text non_blank
has_text_of_first_text [] id h = cc
has_text_of_first_text (none ∷ cs) id h = has_text_of_first_text cs id h
has_text_of_first_text (some s ∷ cs) id h = elim (Bool-cases (is_empty (trim s))) [
  | inl e ↦ has_text_of_first_text cs id (rw e at h)
  | inr e ↦
      let same : trim s ≡ id = ground arith in
      (rw (← same) (trim_idem s), rw (← same) (rw (trim_idem s, e)))
]

-- A request id of an error answer is trimmed and not blank.
pub resolve_request_id-trimmed :
    (r : Runtime) (explicit wrapped : Option String) (m : Option (String → List MetadataValue))
    (id : String)
    → resolve_request_id r explicit wrapped m ≡ some id
    → (trim id ≡ id) × (non_blank id ≡ true)
resolve_request_id-trimmed r explicit wrapped m id h =
    has_text_of_first_text (explicit ∷ wrapped ∷ metadata_candidates r m) id
      (rw resolve_request_id-first_text at h)
