-- ===== src/RequestSize/Laws.antt =====
-- Which requests pass the limit on their bodies.
use history_quiz.Prelude.{
  ℕ, String, ◌≡◌, ◌<◌, true, false, Option, none, some, leb, if◌then◌else◌, arith,
}
use history_quiz.Prelude.Decimal.{
  is_empty-to_decimal, is_decimal, value_from, to_decimal, is_decimal-to_decimal,
  value_from-to_decimal, trim-to_decimal,
}
use history_quiz.Prelude.Text.{trim, non_blank}
use history_quiz.Errors.{Result, returned, thrown, error_response}
use history_quiz.Web.{Request}
use history_quiz.RequestId.{Random}
use history_quiz.RequestSize.{
  ContentLength, undefined, not_a_number, bytes, infinite, parse_content_length_header,
  resolve_request_id, payload_too_large, assert_request_content_length_within_limit,
}

-- The number of bytes that a Content-Length header states.
abbrev pub States : Option String → ℕ → Type 0
States none n = ⊥
States (some s) n = (is_decimal (trim s) ≡ true) × (value_from 0 (trim s) ≡ n)

-- No header, or a blank one.
abbrev pub IsAbsent : Option String → Type 0
IsAbsent none = Unit
IsAbsent (some s) = non_blank s ≡ false

-- What the parser makes of a header, case by case.
abbrev pub Reading : Option String → ContentLength → Type 0
Reading h undefined = IsAbsent h
Reading h (bytes n) = States h n × (n < infinite)
Reading h not_a_number = (¬ (IsAbsent h)) × ((n : ℕ) → n < infinite → ¬ (States h n))

module _ {C : Type 0} (random : Random) (max_bytes : ℕ) (request : Request C)
    (given : Option String) where
  abbrev pub length_header : Option String
  length_header = request.header "Content-Length"

  abbrev pub result_of_check : Result String
  result_of_check = assert_request_content_length_within_limit random max_bytes request given

  abbrev pub id_of_check : String
  id_of_check = resolve_request_id random request given

-- A header with the decimal text of a number is read as that number, unless it is too large for a double.
parse-to_decimal :
    (n : ℕ) → n < infinite → parse_content_length_header (some (to_decimal n)) ≡ bytes n
unfolding parse_content_length_header
parse-to_decimal n h =
    rw (trim-to_decimal n, is_empty-to_decimal n, is_decimal-to_decimal n, value_from-to_decimal n)
      (ground arith)

-- A client that states the length of a body as the web platform writes it passes exactly when the
-- length is at most the limit, and is answered 413 otherwise.
pub assert_request_content_length_within_limit-to_decimal :
    {C : Type 0} (random : Random) (max_bytes n : ℕ) (request : Request C) (given : Option String)
    → n < infinite
    → request.header "Content-Length" ≡ some (to_decimal n)
    → assert_request_content_length_within_limit random max_bytes request given ≡ (
        if leb n max_bytes
        then returned (resolve_request_id random request given)
        else thrown (
            error_response (payload_too_large max_bytes (resolve_request_id random request given))))
unfolding assert_request_content_length_within_limit
assert_request_content_length_within_limit-to_decimal random max_bytes n request given h e =
    rw (e, parse-to_decimal n h) (ground arith)
