-- ===== src/RequestSize.antt =====
-- The limit on request bodies: client/app/services/request-size.server.ts.
pub mod Laws
use Prim.Native.Nat.{◌^◌}
use Prim.Native.String
use history_quiz.Prelude.{
  ℕ, String, ◌-◌, Bool, Option, none, some, List, [], ◌∷◌, leb, ltb, if◌then◌else◌,
}
use history_quiz.Prelude.Decimal.{is_decimal, value_from, to_decimal}
use history_quiz.Prelude.Text.{is_empty, trim, non_blank}
use history_quiz.Errors.{HttpErrorPayload, Response, Result, returned, thrown, error_response}
use history_quiz.Web.{Request}
use history_quiz.RequestId.{Random, create_request_id}

-- The result of parseContentLengthHeader: undefined, NaN or a number.
pub data ContentLength : Type 0 where
  undefined : ContentLength
  not_a_number : ContentLength
  bytes : ℕ → ContentLength

-- The least integer that Number.parseInt gives as Infinity. Integers from 2 ^ 53 on are kept exact
-- here where a double rounds them, which no comparison with a smaller limit can tell.
unfoldable pub infinite : ℕ
infinite = 2 ^ 1024 - 2 ^ 970

-- parseContentLengthHeader
unfoldable pub parse_content_length_header : Option String → ContentLength
parse_content_length_header none = undefined
parse_content_length_header (some value) =
    let normalized = trim value in
    if is_empty value
    then undefined
    else if is_empty normalized
    then undefined
    else if is_decimal normalized
    then (if ltb (value_from 0 normalized) infinite
        then bytes (value_from 0 normalized)
        else not_a_number)
    else not_a_number

-- A given id with text, trimmed, or else the other id.
abbrev pub given_id : Option String → String → String
given_id none id = id
given_id (some s) id = if non_blank s then trim s else id

-- resolveRequestId
unfoldable pub resolve_request_id : {C : Type 0} → Random → Request C → Option String → String
resolve_request_id random request given =
    given_id given (given_id (request.header "x-request-id") (create_request_id random))

-- The response that is thrown for a bad header, or for too large a body.
abbrev pub size_error_response :
    (code message request_id : String) (status : ℕ) → Response HttpErrorPayload
size_error_response code message request_id status = record {
  body = record {
    code = code;
    field_violations = none;
    message = message;
    request_id = some request_id;
  };
  headers = ("x-request-id", request_id) ∷ [];
  status = status;
}

abbrev pub bad_request : String → Response HttpErrorPayload
bad_request request_id = size_error_response "BAD_REQUEST" "Content-Length ヘッダが不正です。" request_id 400

abbrev pub payload_too_large : ℕ → String → Response HttpErrorPayload
payload_too_large max_bytes request_id =
    size_error_response "PAYLOAD_TOO_LARGE"
      (String.◌++◌ "リクエストサイズが上限（" (String.◌++◌ (to_decimal max_bytes) " bytes）を超えています。")) request_id
      413

unfoldable pub check_content_length : ContentLength → ℕ → String → Result String
check_content_length undefined max_bytes request_id = returned request_id
check_content_length not_a_number max_bytes request_id =
    thrown (error_response (bad_request request_id))
check_content_length (bytes n) max_bytes request_id =
    if ltb max_bytes n
    then thrown (error_response (payload_too_large max_bytes request_id))
    else returned request_id

-- assertRequestContentLengthWithinLimit, which returns the request id.
unfoldable pub assert_request_content_length_within_limit :
    {C : Type 0} → Random → (max_bytes : ℕ) → Request C → Option String → Result String
unfolding check_content_length
assert_request_content_length_within_limit random max_bytes request given =
    check_content_length (parse_content_length_header (request.header "Content-Length")) max_bytes
      (resolve_request_id random request given)
