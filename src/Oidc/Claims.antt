-- ===== src/Oidc/Claims.antt =====
-- The checks on an ID token's claims, of client/app/services/oidc.server.ts.
pub mod Laws
use Prim.Native.String
use history_quiz.Prelude.{
  ℕ, String, ◌+◌, ◌/◌, Bool, true, false, not, ◌||◌, Option, none, some, List, [], ◌∷◌, ◌==◌, leb,
  nat_eq, any, if◌then◌else◌,
}
use history_quiz.Prelude.Json.{
  Json, null, bool, nat, fraction, negative, str, arr, obj, items, property,
}
use history_quiz.Prelude.Text.{is_empty, non_blank}
use history_quiz.Errors.{Result, returned, thrown, oidc_flow_error, error, ◌>>=◌, ◌>>◌}
use history_quiz.Oidc.Cache.{type_error}

abbrev pub rejected_claims {ℓ} : {A : Type ℓ} → String → Result A
rejected_claims message = thrown (oidc_flow_error message 401)

-- A value that is equal to a text.
abbrev pub is_text : Option Json → String → Bool
is_text (some (str s)) t = s == t
is_text _ t = false

-- isAudienceMatched
unfoldable pub is_audience_matched : Option Json → String → Bool
is_audience_matched (some (str s)) client_id = s == client_id
is_audience_matched (some (arr js)) client_id = any (λ j. is_text (some j) client_id) (items js)
is_audience_matched _ client_id = false

-- The first test: a missing, falsy or blank `sub` is refused; any other value that is no text has
-- no method `trim`.
unfoldable pub check_sub : Option Json → Result (Unit {0})
check_sub (some (str s)) =
    if is_empty s || not (non_blank s) then rejected_claims "ID Token の sub が不正です。" else returned tt
check_sub none = rejected_claims "ID Token の sub が不正です。"
check_sub (some null) = rejected_claims "ID Token の sub が不正です。"
check_sub (some (bool b)) =
    if b then thrown (error type_error) else rejected_claims "ID Token の sub が不正です。"
check_sub (some (nat n)) =
    if nat_eq n 0 then rejected_claims "ID Token の sub が不正です。" else thrown (error type_error)
check_sub _ = thrown (error type_error)

-- typeof exp !== "number" || exp <= nowInSeconds - 30. A time before 1970 is always past.
unfoldable pub is_expired : Option Json → ℕ → Bool
is_expired (some (nat n)) now_in_seconds = leb (n + 30) now_in_seconds
is_expired (some (fraction n)) now_in_seconds = leb (n + 1 + 30) now_in_seconds
is_expired _ now_in_seconds = true

abbrev pub require_that : Bool → String → Result (Unit {0})
require_that true message = returned tt
require_that false message = rejected_claims message

-- The tests of validateIdTokenClaims in their order.
unfoldable pub check_claims :
    (now : ℕ) (claims : Json) (client_id expected_issuer expected_nonce : String)
    → Result (Unit {0})
check_claims now claims client_id expected_issuer expected_nonce = do
  check_sub (property "sub" claims)
  require_that (is_text (property "iss" claims) expected_issuer) "ID Token の issuer が一致しません。"
  require_that (is_audience_matched (property "aud" claims) client_id)
      "ID Token の audience が一致しません。"
  require_that (not (is_expired (property "exp" claims) (now / 1000))) "ID Token の有効期限が切れています。"
  require_that (is_text (property "nonce" claims) expected_nonce) "nonce の検証に失敗しました。再度ログインしてください。"

-- validateIdTokenClaims at the time `now` in milliseconds; reading a property of null throws.
unfoldable pub validate_id_token_claims :
    (now : ℕ) (claims : Json) (client_id expected_issuer expected_nonce : String)
    → Result (Unit {0})
validate_id_token_claims now null client_id expected_issuer expected_nonce =
    thrown (error type_error)
validate_id_token_claims now claims client_id expected_issuer expected_nonce =
    check_claims now claims client_id expected_issuer expected_nonce
