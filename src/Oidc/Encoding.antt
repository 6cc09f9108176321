-- ===== src/Oidc/Encoding.antt =====
-- Base64URL texts, of client/app/services/oidc.server.ts.
use Prim.Native.Char.{Char, code}
use Prim.Native.Nat.{ℕ, suc}
use Prim.Native.String
use history_quiz.Prelude.{String, ◌-◌, ◌%◌, ◌&&◌, Option, none, some, List, nat_eq, if◌then◌else◌}
use history_quiz.Prelude.Json.{Json}
use history_quiz.Prelude.Text.{is_empty}
use history_quiz.Runtime.{Runtime}
use history_quiz.Errors.{Result, returned, thrown, oidc_flow_error, foreign, ◌>>=◌}

-- s.replace(/a/g, b) for characters a and b.
unfoldable pub replace_all : ℕ → Char → String → String
replace_all a b String.[] = ""
replace_all a b (String.◌∷◌ c s) =
    let rest = replace_all a b s in
    if nat_eq (code c) a then String.◌∷◌ b rest else String.◌∷◌ c rest

-- s.replace(/a+$/, "") for a character a.
unfoldable pub strip_end : ℕ → String → String
strip_end a String.[] = ""
strip_end a (String.◌∷◌ c s) =
    let rest = strip_end a s in if nat_eq (code c) a && is_empty rest then "" else String.◌∷◌ c rest

-- The number of characters.
unfoldable pub count_chars : String → ℕ
count_chars String.[] = 0
count_chars (String.◌∷◌ c s) = suc (count_chars s)

-- The padding that decodeBase64UrlBytes adds to a text of this length.
unfoldable pub padding_for : ℕ → String
padding_for n =
    if nat_eq (n % 4) 0
    then ""
    else if nat_eq (4 - n % 4) 1
    then "="
    else if nat_eq (4 - n % 4) 2
    then "=="
    else "==="

-- The text that decodeBase64UrlBytes gives to atob.
unfoldable pub to_base64 : String → String
to_base64 input =
    let normalized = replace_all b'_' "/" (replace_all b'-' "+" input) in
    String.◌++◌ normalized (padding_for (count_chars normalized))

module _ (r : Runtime) where
  -- decodeBase64UrlBytes
  unfoldable pub decode_base64_url_bytes : String → Result (List ℕ)
  decode_base64_url_bytes input = elim (r.atob (to_base64 input)) [
    | none ↦ thrown foreign
    | some bytes ↦ returned bytes
  ]

  abbrev parsed_or_throw : Option Json → Result Json
  parsed_or_throw none = thrown (oidc_flow_error "ID Token の JSON デコードに失敗しました。" 401)
  parsed_or_throw (some json) = returned json

  -- decodeBase64UrlJson
  unfoldable pub decode_base64_url_json : String → Result Json
  decode_base64_url_json input = decode_base64_url_bytes input >>= λ bytes.
      parsed_or_throw (r.parse_json (r.decode_utf8 bytes))

  -- encodeBase64Url
  unfoldable pub encode_base64_url : List ℕ → String
  encode_base64_url bytes =
      strip_end b'=' (replace_all b'/' "_" (replace_all b'+' "-" (r.btoa bytes)))

  -- generateRandomUrlSafeString, of the random bytes.
  unfoldable pub generate_random_url_safe_string : List ℕ → String
  generate_random_url_safe_string bytes = encode_base64_url bytes

  -- createPkceCodeChallenge
  unfoldable pub create_pkce_code_challenge : String → String
  create_pkce_code_challenge code_verifier = encode_base64_url (r.sha256 code_verifier)
