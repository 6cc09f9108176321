-- ===== src/Runtime.antt =====
-- What the client relies on of the JavaScript runtime and does not implement.
use history_quiz.Prelude.{ℕ, String, Bool, Option, List}
use history_quiz.Prelude.Json.{Json}
use history_quiz.Prelude.Letters.{UpperCase}
use history_quiz.Errors.{Result}

-- `parse_json` is JSON.parse, `none` where that throws; `decode_utf8` is TextDecoder.decode,
-- `form_encode` the serialisation of a value by URLSearchParams. `atob` gives the character codes,
-- `none` where that throws. `sha256` digests the UTF-8 bytes of a text. `verify_signature` is
-- crypto.subtle.importKey and verify for a hash, a key, the signed text and the signature's bytes.
pub record Runtime : Type 0 where
  pub upper : UpperCase
  pub parse_json : String → Option Json
  pub decode_utf8 : List ℕ → String
  pub form_encode : String → String
  pub atob : String → Option (List ℕ)
  pub btoa : List ℕ → String
  pub sha256 : String → List ℕ
  pub verify_signature : String → Json → String → List ℕ → Result Bool
