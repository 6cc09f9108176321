-- ===== src/Tests/World.antt =====
-- A runtime, a cookie storage, requests and an identity provider to run the code on.
use history_quiz.Prelude.{
  ℕ, String, ◌≡◌, refl, true, false, ◌==◌, Option, none, some, List, [], ◌∷◌, if◌then◌else◌, arith,
  Bool-cases, nat_eq, inl, inr,
}
use history_quiz.Prelude.Letters.{has_lower, is_capital, UpperCase}
use history_quiz.Prelude.Json.{Json, nat, str, arr, obj, nil, cons, end, field}
use history_quiz.Runtime.{Runtime}
use history_quiz.Errors.{returned}
use history_quiz.Web.{Url, FormValue, text, Request}
use history_quiz.RequestId.{Random}
use history_quiz.Session.{SessionData, empty_session, CookieStorage}
use history_quiz.Oidc.Cache.{Fetched, rejected, answered, Caches}
use history_quiz.Oidc.Flow.{Outside}

-- An upper case that forgets a text with a small letter.
abbrev pub forget_small : String → String
forget_small s = if has_lower s then "" else s

pub no_lower-forget_small : (s : String) → has_lower (forget_small s) ≡ false
no_lower-forget_small s = elim (Bool-cases (has_lower s)) [
  | inl e ↦ rw e (unfold has_lower in refl)
  | inr e ↦ rw e e
]

has_lower_of_capital : (s : String) → is_capital s ≡ true → has_lower s ≡ false
unfolding has_lower is_capital
has_lower_of_capital String.[] h = refl
has_lower_of_capital (String.◌∷◌ c s) h = ground (arith, has_lower_of_capital s)

pub keeps_capital-forget_small : (s : String) → is_capital s ≡ true → forget_small s ≡ s
keeps_capital-forget_small s h = rw (has_lower_of_capital s h)

abbrev pub upper : UpperCase
upper = record {
  to_upper_case = forget_small;
  no_lower = no_lower-forget_small;
  keeps_capital = keeps_capital-forget_small;
}

abbrev pub header_json : Json
header_json = obj (field "alg" (str "RS256") (field "kid" (str "k1") end))

abbrev pub claims_json : Json
claims_json = obj (
    field "sub" (str "alice") (
      field "iss" (str "https://id") (
        field "aud" (arr (cons (str "quiz") nil))
          (field "exp" (nat 1000) (field "nonce" (str "nn") end)))))

abbrev pub decoded : List ℕ → String
decoded (n ∷ []) = if nat_eq n 1 then "header" else "claims"
decoded _ = ""

abbrev pub world : Runtime
world = record {
  upper = upper;
  parse_json = λ s. if s == "header" then some header_json else some claims_json;
  decode_utf8 = decoded;
  form_encode = λ s. s;
  atob = λ s. if s == "h===" then some (1 ∷ []) else some (2 ∷ []);
  btoa = λ bytes. "ab+/==";
  sha256 = λ s. [];
  verify_signature = λ hash key signed signature. returned (signed == "h.p");
}

abbrev pub read_cookie : Option SessionData → SessionData
read_cookie none = empty_session
read_cookie (some s) = s

pub returned-eq : (s c : SessionData) → returned s ≡ returned c → read_cookie (some c) ≡ s
returned-eq s c h = ground arith

-- The cookie is the session itself.
abbrev pub storage : CookieStorage SessionData
storage = record {
  get_session = read_cookie;
  commit_session = λ s. returned s;
  destroy_session = λ s. returned empty_session;
  get-none = refl;
  get-commit = returned-eq;
}

abbrev pub random : Random
random = record { uuid = some "u1"; random_bytes = [] }

-- The parameters of a callback.
abbrev pub callback_param : String → Option String
callback_param k = if k == "code" then some "c1" else if k == "state" then some "st" else none

abbrev pub url : Url
url = record {
  origin = "https://quiz";
  pathname = "/auth/callback";
  search = "?code=c1&state=st";
  search_param = callback_param;
}

abbrev pub headers : String → Option String
headers k = if k == "Content-Length" then some "20" else none

abbrev pub request_with : Option SessionData → Request SessionData
request_with c = record { cookie = c; header = headers; method = "POST"; url = url }

-- A session with a pending login and a token.
abbrev pub pending_session : SessionData
pending_session = record {
  csrf_token = some "tok";
  oidc_code_verifier = some "cv";
  oidc_nonce = some "nn";
  oidc_redirect_to = some "/quiz";
  oidc_state = some "st";
  user_id = none;
}

-- The session of a login.
abbrev pub alice_session : SessionData
alice_session = record empty_session { csrf_token = some "tok"; user_id = some "alice" }

abbrev pub field_of_form : String → Option FormValue
field_of_form k = if k == "csrfToken" then some (text " tok ") else none

abbrev pub env : String → Option String
env k =
    if k == "OIDC_ISSUER_URL"
    then some "https://id/"
    else if k == "OIDC_CLIENT_ID"
    then some "quiz"
    else if k == "OIDC_CLIENT_SECRET"
    then some "secret"
    else none

abbrev pub discovery_json : Json
discovery_json = obj (
    field "issuer" (str "https://id") (
      field "authorization_endpoint" (str "https://id/auth") (
        field "token_endpoint" (str "https://id/token")
          (field "jwks_uri" (str "https://id/jwks") end))))

abbrev pub keys_json : Json
keys_json = obj (field "keys" (arr (cons (obj (field "kid" (str "k1") end)) nil)) end)

abbrev pub tokens_json : Json
tokens_json = obj (
    field "access_token" (str "a")
      (field "id_token" (str "h.p.s") (field "token_type" (str "Bearer") end)))

abbrev pub fetch : String → Fetched
fetch u =
    if u == "https://id/.well-known/openid-configuration"
    then answered true (some discovery_json)
    else if u == "https://id/jwks"
    then answered true (some keys_json)
    else rejected

abbrev pub outside : Outside
outside = record {
  env = env;
  discovery_at = 5;
  jwks_at = 6;
  claims_at = 7;
  fetch = fetch;
  post = λ u form. answered true (some tokens_json);
  state_bytes = [];
  nonce_bytes = [];
  verifier_bytes = [];
  url_with = λ u params. returned u;
}

abbrev pub no_caches : Caches
no_caches = record { discovery = []; jwks = [] }
