-- ===== src/Errors.antt =====
-- The values that the client's server code throws and the HTTP responses that it makes:
-- client/app/services/grpc-error.server.ts (types), client/app/grpc/client.server.ts
-- (GrpcCallError) and client/app/services/oidc.server.ts (OidcFlowError).
use history_quiz.Prelude.{ℕ, String, ◌≡◌, refl, Option, List}

pub record FieldViolation : Type 0 where
  pub description : String
  pub field : String

pub record HttpErrorPayload : Type 0 where
  pub code : String
  pub field_violations : Option (List FieldViolation)
  pub message : String
  pub request_id : Option String

-- json(body, { status, headers }); a redirect has the body `Unit`.
pub record Response {ℓ} (B : Type ℓ) : Type ℓ where
  pub body : B
  pub headers : List (String × String)
  pub status : ℕ

-- A value of `Metadata.get`: a text or a Buffer.
pub data MetadataValue : Type 0 where
  text : String → MetadataValue
  bytes : List ℕ → MetadataValue

-- The field `code` of a caught object: a status number, a text, or anything else (which no status
-- number equals).
pub data StatusCode : Type 0 where
  number : ℕ → StatusCode
  name : String → StatusCode
  other : StatusCode

-- An object with the keys `details`, `metadata` and `code`. `details` is `none` if it is no text,
-- `metadata` if it is falsy; otherwise it is its method `get`.
pub record ServiceError : Type 0 where
  pub code : StatusCode
  pub details : Option String
  pub metadata : Option (String → List MetadataValue)

-- What a `catch` can bind.
pub data Thrown : Type 0 where
  service_error : ServiceError → Thrown
  grpc_call_error : Thrown → String → Thrown
  oidc_flow_error : String → ℕ → Thrown
  error : String → Thrown
  error_response : Response HttpErrorPayload → Thrown
  redirect_response : Response (Unit {0}) → Thrown
  message_response : Response String → Thrown
  foreign : Thrown

-- A call returns or throws.
pub data Result {ℓ} (A : Type ℓ) : Type ℓ where
  returned : A → Result A
  thrown : Thrown → Result A

infixl 5 ◌>>=◌ ◌>>◌
abbrev pub ◌>>=◌ {ℓ κ} : {A : Type ℓ} {B : Type κ} → Result A → (A → Result B) → Result B
returned a >>= f = f a
thrown e >>= f = thrown e

abbrev pub ◌>>◌ {ℓ} : {B : Type ℓ} → Result (Unit {0}) → Result B → Result B
m >> k = m >>= λ _. k

-- try { m } catch (error) { h }
abbrev pub catch {ℓ} : {A : Type ℓ} → Result A → (Thrown → Result A) → Result A
catch (returned a) h = returned a
catch (thrown e) h = h e

-- What returns from a chain of two calls has returned from both.
pub bind_inv {ℓ κ} :
    {A : Type ℓ} {B : Type κ} (m : Result A) (f : A → Result B) (b : B)
    → (m >>= f) ≡ returned b
    → (a : A) × (m ≡ returned a) × (f a ≡ returned b)
bind_inv (returned a) f b h = (a, refl, h)
bind_inv (thrown e) f b h = absurd (cc)
