-- ===== src/Entry.antt =====
-- The answer to a request for a page: handleRequest of client/app/entry.server.tsx.
pub mod Faults
pub mod Laws
pub mod Lines
pub mod Secure
use history_quiz.Prelude.{
  ℕ, String, Bool, true, false, Option, none, some, List, [], ◌∷◌, ◌++◌, if◌then◌else◌,
}
use history_quiz.Prelude.Dict.{lookup, put}
use history_quiz.Prelude.Letters.{UpperCase}
use history_quiz.Errors.{Thrown}
use history_quiz.RequestId.{Random}
use history_quiz.Web.{Request}
use history_quiz.Observability.{
  AccessLog, Metrics, ensure_observability_reporter_started, observe_http_request,
}
use history_quiz.Observability.Logs.{
  Channel, Payload, http_access, observe_server_fault, write_structured_log,
}

abbrev pub content_security_policy : String
content_security_policy =
    "default-src 'self'; base-uri 'self'; frame-ancestors 'none'; object-src 'none'; script-src 'self' 'unsafe-inline'; style-src 'self' 'unsafe-inline'; img-src 'self' data:; font-src 'self' data:; connect-src 'self'; form-action 'self'"

-- The headers of applySecurityHeaders. `Headers` compares names without their case: a name is
-- written in small letters here.
abbrev pub security_headers : List (String × String)
security_headers =
    ("content-security-policy", content_security_policy)
    ∷ ("x-frame-options", "DENY")
    ∷ ("x-content-type-options", "nosniff")
    ∷ ("referrer-policy", "strict-origin-when-cross-origin")
    ∷ ("permissions-policy", "camera=(), microphone=(), geolocation=(), payment=()")
    ∷ ("strict-transport-security", "max-age=31536000; includeSubDomains")
    ∷ []

-- headers.set(name, value), one after the other.
abbrev pub set_all : List (String × String) → List (String × String) → List (String × String)
set_all [] headers = headers
set_all ((name, value) ∷ more) headers = set_all more (put name value headers)

-- applySecurityHeaders
unfoldable pub apply_security_headers : List (String × String) → List (String × String)
apply_security_headers headers = set_all security_headers headers

-- What becomes of the promise.
pub data Outcome : Type 0 where
  resolved : (status : ℕ) (headers : List (String × String)) → Outcome
  rejected : Thrown → Outcome

-- The variables of handleRequest, with the metrics and the lines that were logged.
pub record Rendering : Type 0 where
  pub did_error : Bool
  pub has_logged_access : Bool
  pub response_headers : List (String × String)
  pub outcome : Option Outcome
  pub metrics : Metrics
  pub logged : List (Channel × Payload)

-- The clock's reading at an event, and the random source for the ids of a fault and of an access.
pub record Moment : Type 0 where
  pub now : ℕ
  pub fault_random : Random
  pub access_random : Random

-- What renderToPipeableStream calls.
pub data RenderEvent : Type 0 where
  shell_ready : Moment → RenderEvent
  shell_error : Moment → Thrown → RenderEvent
  render_error : Moment → Thrown → RenderEvent

-- a ?? b
abbrev pub or_given : Option String → Option String → Option String
or_given none b = b
or_given (some a) b = some a

abbrev pub header_of : Option (List (String × String)) → String → Option String
header_of none name = none
header_of (some headers) name = lookup name headers

-- resolve and reject: only the first call counts.
abbrev pub settle : Option Outcome → Outcome → Option Outcome
settle none outcome = some outcome
settle (some first) outcome = some first

module _ (u : UpperCase) {C : Type 0} (request : Request C) (response_status_code : ℕ)
    (started_at_ms : ℕ) where
  -- logHttpAccessOnce
  unfoldable pub log_http_access_once :
      Moment → (status : ℕ) (headers : Option (List (String × String))) → Rendering → Rendering
  log_http_access_once moment status headers s =
      if s.has_logged_access
      then s
      else (let (metrics, log) =
            observe_http_request u moment.access_random moment.now request
              (or_given (header_of headers "x-request-id") (
                or_given (lookup "x-request-id" s.response_headers)
                  (request.header "x-request-id")))
              status none started_at_ms none s.metrics in
          record s {
            has_logged_access = true;
            metrics = metrics;
            logged = s.logged ++ write_structured_log (http_access log) ∷ [];
          })

  -- The call of observeServerFault in a handler.
  unfoldable pub log_fault : Moment → Thrown → (message source : String) → Rendering → Rendering
  log_fault moment e message source s = record s {
    logged =
        s.logged
        ++ observe_server_fault moment.fault_random moment.now (some e) message
            (or_given (lookup "x-request-id" s.response_headers) (request.header "x-request-id"))
            source none
          ∷ [];
  }

  abbrev pub answered_status : Bool → ℕ
  answered_status did_error = if did_error then 500 else response_status_code

  abbrev pub page_headers : List (String × String) → List (String × String)
  page_headers headers =
      put "content-type" "text/html; charset=utf-8" (apply_security_headers headers)

  -- onShellReady
  unfoldable pub on_shell_ready : Moment → Rendering → Rendering
  on_shell_ready moment s =
      let headers = page_headers s.response_headers in
      let status = answered_status s.did_error in
      log_http_access_once moment status (some headers) (record s {
        response_headers = headers;
        outcome = settle s.outcome (resolved status headers);
      })

  -- onShellError
  unfoldable pub on_shell_error : Moment → Thrown → Rendering → Rendering
  on_shell_error moment e s =
      let faulted = log_fault moment e "SSR のシェル生成に失敗しました。" "entry.server:onShellError" s in
      let logged = log_http_access_once moment 500 (some faulted.response_headers) faulted in
      record logged { outcome = settle logged.outcome (rejected e) }

  -- onError
  unfoldable pub on_error : Moment → Thrown → Rendering → Rendering
  on_error moment e s =
      log_fault moment e "SSR レンダリング中にエラーが発生しました。" "entry.server:onError"
        (record s { did_error = true })

  unfoldable pub handle_event : RenderEvent → Rendering → Rendering
  handle_event (shell_ready moment) s = on_shell_ready moment s
  handle_event (shell_error moment e) s = on_shell_error moment e s
  handle_event (render_error moment e) s = on_error moment e s

  abbrev pub handle_all : List RenderEvent → Rendering → Rendering
  handle_all [] s = s
  handle_all (event ∷ events) s = handle_all events (handle_event event s)

  -- handleRequest, with what React calls until the page is rendered or given up.
  unfoldable pub handle_request :
      (node_env : Option String) (response_headers : List (String × String))
      → List RenderEvent
      → Metrics
      → Rendering
  handle_request node_env response_headers events metrics = handle_all events (record {
    did_error = false;
    has_logged_access = false;
    response_headers = response_headers;
    outcome = none;
    metrics = (ensure_observability_reporter_started node_env metrics).0;
    logged = [];
  })
