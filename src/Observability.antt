-- ===== src/Observability.antt =====
-- Metrics and access logs: client/app/services/observability.server.ts.
pub mod Names
pub mod Percentile
pub mod Samples
pub mod Snapshots
pub mod Logs
pub mod Laws
use Prim.Native.String
use Names.{normalize_pathname, to_http_status_class}
use Samples.{append_latency_sample}
use history_quiz.Prelude.{
  ℕ, String, ◌+◌, ◌-◌, ◌*◌, Bool, true, false, not, ◌||◌, Option, none, some, List, [], ◌∷◌, ◌==◌,
  leb, if◌then◌else◌,
}
use history_quiz.Prelude.Decimal.{to_decimal}
use history_quiz.Prelude.Dict.{lookup, put}
use history_quiz.Prelude.Letters.{UpperCase}
use history_quiz.Prelude.ParseInt.{positive_setting}
use history_quiz.Prelude.Text.{is_empty, trim, non_blank}
use history_quiz.RequestId.{Random, create_request_id}
use history_quiz.Web.{Request}

abbrev pub default_max_latency_samples : ℕ
default_max_latency_samples = 512

pub data MetricScope : Type 0 where
  grpc http : MetricScope

pub record MetricWindow : Type 0 where
  pub error_count : ℕ
  pub latencies_ms : List ℕ
  pub request_count : ℕ

-- The module's variables.
pub record Metrics : Type 0 where
  pub metric_store : List (String × MetricWindow)
  pub report_timer_started : Bool

-- The payload of writeStructuredLog for an access.
pub record AccessLog : Type 0 where
  pub at : ℕ
  pub latency_ms : ℕ
  pub method : String
  pub request_id : String
  pub status : String
  pub status_class : Option String
  pub user_id : Option String

abbrev pub scope_text : MetricScope → String
scope_text grpc = "grpc"
scope_text http = "http"

abbrev pub metric_key : MetricScope → String → String
metric_key scope name = String.◌++◌ (scope_text scope) (String.◌++◌ ":" name)

abbrev pub empty_window : MetricWindow
empty_window = record { error_count = 0; latencies_ms = []; request_count = 0 }

abbrev pub current_window : Option MetricWindow → MetricWindow
current_window none = empty_window
current_window (some w) = w

-- The change that recordMetric makes to a window.
unfoldable pub updated_window : Bool → ℕ → MetricWindow → MetricWindow
updated_window is_error latency_ms current = record {
  error_count = if is_error then current.error_count + 1 else current.error_count;
  latencies_ms = append_latency_sample current.latencies_ms latency_ms default_max_latency_samples;
  request_count = current.request_count + 1;
}

-- recordMetric
unfoldable pub record_metric :
    (is_error : Bool) (latency_ms : ℕ) (name : String) → MetricScope → Metrics → Metrics
record_metric is_error latency_ms name scope metrics =
    let key = metric_key scope name in
    record metrics {
      metric_store =
          put key
            (updated_window is_error latency_ms (current_window (lookup key metrics.metric_store)))
            metrics.metric_store;
    }

abbrev pub is_test : Option String → Bool
is_test none = false
is_test (some e) = e == "test"

-- ensureObservabilityReporterStarted: whether a timer is started.
unfoldable pub ensure_observability_reporter_started :
    (node_env : Option String) → Metrics → Metrics × Bool
ensure_observability_reporter_started node_env metrics =
    if metrics.report_timer_started || is_test node_env
    then (metrics, false)
    else (record metrics { report_timer_started = true }, true)

-- resolveReportIntervalMs
unfoldable pub resolve_report_interval_ms : (raw : Option String) → ℕ
resolve_report_interval_ms raw = positive_setting raw 60 * 1000

abbrev pub or_made : Option String → String → String
or_made none made = made
or_made (some id) made = if non_blank id then trim id else made

-- resolveRequestId
unfoldable pub resolve_request_id : Random → Option String → String
resolve_request_id random request_id = or_made request_id (create_request_id random)

module _ (u : UpperCase) (random : Random) (now : ℕ) where
  -- normalizeGrpcCode
  unfoldable pub normalize_grpc_code : String → String
  normalize_grpc_code code =
      let normalized = u.to_upper_case (trim code) in
      if is_empty normalized then "UNKNOWN" else normalized

  -- observeHttpRequest
  unfoldable pub observe_http_request :
      {C : Type 0}
      → Request C
      → (request_id : Option String) (response_status : ℕ) (route_id : Option String)
        (started_at_ms : ℕ) (user_id : Option String)
      → Metrics
      → Metrics × AccessLog
  observe_http_request request request_id response_status route_id started_at_ms user_id metrics =
      let pathname = normalize_pathname request.url.pathname in
      let method_with_path =
        String.◌++◌ (u.to_upper_case request.method) (String.◌++◌ " " pathname) in
      let latency_ms = now - started_at_ms in
      (
        record_metric (leb 500 response_status) latency_ms (or_made route_id method_with_path) http
            metrics,
        record {
          at = now;
          latency_ms = latency_ms;
          method = method_with_path;
          request_id = resolve_request_id random request_id;
          status = to_decimal response_status;
          status_class = some (to_http_status_class response_status);
          user_id = user_id;
        },
      )

  -- observeGrpcCall
  unfoldable pub observe_grpc_call :
      (grpc_code : String) (request_id : Option String) (rpc_method : String) (started_at_ms : ℕ)
      (user_id : Option String)
      → Metrics
      → Metrics × AccessLog
  observe_grpc_call grpc_code request_id rpc_method started_at_ms user_id metrics =
      let normalized_code = normalize_grpc_code grpc_code in
      let latency_ms = now - started_at_ms in
      (
        record_metric (not (normalized_code == "OK")) latency_ms
            (or_made (some rpc_method) "unknown") grpc metrics,
        record {
          at = now;
          latency_ms = latency_ms;
          method = rpc_method;
          request_id = resolve_request_id random request_id;
          status = normalized_code;
          status_class = none;
          user_id = user_id;
        },
      )
