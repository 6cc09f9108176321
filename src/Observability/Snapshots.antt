-- ===== src/Observability/Snapshots.antt =====
-- The summary of the metrics: getMetricSnapshots of client/app/services/observability.server.ts.
pub mod Laws
use history_quiz.Prelude.{ℕ, String, Bool, List, [], ◌∷◌, ◌==◌, map, nat_eq, if◌then◌else◌}
use history_quiz.Prelude.Sort.{sort_by}
use history_quiz.Prelude.Text.{split_on}
use history_quiz.Observability.{MetricWindow, Metrics}
use history_quiz.Observability.Names.{join}
use history_quiz.Observability.Percentile.{calculate_p95}

-- `error_rate` is the quotient before its rounding to a double, as its numerator and denominator.
pub record MetricSnapshot : Type 0 where
  pub error_count : ℕ
  pub error_rate : ℕ × ℕ
  pub name : String
  pub p95_latency_ms : ℕ
  pub request_count : ℕ
  pub scope : String

abbrev pub first_part : List String → String
first_part [] = ""
first_part (scope ∷ name_parts) = scope

abbrev pub other_parts : List String → List String
other_parts [] = []
other_parts (scope ∷ name_parts) = name_parts

-- requestCount > 0 ? errorCount / requestCount : 0
abbrev pub error_rate_of : (error_count request_count : ℕ) → ℕ × ℕ
error_rate_of error_count request_count =
    if nat_eq request_count 0 then (0, 1) else (error_count, request_count)

-- The body of the loop over metricStore.entries().
unfoldable pub snapshot_of : String × MetricWindow → MetricSnapshot
snapshot_of (key, window) =
    let parts = split_on b':' key in
    record {
      error_count = window.error_count;
      error_rate = error_rate_of window.error_count window.request_count;
      name = join ":" (other_parts parts);
      p95_latency_ms = calculate_p95 window.latencies_ms;
      request_count = window.request_count;
      scope = first_part parts;
    }

-- The comparison that sorts the snapshots; `at_most a b` is a.localeCompare(b) <= 0.
abbrev pub before : (at_most : String → String → Bool) → MetricSnapshot → MetricSnapshot → Bool
before at_most a b = if a.scope == b.scope then at_most a.name b.name else at_most a.scope b.scope

-- getMetricSnapshots
unfoldable pub get_metric_snapshots :
    (at_most : String → String → Bool) → Metrics → List MetricSnapshot
get_metric_snapshots at_most metrics =
    sort_by (before at_most) (map snapshot_of metrics.metric_store)
