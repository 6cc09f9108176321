-- ===== src/Observability/Logs.antt =====
-- The structured logs: observeServerFault, emitMetricsSnapshot and writeStructuredLog of
-- client/app/services/observability.server.ts.
use history_quiz.Prelude.{ℕ, String, Bool, Option, none, some, List, [], ◌∷◌}
use history_quiz.Errors.{Thrown}
use history_quiz.RequestId.{Random}
use history_quiz.Observability.{AccessLog, Metrics, resolve_request_id}
use history_quiz.Observability.Snapshots.{MetricSnapshot, get_metric_snapshots}

-- A fault's payload, with its caught value.
pub record FaultLog : Type 0 where
  pub at : ℕ
  pub detail : Option Thrown
  pub message : String
  pub request_id : String
  pub source : String
  pub user_id : Option String

-- The payloads of writeStructuredLog, by their `type`.
pub data Payload : Type 0 where
  http_access : AccessLog → Payload
  grpc_client_access : AccessLog → Payload
  server_fault : FaultLog → Payload
  server_metrics_snapshot : (at : ℕ) → List MetricSnapshot → Payload

-- console.error and console.info.
pub data Channel : Type 0 where
  error_output info_output : Channel

-- writeStructuredLog: the line goes to one output.
unfoldable pub write_structured_log : Payload → Channel × Payload
write_structured_log (server_fault log) = (error_output, server_fault log)
write_structured_log payload = (info_output, payload)

-- observeServerFault
unfoldable pub observe_server_fault :
    Random
    → (now : ℕ) → Option Thrown
    → (message : String) (request_id : Option String) (source : String) (user_id : Option String)
    → Channel × Payload
observe_server_fault random now detail message request_id source user_id = write_structured_log (
    server_fault (record {
      at = now;
      detail = detail;
      message = message;
      request_id = resolve_request_id random request_id;
      source = source;
      user_id = user_id;
    }))

abbrev pub snapshot_log : ℕ → List MetricSnapshot → Option (Channel × Payload)
snapshot_log now [] = none
snapshot_log now (m ∷ ms) = some (write_structured_log (server_metrics_snapshot now (m ∷ ms)))

-- emitMetricsSnapshot, which writes nothing when there are no metrics.
unfoldable pub emit_metrics_snapshot :
    (at_most : String → String → Bool) (now : ℕ) → Metrics → Option (Channel × Payload)
emit_metrics_snapshot at_most now metrics = snapshot_log now (get_metric_snapshots at_most metrics)
