-- ===== src/Tests/Rendering.antt =====
-- A page whose rendering fails before and after it is sent, and the metrics of two requests.
use history_quiz.Prelude.{ℕ, String, ◌≡◌, ◌⊎◌, Bool, false, true, none, List, [], ◌∷◌}
use mathlib.Core.List.{Mem, mem-cons_self}
use history_quiz.Errors.{foreign}
use history_quiz.Observability.{grpc, http}
use history_quiz.Observability.Laws.{Observation, observe_all, no_metrics}
use history_quiz.Observability.Snapshots.{MetricSnapshot, get_metric_snapshots}
use history_quiz.Observability.Snapshots.Laws.{IsSummary, get_metric_snapshots-IsSummary}
use history_quiz.Entry.{
  Moment, RenderEvent, shell_ready, render_error, page_headers, handle_request,
}
use history_quiz.Entry.Lines.{access_statuses, error_lines, errors_of, statuses_of}
use history_quiz.Entry.Laws.{first_answer, handle_request-answer}
use history_quiz.Entry.Faults.{handle_request-faults}
use history_quiz.Entry.Secure.{IsSecure, handle_request-IsSecure}
use history_quiz.Tests.World.{upper, random, request_with}

abbrev moment : Moment
moment = record { now = 7; fault_random = random; access_random = random }

abbrev calls : List RenderEvent
calls =
    render_error moment foreign
    ∷ shell_ready moment
    ∷ render_error moment foreign
    ∷ shell_ready moment
    ∷ []

handle_request-answer_example :
    ((handle_request upper (request_with none) 200 5 none [] calls no_metrics).outcome
      ≡ first_answer upper (request_with none) 200 5 false [] calls)
    × (access_statuses
          (handle_request upper (request_with none) 200 5 none [] calls no_metrics).logged
        ≡ statuses_of (first_answer upper (request_with none) 200 5 false [] calls))
handle_request-answer_example =
    handle_request-answer upper (request_with none) 200 5 none [] calls no_metrics

handle_request-faults_example :
    error_lines (handle_request upper (request_with none) 200 5 none [] calls no_metrics).logged
    ≡ errors_of calls
handle_request-faults_example =
    handle_request-faults upper (request_with none) 200 5 none [] calls no_metrics

abbrev sent_headers : List (String × String)
sent_headers = page_headers upper (request_with none) 200 5 []

handle_request-IsSecure_example :
    IsSecure sent_headers × ((◌≡◌ {A = ℕ} 500 200) ⊎ (◌≡◌ {A = ℕ} 500 500))
handle_request-IsSecure_example =
    handle_request-IsSecure upper (request_with none) 200 5 none [] calls no_metrics 500
      sent_headers
      (handle_request-answer upper (request_with none) 200 5 none [] calls no_metrics).0

abbrev asked : Observation
asked = record { is_error = true; latency_ms = 9; name = "/a:b"; scope = grpc }

abbrev answered : Observation
answered = record { is_error = false; latency_ms = 4; name = "GET /"; scope = http }

abbrev any_order : String → String → Bool
any_order a b = true

get_metric_snapshots-IsSummary_example :
    (s : MetricSnapshot) × Mem s
      (get_metric_snapshots any_order (observe_all no_metrics (asked ∷ answered ∷ [])))
    × IsSummary (asked ∷ answered ∷ []) asked s
get_metric_snapshots-IsSummary_example =
    get_metric_snapshots-IsSummary any_order (asked ∷ answered ∷ []) asked mem-cons_self
