-- ===== src/Entry/Laws.antt =====
-- What a request for a page is answered, and what is logged of it.
use history_quiz.Prelude.{
  ℕ, String, ◌≡◌, refl, ap, sym, ◌∙◌, Bool, true, false, Option, none, some, List, [], ◌∷◌, ◌++◌,
}
use mathlib.Core.List.{append-nil}
use history_quiz.Prelude.Decimal.{to_decimal}
use history_quiz.Prelude.Letters.{UpperCase}
use history_quiz.Errors.{Thrown}
use history_quiz.Web.{Request}
use history_quiz.Observability.{Metrics, observe_http_request}
use history_quiz.Observability.Logs.{observe_server_fault, write_structured_log}
use history_quiz.Entry.{
  Outcome, resolved, rejected, Rendering, Moment, RenderEvent, shell_ready, shell_error,
  render_error, answered_status, page_headers, log_http_access_once, log_fault, on_shell_ready,
  on_shell_error, on_error, handle_event, handle_all, handle_request,
}
use history_quiz.Entry.Lines.{access_statuses, statuses_of, access_statuses-append, fault_appended}

module _ (u : UpperCase) {C : Type 0} (request : Request C) (response_status_code : ℕ)
    (started_at_ms : ℕ) where
  -- The answer that the events call for: that of the first event of the shell, with the status 500
  -- after an error.
  abbrev pub first_answer :
      (did_error : Bool) → List (String × String) → List RenderEvent → Option Outcome
  first_answer did_error headers [] = none
  first_answer did_error headers (shell_ready moment ∷ events) = some (
      resolved (answered_status u request response_status_code started_at_ms did_error)
        (page_headers u request response_status_code started_at_ms headers))
  first_answer did_error headers (shell_error moment e ∷ events) = some (rejected e)
  first_answer did_error headers (render_error moment e ∷ events) = first_answer true headers events

  abbrev step : RenderEvent → Rendering → Rendering
  step = handle_event u request response_status_code started_at_ms

  abbrev steps : List RenderEvent → Rendering → Rendering
  steps = handle_all u request response_status_code started_at_ms

  -- An answer that is given stays, and nothing more is logged of the access.
  IsDone : Outcome → Rendering → Type 0
  IsDone o s = (s.outcome ≡ some o) × (s.has_logged_access ≡ true)

  step-IsDone :
      (event : RenderEvent) (s : Rendering) (o : Outcome)
      → IsDone o s
      → IsDone o (step event s) × (access_statuses (step event s).logged ≡ access_statuses s.logged)
  unfolding IsDone handle_event on_shell_ready on_shell_error on_error log_http_access_once
      log_fault observe_server_fault write_structured_log
  step-IsDone (shell_ready moment) s o (h, k) = rw (k, h) ((refl, refl), refl)
  step-IsDone (shell_error moment e) s o (h, k) =
      rw (k, h) ((refl, refl), fault_appended s.logged _ _)
  step-IsDone (render_error moment e) s o (h, k) = ((h, k), fault_appended s.logged _ _)

  steps-IsDone :
      (events : List RenderEvent) (s : Rendering) (o : Outcome)
      → IsDone o s
      → IsDone o (steps events s)
        × (access_statuses (steps events s).logged ≡ access_statuses s.logged)
  steps-IsDone [] s o d = (d, refl)
  steps-IsDone (event ∷ events) s o d =
      let (d', same) = step-IsDone event s o d in
      let (done, rest) = steps-IsDone events (step event s) o d' in (done, rest ∙ same)

  abbrev failed_shell : Moment → Thrown → Rendering → Rendering
  failed_shell moment e s =
      log_fault u request response_status_code started_at_ms moment e "SSR のシェル生成に失敗しました。"
        "entry.server:onShellError" s

  access_logged :
      (moment : Moment) (status : ℕ) (headers : Option (List (String × String))) (s : Rendering)
      → s.has_logged_access ≡ false
      → access_statuses
          (log_http_access_once u request response_status_code started_at_ms moment status headers
            s).logged
        ≡ access_statuses s.logged ++ to_decimal status ∷ []
  unfolding log_http_access_once write_structured_log observe_http_request
  access_logged moment status headers s k = rw k (access_statuses-append s.logged _)

  log_fault-access :
      (moment : Moment) (e : Thrown) (message source : String) (s : Rendering)
      → access_statuses
          (log_fault u request response_status_code started_at_ms moment e message source s).logged
        ≡ access_statuses s.logged
  unfolding log_fault observe_server_fault write_structured_log
  log_fault-access moment e message source s = fault_appended s.logged _ _

  -- A state before the answer.
  IsOpen : Rendering → Type 0
  IsOpen s = (s.outcome ≡ none) × (s.has_logged_access ≡ false)

  -- What the events make of a state before the answer.
  Answers : Rendering → List RenderEvent → Rendering → Type 0
  Answers s events end =
      (end.outcome ≡ first_answer s.did_error s.response_headers events)
      × (access_statuses end.logged
          ≡ access_statuses s.logged
            ++ statuses_of (first_answer s.did_error s.response_headers events))

  done-Answers :
      (event : RenderEvent) (events : List RenderEvent) (s : Rendering) (o : Outcome)
      → first_answer s.did_error s.response_headers (event ∷ events) ≡ some o
      → IsDone o (step event s)
      → access_statuses (step event s).logged ≡ access_statuses s.logged ++ statuses_of (some o)
      → Answers s (event ∷ events) (steps events (step event s))
  unfolding Answers IsDone
  done-Answers event events s o f d logs =
      let ((outcome, _), same) = steps-IsDone events (step event s) o d in
      (outcome ∙ sym f, same ∙ logs ∙ ap (λ a. access_statuses s.logged ++ statuses_of a) (sym f))

  steps-Answers :
      (events : List RenderEvent) (s : Rendering) → IsOpen s → Answers s events (steps events s)
  unfolding IsOpen Answers IsDone handle_event on_shell_ready on_shell_error on_error
      log_http_access_once log_fault observe_server_fault write_structured_log observe_http_request
  steps-Answers [] s (h, k) = (h, sym (append-nil (access_statuses s.logged)))
  steps-Answers (shell_ready moment ∷ events) s (h, k) =
      done-Answers (shell_ready moment) events s _ refl (rw (k, h) (refl, refl))
        (rw k (access_statuses-append s.logged _))
  steps-Answers (shell_error moment e ∷ events) s (h, k) =
      done-Answers (shell_error moment e) events s _ refl (rw (k, h) (refl, refl)) (
        access_logged moment 500 (some s.response_headers) (failed_shell moment e s) k
        ∙ ap (λ l. l ++ to_decimal 500 ∷ [])
            (log_fault-access moment e "SSR のシェル生成に失敗しました。" "entry.server:onShellError" s))
  steps-Answers (render_error moment e ∷ events) s (h, k) =
      let (outcome, logs) = steps-Answers events (step (render_error moment e) s) (h, k) in
      (
        outcome,
        logs
            ∙ ap (λ l. l ++ statuses_of (first_answer true s.response_headers events))
                (fault_appended s.logged _ _),
      )

  -- Whatever React calls, the promise is settled by the first event of the shell alone: with the page
  -- under the given status, or 500 if a rendering error came before, and with the security headers;
  -- or with the shell's error. One access is logged if it is settled and none otherwise, and the
  -- logged status is the answer's, 500 for the shell's error.
  pub handle_request-answer :
      (node_env : Option String) (headers : List (String × String)) (events : List RenderEvent)
      (metrics : Metrics)
      → ((handle_request u request response_status_code started_at_ms node_env headers events
            metrics).outcome
          ≡ first_answer false headers events)
        × (access_statuses
              (handle_request u request response_status_code started_at_ms node_env headers events
                metrics).logged
            ≡ statuses_of (first_answer false headers events))
  unfolding handle_request IsOpen Answers
  handle_request-answer node_env headers events metrics = steps-Answers events _ (refl, refl)
