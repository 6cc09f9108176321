-- ===== src/Entry/Faults.antt =====
-- Which errors of a rendering are logged.
use history_quiz.Prelude.{
  ℕ, String, ◌≡◌, refl, ap, sym, ◌∙◌, true, Option, some, List, [], ◌∷◌, ◌++◌, Bool-cases, inl, inr,
}
use mathlib.Core.List.{append_assoc, append-nil}
use history_quiz.Prelude.Letters.{UpperCase}
use history_quiz.Errors.{Thrown}
use history_quiz.Web.{Request}
use history_quiz.Observability.{Metrics}
use history_quiz.Observability.Logs.{observe_server_fault, write_structured_log}
use history_quiz.Entry.{
  Rendering, Moment, RenderEvent, shell_ready, shell_error, render_error, log_http_access_once,
  log_fault, on_shell_ready, on_shell_error, on_error, handle_event, handle_all, handle_request,
}
use history_quiz.Entry.Lines.{fault, error_lines, errors_of, error_lines-append}

module _ (u : UpperCase) {C : Type 0} (request : Request C) (response_status_code : ℕ)
    (started_at_ms : ℕ) where
  abbrev step : RenderEvent → Rendering → Rendering
  step = handle_event u request response_status_code started_at_ms

  abbrev steps : List RenderEvent → Rendering → Rendering
  steps = handle_all u request response_status_code started_at_ms

  abbrev failed_shell : Moment → Thrown → Rendering → Rendering
  failed_shell moment e s =
      log_fault u request response_status_code started_at_ms moment e "SSR のシェル生成に失敗しました。"
        "entry.server:onShellError" s

  access-faults :
      (moment : Moment) (status : ℕ) (headers : Option (List (String × String))) (s : Rendering)
      → error_lines
          (log_http_access_once u request response_status_code started_at_ms moment status headers
            s).logged
        ≡ error_lines s.logged
  unfolding log_http_access_once write_structured_log
  access-faults moment status headers s = elim (Bool-cases s.has_logged_access) [
    | inl e ↦ rw e
    | inr e ↦ rw e (error_lines-append s.logged _ ∙ append-nil (error_lines s.logged))
  ]

  log_fault-faults :
      (moment : Moment) (e : Thrown) (message source : String) (s : Rendering)
      → error_lines
          (log_fault u request response_status_code started_at_ms moment e message source s).logged
        ≡ error_lines s.logged ++ fault (some e) ∷ []
  unfolding log_fault observe_server_fault write_structured_log
  log_fault-faults moment e message source s = error_lines-append s.logged _

  step-faults :
      (event : RenderEvent) (s : Rendering)
      → error_lines (step event s).logged ≡ error_lines s.logged ++ errors_of (event ∷ [])
  unfolding handle_event on_shell_ready on_shell_error on_error log_fault
  step-faults (shell_ready moment) s =
      access-faults moment _ _ _ ∙ sym (append-nil (error_lines s.logged))
  step-faults (shell_error moment e) s =
      access-faults moment 500 (some s.response_headers) (failed_shell moment e s)
      ∙ log_fault-faults moment e "SSR のシェル生成に失敗しました。" "entry.server:onShellError" s
  step-faults (render_error moment e) s =
      log_fault-faults moment e "SSR レンダリング中にエラーが発生しました。" "entry.server:onError"
        (record s { did_error = true })

  steps-faults :
      (events : List RenderEvent) (s : Rendering)
      → error_lines (steps events s).logged ≡ error_lines s.logged ++ errors_of events
  steps-faults [] s = sym (append-nil (error_lines s.logged))
  steps-faults (event ∷ events) s =
      steps-faults events (step event s)
      ∙ ap (λ l. l ++ errors_of events) (step-faults event s)
      ∙ append_assoc (error_lines s.logged) (errors_of (event ∷ [])) (errors_of events)
      ∙ ap (error_lines s.logged ++◌) (joined event)
    where
      joined :
          (event : RenderEvent)
          → errors_of (event ∷ []) ++ errors_of events ≡ errors_of (event ∷ events)
      joined (shell_ready moment) = refl
      joined (shell_error moment e) = refl
      joined (render_error moment e) = refl

  -- The lines of the error output are just the faults of the rendering's errors, before and after the
  -- answer, in the order of the errors: no error is left out, and no other line is written there.
  pub handle_request-faults :
      (node_env : Option String) (headers : List (String × String)) (events : List RenderEvent)
      (metrics : Metrics)
      → error_lines
          (handle_request u request response_status_code started_at_ms node_env headers events
            metrics).logged
        ≡ errors_of events
  unfolding handle_request
  handle_request-faults node_env headers events metrics = steps-faults events _
