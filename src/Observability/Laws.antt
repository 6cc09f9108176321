-- ===== src/Observability/Laws.antt =====
-- What the metric store holds after any observations.
use history_quiz.Prelude.{
  ℕ, String, ◌+◌, ◌≡◌, refl, ap, sym, ◌∙◌, Bool, false, List, [], ◌∷◌, ◌++◌, map, ◌==◌, eq_iff,
  length, length-append, if◌then◌else◌, arith, Bool-cases, inl, inr,
}
use mathlib.Core.List.{append_assoc, append-nil}
use history_quiz.Prelude.Dict.{lookup, lookup-put}
use history_quiz.Observability.Samples.{
  append_latency_sample, last_of, append_latency_sample-last_of,
}
use history_quiz.Observability.{
  MetricScope, MetricWindow, Metrics, metric_key, current_window, updated_window, record_metric,
}

-- One call of recordMetric.
pub record Observation : Type 0 where
  pub is_error : Bool
  pub latency_ms : ℕ
  pub name : String
  pub scope : MetricScope

abbrev pub key_of : Observation → String
key_of o = metric_key o.scope o.name

abbrev pub observe : Metrics → Observation → Metrics
observe m o = record_metric o.is_error o.latency_ms o.name o.scope m

abbrev pub observe_all : Metrics → List Observation → Metrics
observe_all m [] = m
observe_all m (o ∷ os) = observe_all (observe m o) os

abbrev pub no_metrics : Metrics
no_metrics = record { metric_store = []; report_timer_started = false }

-- The observations under a key.
abbrev pub for_key : String → List Observation → List Observation
for_key k [] = []
for_key k (o ∷ os) = if key_of o == k then o ∷ for_key k os else for_key k os

abbrev pub count_errors : List Observation → ℕ
count_errors [] = 0
count_errors (o ∷ os) = if o.is_error then count_errors os + 1 else count_errors os

-- The window that a history calls for: how many requests and errors, and the last 512 latencies.
abbrev pub summary : List Observation → MetricWindow
summary os = record {
  error_count = count_errors os;
  latencies_ms = last_of 512 (map (λ o. o.latency_ms) os);
  request_count = length os;
}

count_errors-append :
    (os : List Observation) (o : Observation)
    → count_errors (os ++ o ∷ []) ≡ (if o.is_error then count_errors os + 1 else count_errors os)
count_errors-append [] o = refl
count_errors-append (p ∷ os) o = ground (arith, count_errors-append os o)

for_key-append :
    (k : String) (os : List Observation) (o : Observation)
    → for_key k (os ++ o ∷ []) ≡ (if key_of o == k then for_key k os ++ o ∷ [] else for_key k os)
for_key-append k [] o = refl
for_key-append k (p ∷ os) o = elim (Bool-cases (key_of p == k)) [
  | inl e ↦ rw (e, for_key-append k os o) (ground arith)
  | inr e ↦ rw (e, for_key-append k os o)
]

map_latency-append :
    (os : List Observation) (o : Observation)
    → map (λ p. p.latency_ms) (os ++ o ∷ []) ≡ map (λ p. p.latency_ms) os ++ o.latency_ms ∷ []
map_latency-append [] o = refl
map_latency-append (p ∷ os) o = ap (λ r. p.latency_ms ∷ r) (map_latency-append os o)

updated_window-summary :
    (os : List Observation) (o : Observation)
    → updated_window o.is_error o.latency_ms (summary os) ≡ summary (os ++ o ∷ [])
unfolding updated_window
updated_window-summary os o = λ i. record {
  error_count = sym (count_errors-append os o) i;
  latencies_ms = latencies i;
  request_count =
      (let e : length os + 1 ≡ length (os ++ o ∷ []) = sym (length-append os (o ∷ [])) in e) i;
}
  where
    latencies :
        append_latency_sample (last_of 512 (map (λ p. p.latency_ms) os)) o.latency_ms 512
        ≡ last_of 512 (map (λ p. p.latency_ms) (os ++ o ∷ []))
    latencies =
        append_latency_sample-last_of 512 o.latency_ms (map (λ p. p.latency_ms) os) (omega arith)
        ∙ ap (last_of 512) (sym (map_latency-append os o))

-- The store holds, under each key, the window that the history calls for.
abbrev pub Agrees : Metrics → List Observation → Type 0
Agrees m os = (k : String) → current_window (lookup k m.metric_store) ≡ summary (for_key k os)

observe-Agrees :
    (m : Metrics) (os : List Observation) (o : Observation)
    → Agrees m os
    → Agrees (observe m o) (os ++ o ∷ [])
unfolding record_metric
observe-Agrees m os o h k = elim (Bool-cases (key_of o == k)) [
  | inl e ↦
      let same : key_of o ≡ k = (eq_iff (key_of o) k).0 e in
      rw (lookup-put, for_key-append k os o, e)
        (rw (same, h k) (updated_window-summary (for_key k os) o))
  | inr e ↦ rw (lookup-put, for_key-append k os o, e) (h k)
]

observe_all-Agrees :
    (m : Metrics) (os more : List Observation)
    → Agrees m os
    → Agrees (observe_all m more) (os ++ more)
observe_all-Agrees m os [] h = rw append-nil h
observe_all-Agrees m os (o ∷ more) h =
    let ih = observe_all-Agrees (observe m o) (os ++ o ∷ []) more (observe-Agrees m os o h) in
    rw append_assoc at ih

-- From an empty store, after any calls of recordMetric, the window of every key counts exactly the
-- calls and the errors of that key, and holds its last 512 latencies in their order.
pub observe_all-summary :
    (os : List Observation) (k : String)
    → current_window (lookup k (observe_all no_metrics os).metric_store) ≡ summary (for_key k os)
observe_all-summary os = observe_all-Agrees no_metrics [] os (λ k. (unfold lookup in refl))
