-- ===== src/Observability/Snapshots/Laws.antt =====
-- The snapshots against the observations that they summarise.
use Prim.Native.Char.{Char, code}
use Prim.Native.String
use text.Mathlib.TextEquality.{Char-path}
use text.Mathlib.TextLemmas.{nil-append, cons-append}
use mathlib.Core.List.{Mem, mem-cons, mem-cons_self, not-mem-nil}
use mathlib.Core.Logic.Or
use native.Mathlib.Bridge.{le_prop}
use history_quiz.Prelude.Dict.{lookup}
use history_quiz.Observability.Percentile.{calculate_p95}
use history_quiz.Observability.Samples.{last_of}
use history_quiz.Observability.Laws.{
  Observation, key_of, observe_all, no_metrics, for_key, count_errors, summary, observe_all-summary,
}
use mathlib.Core.List.Perm
use history_quiz.Prelude.{
  ℕ, String, ◌≡◌, refl, ap, sym, ◌∙◌, Bool, true, Option, none, some, List, [], ◌∷◌, ◌==◌, eq_iff,
  eq_refl, length, ◌<◌, map, nat_eq, arith, Bool-cases, inl, inr,
}
use history_quiz.Prelude.Sort.{sort_by, sort_by-perm}
use history_quiz.Prelude.Text.{split_on, push_first}
use history_quiz.Observability.{
  current_window, MetricScope, grpc, http, MetricWindow, metric_key, scope_text,
}
use history_quiz.Observability.Names.{join}
use history_quiz.Observability.Snapshots.{
  MetricSnapshot, first_part, other_parts, snapshot_of, before, get_metric_snapshots,
}

join-push_first :
    (sep : String) (c : Char) (ps : List String)
    → join sep (push_first c ps) ≡ String.◌∷◌ c (join sep ps)
unfolding join
join-push_first sep c [] = refl
join-push_first sep c (p ∷ []) = refl
join-push_first sep c (p ∷ q ∷ ps) = cons-append c p (String.◌++◌ sep (join sep (q ∷ ps)))

split_on-cons :
    (sep : ℕ) (s : String) → (p : String) × (ps : List String) × (split_on sep s ≡ p ∷ ps)
unfolding split_on
split_on-cons sep String.[] = ("", [], refl)
split_on-cons sep (String.◌∷◌ c s) = elim (Bool-cases (nat_eq (code c) sep)) [
  | inl e ↦ rw e ("", split_on sep s, refl)
  | inr e ↦ let (p, ps, h) = split_on-cons sep s in rw (e, h) (String.◌∷◌ c p, ps, refl)
]

colon-append : (t : String) → String.◌++◌ ":" t ≡ String.◌∷◌ ":" t
colon-append t = cons-append ":" "" t ∙ ap (String.◌∷◌ ":") (nil-append t)

-- Splitting a text at the colons and joining the parts again gives the text.
pub join-split_on : (s : String) → join ":" (split_on b':' s) ≡ s
unfolding split_on join
join-split_on String.[] = refl
join-split_on (String.◌∷◌ c s) = elim (Bool-cases (nat_eq (code c) b':')) [
  | inl e ↦
      let (p, ps, h) = split_on-cons b':' s in
      let colon : code c ≡ b':' = ground arith in
      rw e (
        ap (λ l. join ":" ("" ∷ l)) h
        ∙ nil-append (String.◌++◌ ":" (join ":" (p ∷ ps)))
        ∙ colon-append (join ":" (p ∷ ps))
        ∙ ap (String.◌∷◌ ":") (ap (join ":") (sym h) ∙ join-split_on s)
        ∙ ap (λ d. String.◌∷◌ d s) (sym (Char-path c ":" colon)))
  | inr e ↦ rw e (join-push_first ":" c (split_on b':' s) ∙ ap (String.◌∷◌ c) (join-split_on s))
]

letters-append :
    (a b c d : Char) (t : String)
    → String.◌++◌ (String.◌∷◌ a (String.◌∷◌ b (String.◌∷◌ c (String.◌∷◌ d "")))) t
      ≡ String.◌∷◌ a (String.◌∷◌ b (String.◌∷◌ c (String.◌∷◌ d t)))
letters-append a b c d t = simp (cons-append, nil-append)

split_on-metric_key :
    (scope : MetricScope) (name : String)
    → split_on b':' (metric_key scope name) ≡ scope_text scope ∷ split_on b':' name
unfolding split_on
split_on-metric_key grpc name = ap (split_on b':') (
    letters-append "g" "r" "p" "c" (String.◌++◌ ":" name)
    ∙ ap (λ t. String.◌∷◌ "g" (String.◌∷◌ "r" (String.◌∷◌ "p" (String.◌∷◌ "c" t))))
        (colon-append name))
split_on-metric_key http name = ap (split_on b':') (
    letters-append "h" "t" "t" "p" (String.◌++◌ ":" name)
    ∙ ap (λ t. String.◌∷◌ "h" (String.◌∷◌ "t" (String.◌∷◌ "t" (String.◌∷◌ "p" t))))
        (colon-append name))

snapshot_of-metric_key :
    (scope : MetricScope) (name : String) (w : MetricWindow)
    → ((snapshot_of (metric_key scope name, w)).scope ≡ scope_text scope)
      × ((snapshot_of (metric_key scope name, w)).name ≡ name)
unfolding snapshot_of
snapshot_of-metric_key scope name w =
    let parts = split_on-metric_key scope name in
    (ap first_part parts, ap (λ p. join ":" (other_parts p)) parts ∙ join-split_on name)

mem_of_lookup :
    (k : String) (w : MetricWindow) (store : List (String × MetricWindow))
    → lookup k store ≡ some w
    → Mem (snapshot_of (k, w)) (map snapshot_of store)
unfolding lookup
mem_of_lookup k w [] h = absurd (cc)
mem_of_lookup k w ((j, v) ∷ store) h = elim (Bool-cases (j == k)) [
  | inl e ↦
      let same : j ≡ k = (eq_iff j k).0 e in
      let found : v ≡ w = some_inj (rw e at h) in rw (same, found) mem-cons_self
  | inr e ↦ mem-cons.1 (Or.inr (mem_of_lookup k w store (rw e at h)))
]
  where
    some_inj : {a b : MetricWindow} → some a ≡ some b → a ≡ b
    some_inj h = cc

-- What a snapshot says of an observation's key, after a history of observations.
pub record IsSummary (os : List Observation) (o : Observation) (s : MetricSnapshot) : Type 0 where
  pub same_scope : s.scope ≡ scope_text o.scope
  pub same_name : s.name ≡ o.name
  pub counts : s.request_count ≡ length (for_key (key_of o) os)
  pub errors : s.error_count ≡ count_errors (for_key (key_of o) os)
  pub rate : s.error_rate ≡ (s.error_count, s.request_count)
  pub p95 :
      s.p95_latency_ms
      ≡ calculate_p95 (last_of 512 (map (λ p. p.latency_ms) (for_key (key_of o) os)))

for_key-observed :
    (o : Observation) (os : List Observation) → Mem o os → 0 < length (for_key (key_of o) os)
for_key-observed o [] m = absurd (not-mem-nil m)
for_key-observed o (p ∷ os) m = elim (Bool-cases (key_of p == key_of o)) [
  | inl e ↦ rw e (omega arith)
  | inr e ↦ rw e (
      Or.elim le_prop (mem-cons.0 m)
        (λ same.
          let equal : (key_of p == key_of o) ≡ true = rw same (eq_refl (key_of p)) in absurd (cc))
        (λ n. for_key-observed o os n))
]

window-IsSummary :
    (os : List Observation) (o : Observation) (w : MetricWindow)
    → w ≡ summary (for_key (key_of o) os)
    → Mem o os
    → IsSummary os o (snapshot_of (key_of o, w))
unfolding snapshot_of
window-IsSummary os o w h m =
    let (scope, name) = snapshot_of-metric_key o.scope o.name w in
    let observed = for_key-observed o os m in
    record {
      same_scope = scope;
      same_name = name;
      counts = ap (λ v. v.request_count) h;
      errors = ap (λ v. v.error_count) h;
      rate = (let positive : 0 < w.request_count = rw h observed in ground arith);
      p95 = ap (λ v. calculate_p95 v.latencies_ms) h;
    }

-- Every observation has its snapshot: after any history from an empty store there is one with the
-- observation's scope and name, whatever colons the name has, with the number of requests and of
-- errors of that key, their quotient, and the 95th percentile of its last 512 latencies.
pub get_metric_snapshots-IsSummary :
    (at_most : String → String → Bool) (os : List Observation) (o : Observation)
    → Mem o os
    → (s : MetricSnapshot) × Mem s (get_metric_snapshots at_most (observe_all no_metrics os))
      × IsSummary os o s
unfolding get_metric_snapshots
get_metric_snapshots-IsSummary at_most os o m =
    go (lookup (key_of o) (observe_all no_metrics os).metric_store) refl
  where
    go :
        (found : Option MetricWindow)
        → lookup (key_of o) (observe_all no_metrics os).metric_store ≡ found
        → (s : MetricSnapshot) × Mem s
            (sort_by (before at_most) (map snapshot_of (observe_all no_metrics os).metric_store))
          × IsSummary os o s
    go none e =
        let total = observe_all-summary os (key_of o) in
        let nothing = ap (λ w. w.request_count) (sym (ap current_window e) ∙ total) in
        let observed = for_key-observed o os m in absurd (omega arith)
    go (some w) e = (
      snapshot_of (key_of o, w),
      (Perm.mem_iff (
            sort_by-perm (before at_most)
              (map snapshot_of (observe_all no_metrics os).metric_store))).1
          (mem_of_lookup (key_of o) w (observe_all no_metrics os).metric_store e),
      window-IsSummary os o w (sym (ap current_window e) ∙ observe_all-summary os (key_of o)) m,
    )
