-- ===== src/Metrics/Sets/Totals.antt =====
-- `Aggregate` of pkg/metrics/aggregator.go sums the scraped counters of each key.
use hub_agent_kubernetes.Prelude.{
  DistinctKeys, DistinctKeys-insert, ℕ, ◌+◌, ◌%◌, ◌<◌, String, ◌&&◌, List, [], ◌∷◌, ◌≡◌, arith,
  ◌==◌, string_eq, if◌then◌else◌, GoMap, lookup, insert, default, lookup-insert, ◌≢◌, str_iff,
}
use hub_agent_kubernetes.Int64
use hub_agent_kubernetes.Int64.{Int64, IsNat}
use hub_agent_kubernetes.Metrics.Points.{Floats, SetKey}
use hub_agent_kubernetes.Metrics.Sets.{
  set_key_eq, Metric, counter, histogram, ServiceHistogram, MetricSet, metric_key, to_int64,
  empty_set, count_metric, count_metrics, aggregate_metrics,
}

-- The sum of the counters of one name and one key.
abbrev pub total : {R : Type 0} → String → SetKey → List (Metric R) → ℕ
total name key [] = 0
total name key (histogram h ∷ m) = total name key m
total {R} name key (counter c ∷ m) =
    if c.name == name && metric_key {R = R} (counter c) == key
    then c.value + total name key m
    else total name key m

-- The three counters that `Aggregate` keeps, with their names.
pub data Counted : Type 0 where
  all : Counted
  errors : Counted
  client_errors : Counted

abbrev pub name_of : Counted → String
name_of all = "requests"
name_of errors = "request_errors"
name_of client_errors = "request_client_errors"

abbrev pub count_of : {R : Type 0} → Counted → MetricSet R → ℕ
count_of all s = s.requests
count_of errors s = s.request_errors
count_of client_errors s = s.request_client_errors

names-differ :
    (s : String)
    → (s ≡ "requests" → s ≢ "request_errors")
      × (s ≡ "requests" → s ≢ "request_client_errors")
      × (s ≡ "request_errors" → s ≢ "request_client_errors")
names-differ s = (λ p q. cc (p, q), λ p q. cc (p, q), λ p q. cc (p, q))

module _ (fl : Floats) where
  open fl use {Float}

  abbrev pub set_at : SetKey → GoMap SetKey (MetricSet Float) → MetricSet Float
  set_at key svcs = default (empty_set fl) (lookup key svcs)

  set_at-insert :
      (k key : SetKey) (v : MetricSet Float) (svcs : GoMap SetKey (MetricSet Float))
      → set_at key (insert k v svcs) ≡ (if k == key then v else set_at key svcs)
  set_at-insert k key v svcs = ground (arith, lookup-insert k key v svcs)

  count_metric-count :
      (q : Counted) (metric : Metric Float) (svcs : GoMap SetKey (MetricSet Float)) (key : SetKey)
      → count_of q (set_at key svcs) < Int64.modulus
      → count_of q (set_at key (count_metric fl metric svcs))
        ≡ (count_of q (set_at key svcs) + total (name_of q) key (metric ∷ [])) % Int64.modulus
  unfolding count_metric
  count_metric-count q (counter c) svcs key h =
      let mk = metric_key {R = Float} (counter c) in
      let svc = set_at mk svcs in
      let v = to_int64 c.value in
      let rs = record svc { requests = Int64.add svc.requests v } in
      let es = record svc { request_errors = Int64.add svc.request_errors v } in
      let cs = record svc { request_client_errors = Int64.add svc.request_client_errors v } in
      elim q [
        | all ↦ ground (
          arith,
          set_key_eq.same_iff mk key,
          set_at-insert mk key rs svcs,
          set_at-insert mk key es svcs,
          set_at-insert mk key cs svcs,
          str_iff c.name (name_of all),
          names-differ c.name,
          str_iff c.name (name_of errors),
          str_iff c.name (name_of client_errors),
        )
        | errors ↦ ground (
          arith,
          set_key_eq.same_iff mk key,
          set_at-insert mk key rs svcs,
          set_at-insert mk key es svcs,
          set_at-insert mk key cs svcs,
          str_iff c.name (name_of all),
          names-differ c.name,
          str_iff c.name (name_of errors),
          str_iff c.name (name_of client_errors),
        )
        | client_errors ↦ ground (
          arith,
          set_key_eq.same_iff mk key,
          set_at-insert mk key rs svcs,
          set_at-insert mk key es svcs,
          set_at-insert mk key cs svcs,
          str_iff c.name (name_of all),
          names-differ c.name,
          str_iff c.name (name_of errors),
          str_iff c.name (name_of client_errors),
        )
      ]
  count_metric-count q (histogram g) svcs key h =
      let mk = metric_key (histogram g) in
      let svc = set_at mk svcs in
      let v : ServiceHistogram Float = record {
        relative = g.relative;
        sum = fl.add_float svc.request_duration.sum g.sum;
        count = Int64.add svc.request_duration.count (to_int64 g.count);
      } in
      let hs = record svc { request_duration = v } in
      elim q [
        | all ↦ ground (arith, set_key_eq.same_iff mk key, set_at-insert mk key hs svcs)
        | errors ↦ ground (arith, set_key_eq.same_iff mk key, set_at-insert mk key hs svcs)
        | client_errors ↦ ground (arith, set_key_eq.same_iff mk key, set_at-insert mk key hs svcs)
      ]

  total-cons :
      (name : String) (key : SetKey) (metric : Metric Float) (m : List (Metric Float))
      → total name key (metric ∷ m) ≡ total name key (metric ∷ []) + total name key m
  total-cons name key (counter c) m = ground arith
  total-cons name key (histogram g) m = omega arith

  count_metrics-count :
      (q : Counted) (m : List (Metric Float)) (svcs : GoMap SetKey (MetricSet Float)) (key : SetKey)
      → count_of q (set_at key svcs) < Int64.modulus
      → count_of q (set_at key (count_metrics fl m svcs))
        ≡ (count_of q (set_at key svcs) + total (name_of q) key m) % Int64.modulus
  unfolding count_metrics
  count_metrics-count q [] svcs key h = omega arith
  count_metrics-count q (metric ∷ m) svcs key h =
      let step = count_metric-count q metric svcs key h in
      let less : count_of q (set_at key (count_metric fl metric svcs)) < Int64.modulus =
        omega (arith, step) in
      omega (
        arith,
        step,
        count_metrics-count q m (count_metric fl metric svcs) key less,
        total-cons (name_of q) key metric m,
      )

  pub aggregate_metrics-total :
      (q : Counted) (m : List (Metric Float)) (key : SetKey)
      → count_of q (set_at key (aggregate_metrics fl m)) ≡ total (name_of q) key m % Int64.modulus
  unfolding aggregate_metrics lookup
  aggregate_metrics-total all m key = omega (arith, count_metrics-count all m [] key (omega arith))
  aggregate_metrics-total errors m key =
      omega (arith, count_metrics-count errors m [] key (omega arith))
  aggregate_metrics-total client_errors m key =
      omega (arith, count_metrics-count client_errors m [] key (omega arith))

  count_metric-DistinctKeys :
      (metric : Metric Float) (svcs : GoMap SetKey (MetricSet Float))
      → DistinctKeys svcs
      → DistinctKeys (count_metric fl metric svcs)
  unfolding count_metric
  count_metric-DistinctKeys (counter c) svcs d = grind (arith, DistinctKeys-insert)
  count_metric-DistinctKeys (histogram h) svcs d = grind (arith, DistinctKeys-insert)

  count_metrics-DistinctKeys :
      (m : List (Metric Float)) (svcs : GoMap SetKey (MetricSet Float))
      → DistinctKeys svcs
      → DistinctKeys (count_metrics fl m svcs)
  unfolding count_metrics
  count_metrics-DistinctKeys [] svcs d = d
  count_metrics-DistinctKeys (metric ∷ m) svcs d =
      count_metrics-DistinctKeys m (count_metric fl metric svcs)
        (count_metric-DistinctKeys metric svcs d)

  -- `Aggregate` has each key once.
  pub aggregate_metrics-DistinctKeys :
      (m : List (Metric Float)) → DistinctKeys (aggregate_metrics fl m)
  unfolding aggregate_metrics
  aggregate_metrics-DistinctKeys m = count_metrics-DistinctKeys m [] tt
