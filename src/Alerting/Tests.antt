-- ===== src/Alerting/Tests.antt =====
-- An input for each theorem on alerting that has hypotheses.
use hub_agent_kubernetes.Prelude.{
  ℕ, ◌+◌, ◌-◌, ◌*◌, ◌/◌, ◌≤◌, true, none, some, [], ◌∷◌, ◌≡◌, ◌↔◌, refl, select, length, arith, ret,
  ltb, lookup, string_eq,
}
use hub_agent_kubernetes.Metrics.Points.{Floats, DataPoint, empty_point}
use hub_agent_kubernetes.Alerting.{
  Threshold, Rule, no_alert, minute, table, granularity, DataPointsFinder, LogProvider, beyond,
  process, find_points, get_points, truncate_time, rule_type,
}
use hub_agent_kubernetes.Alerting.Thresholds.{is_raised, process-raised}
use hub_agent_kubernetes.Alerting.Manager.{Processors, Backend, Round, check_alerts}
use hub_agent_kubernetes.Alerting.Manager.Rounds.{
  NoPanic, raised_by, to_send, check_alerts-raised_by,
}

abbrev whole : Floats
whole = record {
  Float = ℕ;
  zero_float = 0;
  from_int = λ n. n;
  add_float = ◌+◌;
  sub_float = ◌-◌;
  div_float = ◌/◌;
  lt_float = ltb;
}

abbrev threshold : Threshold ℕ
threshold = record {
  metric = "requestsPerSecond";
  condition = record { above = true; value = 5 };
  occurrence = 1;
  time_range = 5 * minute;
}

abbrev rule : Rule ℕ
rule = record { id = "r"; ingress = ""; service = "web@default"; threshold = some threshold }

abbrev busy : DataPoint ℕ
busy = record (empty_point whole) { timestamp = 600; req_per_s = 9 }

abbrev finder : DataPointsFinder ℕ
finder = record {
  by_ingress_and_service = λ t i s from to. none;
  by_service = λ t s from to. busy ∷ [];
  by_ingress = λ t i from to. [];
}

abbrev provider : LogProvider
provider = record { get_service_logs = λ ns n lines len. none; compress = λ s. some s }

found :
    find_points whole finder provider rule
      (table threshold)
      (truncate_time 1000 (granularity threshold) - granularity threshold - 5 * minute)
      (truncate_time 1000 (granularity threshold) - granularity threshold)
    ≡ some (busy ∷ [])
unfolding find_points
found = refl

values :
    get_points "requestsPerSecond" (busy ∷ []) ≡ some (record { timestamp = 600; value = 9 } ∷ [])
unfolding get_points
values = refl

process-raised_example :
    (is_raised whole finder provider (process whole finder provider 1000 rule) ≡ true) ↔ (
      1
      ≤ length (
          select
            (beyond whole finder provider threshold.condition)
            (record { timestamp = 600; value = 9 } ∷ [])))
process-raised_example =
    process-raised whole finder provider 1000 rule threshold (busy ∷ [])
      (record { timestamp = 600; value = 9 } ∷ []) refl found values (omega arith) (omega arith)

abbrev procs : Processors ℕ
procs = ("threshold", λ r. ret no_alert) ∷ []

abbrev backend : Backend ℕ
backend = record { preflight_alerts = λ alerts. some alerts; send_alerts = λ alerts. true }

no_panic : NoPanic procs (rule ∷ [])
unfolding lookup rule_type
no_panic = (λ e. cc e, tt)

check_alerts-raised_by_example :
    (round : Round ℕ) × (check_alerts procs backend (rule ∷ []) ≡ ret round)
    × (round.preflighted ≡ raised_by procs (rule ∷ []))
    × (round.sent ≡ to_send procs (backend.preflight_alerts (raised_by procs (rule ∷ []))))
check_alerts-raised_by_example = check_alerts-raised_by procs backend (rule ∷ []) no_panic
