-- ===== src/Alerting/Thresholds.antt =====
-- What pkg/alerting/processors.go and pkg/alerting/types.go decide about a threshold.
use hub_agent_kubernetes.Prelude.{
  ℕ, ◌+◌, ◌*◌, ◌%◌, String, Bool, true, false, some, List, [], ◌∷◌, ◌≡◌, ◌↔◌, refl, sym, ◌∙◌, ◌==◌,
  string_eq, if◌then◌else◌, arith, length, select, Run, ret, ltb, Bool-cases, inl, inr, ◌<◌, ◌≤◌,
  ◌-◌, ltb→lt,
}
use hub_agent_kubernetes.Int64
use hub_agent_kubernetes.Int64.{Int64}
use hub_agent_kubernetes.Metrics.Points.{Floats, DataPoints}
use hub_agent_kubernetes.Metrics.Store.{TableInfo, standard_tables}
use hub_agent_kubernetes.Alerting.{
  Threshold, ThresholdCondition, Rule, Point, Processed, raised, minute, hour, table, granularity,
  get_points, DataPointsFinder, LogProvider, beyond, count_occurrences, find_points, process,
  truncate_time,
}

-- The time between the points of a table: that of the table it is rolled up from, and a minute,
-- the interval of the scraper, for the first.
abbrev pub spacing : String → List TableInfo → ℕ
spacing name [] = minute
spacing name (info ∷ tables) = if info.next == name then info.roll_up else spacing name tables

-- The granularity of a threshold is the time between the points of the table it is checked on.
pub granularity-table :
    {R : Type 0} (t : Threshold R) → granularity t ≡ spacing (table t) standard_tables
unfolding granularity table
granularity-table t = elim (Bool-cases (ltb (24 * hour) t.time_range)) [
  | inl day ↦ rw day
  | inr no_day ↦ elim (Bool-cases (ltb hour t.time_range)) [
    | inl one_hour ↦ rw (no_day, one_hour)
    | inr no_hour ↦ elim (Bool-cases (ltb (10 * minute) t.time_range)) [
      | inl some_minutes ↦ rw (no_day, no_hour, some_minutes)
      | inr few ↦ rw (no_day, no_hour, few)
    ]
  ]
]

module _ (fl : Floats) (finder : DataPointsFinder (fl.Float)) (provider : LogProvider) where
  open fl use {Float}

  count_occurrences-from :
      (c : ThresholdCondition Float) (count : Int64) (pnts : List (Point Float))
      → count < Int64.modulus
      → count_occurrences fl finder provider c count pnts
        ≡ (count + length (select (beyond fl finder provider c) pnts)) % Int64.modulus
  unfolding count_occurrences
  count_occurrences-from c count [] h = omega arith
  count_occurrences-from c count (p ∷ pnts) h =
      let small : Int64.add count 1 < Int64.modulus = omega arith in
      ground (
        arith,
        count_occurrences-from c (Int64.add count 1) pnts small,
        count_occurrences-from c count pnts h,
      )

  length-select :
      (f : Point Float → Bool) (pnts : List (Point Float)) → length (select f pnts) ≤ length pnts
  length-select f [] = omega arith
  length-select f (p ∷ pnts) = ground (arith, length-select f pnts)

  abbrev pub is_raised : Run (Processed Float) → Bool
  is_raised (ret (raised alert)) = true
  is_raised _ = false

  -- A rule raises an alert just where as many of its points as it asks for lie beyond its value: on
  -- a rule with a threshold whose points were found and have values, with fewer than 2 ^ 63 points
  -- and an occurrence that is not negative.
  pub process-raised :
      (now : ℕ) (rule : Rule Float) (t : Threshold Float) (data_points : DataPoints Float)
      (points : List (Point Float))
      → rule.threshold ≡ some t
      → find_points fl finder provider rule
          (table t)
          (truncate_time now (granularity t) - granularity t - t.time_range)
          (truncate_time now (granularity t) - granularity t)
        ≡ some data_points
      → get_points t.metric data_points ≡ some points
      → length points < Int64.half
      → t.occurrence < Int64.half
      → (is_raised (process fl finder provider now rule) ≡ true)
        ↔ (t.occurrence ≤ length (select (beyond fl finder provider t.condition) points))
  unfolding process
  process-raised now rule t data_points points has_t found values few few' =
      let c = t.condition in
      let n = length (select (beyond fl finder provider c) points) in
      let count = count_occurrences fl finder provider c 0 points in
      let short : n ≤ length points = length-select (beyond fl finder provider c) points in
      let counted : count ≡ n =
        omega (arith, count_occurrences-from c 0 points (omega arith), short) in
      let small : count < Int64.half = omega (arith, counted, short) in
      let exact = Int64.less-ltb count t.occurrence small few' in
      elim (Bool-cases (Int64.less count t.occurrence)) [
        | inl e ↦
            let under = ltb→lt count t.occurrence (sym exact ∙ e) in
            rw (has_t, found, values, e, process)
              (λ p. absurd (cc p), λ le. absurd (omega (arith, under, counted, le)))
        | inr e ↦
            let over : t.occurrence ≤ n = ground (arith, exact, e, counted) in
            rw (has_t, found, values, e, process) (λ p. over, λ le. refl)
      ]
