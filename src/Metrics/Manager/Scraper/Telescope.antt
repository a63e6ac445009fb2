-- ===== src/Metrics/Manager/Scraper/Telescope.antt =====
-- The loop of `startScraper` (pkg/metrics/manager.go) counts each request once.
use hub_agent_kubernetes.Prelude.{
  ℕ, ◌+◌, ◌≤◌, Option, none, some, List, [], ◌∷◌, ◌≡◌, refl, ap, ◌∙◌, arith, ◌==◌, string_eq, GoMap,
  lookup, insert, default, lookup-insert, DistinctKeys, Bool-cases, Option-cases, inl, inr,
  eq_of_==, map,
}
use hub_agent_kubernetes.Int64
use hub_agent_kubernetes.Int64.{Int64, IsNat}
use hub_agent_kubernetes.Metrics.Points.{Floats, DataPoint, SetKey}
use hub_agent_kubernetes.Metrics.Sets.{
  set_key_eq, Metric, MetricSet, empty_set, aggregate_metrics, relative_to, to_data_point,
  points_of_tick,
}
use hub_agent_kubernetes.Metrics.Sets.Totals.{
  all, total, set_at, aggregate_metrics-total, aggregate_metrics-DistinctKeys,
}
use hub_agent_kubernetes.Metrics.Manager.Scraper.{Tick, scrape_sec, scrape_rounds}

-- The requests that a round counts for a key.
abbrev pub in_point : {R : Type 0} → Option (DataPoint R) → ℕ
in_point none = 0
in_point (some p) = p.requests

abbrev pub requests_of : {R : Type 0} → SetKey → GoMap SetKey (DataPoint R) → ℕ
requests_of key pnts = in_point (lookup key pnts)

abbrev pub all_requests : {R : Type 0} → SetKey → List (GoMap SetKey (DataPoint R)) → ℕ
all_requests key [] = 0
all_requests key (pnts ∷ rounds) = requests_of key pnts + all_requests key rounds

-- A tick at an instant, with what was scraped.
abbrev pub scraped_at : {R : Type 0} → Int64 × List (Metric R) → Tick R
scraped_at t = record { ts = t.0; scraped = some t.1 }

-- The total of the requests of a key in the scrapes is never negative as an `int64`, and never goes
-- down.
abbrev pub IsAscending :
    {R : Type 0} → SetKey → List (Metric R) → List (Int64 × List (Metric R)) → Type 0
IsAscending key m [] = IsNat (total "requests" key m)
IsAscending key m ((ts, n) ∷ later) =
    IsNat (total "requests" key m)
    × (total "requests" key m ≤ total "requests" key n)
    × IsAscending key n later

abbrev pub last_scrape :
    {R : Type 0} → List (Metric R) → List (Int64 × List (Metric R)) → List (Metric R)
last_scrape m [] = m
last_scrape m ((ts, n) ∷ later) = last_scrape n later

module _ (fl : Floats) where
  open fl use {Float}

  -- The requests of the point of a set.
  abbrev moved : GoMap SetKey (MetricSet Float) → SetKey → Option (MetricSet Float) → ℕ → ℕ
  moved ref key none before = before
  moved ref key (some s) before = (relative_to fl s (set_at fl key ref)).requests

  points_of_tick-requests :
      (ts secs : Int64) (ref set : GoMap SetKey (MetricSet Float))
      (pnts : GoMap SetKey (DataPoint Float)) (key : SetKey)
      → DistinctKeys set
      → requests_of key (points_of_tick fl ts secs ref set pnts)
        ≡ moved ref key (lookup key set) (requests_of key pnts)
  unfolding points_of_tick to_data_point lookup
  points_of_tick-requests ts secs ref [] pnts key d = refl
  points_of_tick-requests ts secs ref ((k, s) ∷ set) pnts key (fresh, d) =
      let pnt = to_data_point fl secs (relative_to fl s (default (empty_set fl) (lookup k ref))) in
      let p : DataPoint Float = record pnt { timestamp = ts; seconds = secs } in
      let ih = points_of_tick-requests ts secs ref set (insert k p pnts) key d in
      let look = lookup-insert k key p pnts in
      elim (Bool-cases (k == key)) [
        | inl same ↦
            let q : k ≡ key = eq_of_== k key same in
            let gone : lookup key set ≡ none = rw q at fresh in
            let first : requests_of key (insert k p pnts) ≡ p.requests =
              ap in_point (rw same at look) in
            rw same (
              ih
              ∙ ap (λ o. moved ref key o (requests_of key (insert k p pnts))) gone
              ∙ first
              ∙ ap (λ x. (relative_to fl s (set_at fl x ref)).requests) q)
        | inr other ↦
            rw other
              (ih ∙ ap (λ n. moved ref key (lookup key set) n) (ap in_point (rw other at look)))
      ]

  relative_to-requests :
      (s ref : MetricSet Float)
      → IsNat s.requests
      → IsNat ref.requests
      → ref.requests ≤ s.requests
      → ref.requests + (relative_to fl s ref).requests ≡ s.requests
  unfolding relative_to
  relative_to-requests s ref h k le = ground (arith, Int64.less-ltb s.requests ref.requests h k)

  -- The set of a key counts the requests of its scrape.
  set_at-total :
      (m : List (Metric Float)) (key : SetKey)
      → IsNat (total "requests" key m)
      → (set_at fl key (aggregate_metrics fl m)).requests ≡ total "requests" key m
  set_at-total m key h = omega (arith, aggregate_metrics-total fl all m key)

  -- One tick counts what was added since the one before.
  tick-requests :
      (ts : Int64) (m n : List (Metric Float)) (key : SetKey)
      → IsNat (total "requests" key m)
      → IsNat (total "requests" key n)
      → total "requests" key m ≤ total "requests" key n
      → total "requests" key m
          + requests_of key
              (points_of_tick fl ts scrape_sec (aggregate_metrics fl m) (aggregate_metrics fl n) [])
        ≡ total "requests" key n
  unfolding lookup
  tick-requests ts m n key hm hn le =
      let ref = aggregate_metrics fl m in
      let set = aggregate_metrics fl n in
      let before = set_at-total m key hm in
      let now = set_at-total n key hn in
      let counted =
        points_of_tick-requests ts scrape_sec ref set [] key
          (aggregate_metrics-DistinctKeys fl n) in
      elim (Option-cases (lookup key set)) [
        | inl gone ↦
            let zero' : (set_at fl key set).requests ≡ 0 =
              ap (λ o. (default (empty_set fl) o).requests) gone in
            let none' : requests_of key (points_of_tick fl ts scrape_sec ref set []) ≡ 0 =
              counted ∙ ap (λ o. moved ref key o 0) gone in
            omega (arith, zero', none', now)
        | inr (s, there) ↦
            let same : (set_at fl key set).requests ≡ s.requests =
              ap (λ o. (default (empty_set fl) o).requests) there in
            let is : requests_of key (points_of_tick fl ts scrape_sec ref set [])
                ≡ (relative_to fl s (set_at fl key ref)).requests =
              counted ∙ ap (λ o. moved ref key o 0) there in
            let relative =
              relative_to-requests s (set_at fl key ref) (omega (arith, same, now))
                (omega (arith, before)) (omega (arith, same, now, before)) in
            omega (arith, same, is, now, before, relative)
      ]

  IsAscending-IsNat :
      (key : SetKey) (m : List (Metric Float)) (later : List (Int64 × List (Metric Float)))
      → IsAscending key m later
      → IsNat (total "requests" key m)
  IsAscending-IsNat key m [] h = h
  IsAscending-IsNat key m ((ts, n) ∷ later) (h, le, asc) = h

  -- Over any number of ticks whose scrapes succeed, the loop counts each request of a key once: where
  -- the total of the counters of the requests of the key fits an `int64` and never goes down, the
  -- requests of the points that the loop inserts for the key and the total of the first scrape add up
  -- to the total of the last.
  pub scrape_rounds-telescope :
      (key : SetKey) (m : List (Metric Float)) (later : List (Int64 × List (Metric Float)))
      → IsAscending key m later
      → total "requests" key m
          + all_requests key (scrape_rounds fl (aggregate_metrics fl m) (map scraped_at later))
        ≡ total "requests" key (last_scrape m later)
  unfolding scrape_rounds
  scrape_rounds-telescope key m [] h = omega arith
  scrape_rounds-telescope key m ((ts, n) ∷ later) (h, le, asc) = omega (
    arith,
    tick-requests ts m n key h (IsAscending-IsNat key n later asc) le,
    scrape_rounds-telescope key n later asc,
  )
