-- ===== src/Metrics/Manager/Scraper.antt =====
-- `startScraper` of pkg/metrics/manager.go: the loop that turns scrapes into points of the store.
pub mod Telescope
use hub_agent_kubernetes.Prelude.{Option, none, some, List, [], ◌∷◌, GoMap}
use hub_agent_kubernetes.Int64.{Int64}
use hub_agent_kubernetes.Metrics.Points.{Floats, DataPoint, SetKey}
use hub_agent_kubernetes.Metrics.Store.{Store}
use hub_agent_kubernetes.Metrics.Sets.{Metric, MetricSet, aggregate_metrics, points_of_tick}
use hub_agent_kubernetes.Metrics.Manager.{insert_rounds}

-- `int64(scrapeInterval.Seconds())`
abbrev pub scrape_sec : Int64
scrape_sec = 60

-- A tick: the minute in which it comes, and what `Scrape` gives; `none` is an error.
pub record Tick (R : Type 0) : Type 0 where
  pub ts : Int64
  pub scraped : Option (List (Metric R))

module _ (fl : Floats) where
  open fl use {Float}

  -- The loop, until the ticks end: what it gives to `Insert`, each time. `ref` is the reference.
  unfoldable pub scrape_rounds :
      GoMap SetKey (MetricSet Float) → List (Tick Float) → List (GoMap SetKey (DataPoint Float))
  unfolding aggregate_metrics points_of_tick
  scrape_rounds ref [] = []
  scrape_rounds ref (tick ∷ ticks) = elim tick.scraped [
    | none ↦ []
    | some mtrcs ↦
        let mtrc_set = aggregate_metrics fl mtrcs in
        points_of_tick fl tick.ts scrape_sec ref mtrc_set [] ∷ scrape_rounds mtrc_set ticks
  ]

  -- `startScraper`, by its first scrape and its ticks: the store after it.
  unfoldable pub start_scraper :
      Option (List (Metric Float)) → List (Tick Float) → Store Float → Store Float
  unfolding scrape_rounds insert_rounds
  start_scraper none ticks s = s
  start_scraper (some mtrcs) ticks s =
      insert_rounds (scrape_rounds (aggregate_metrics fl mtrcs) ticks) s
