-- ===== src/Metrics/View/Merge.antt =====
-- `mergeGroups` of pkg/metrics/view.go counts each request once.
use hub_agent_kubernetes.Prelude.{
  ℕ, ◌+◌, ◌%◌, ◌<◌, none, some, List, [], ◌∷◌, ◌≡◌, ◌≢◌, refl, ap, sym, ◌∙◌, ◌==◌, nat_eq,
  if◌then◌else◌, arith, GoMap, lookup, default, lookup-insert, DistinctKeys, DistinctKeys-insert,
  Bool-cases, inl, inr, eq_of_==, ==_refl, nat_beq_iff, Option-cases,
}
use hub_agent_kubernetes.Int64
use hub_agent_kubernetes.Int64.{Int64}
use hub_agent_kubernetes.Metrics.Points.{
  Floats, DataPoint, DataPoints, empty_point, add_point, fill_response_time, fill_percents,
}
use hub_agent_kubernetes.Metrics.Store.{insert_sorted, sort_points}
use hub_agent_kubernetes.Metrics.View.{
  Sums, merge_point, merge_points, merge_all, average, averages, merge_groups,
}

-- The requests of the points of one timestamp.
abbrev pub requests_at : {R : Type 0} → Int64 → DataPoints R → ℕ
requests_at ts [] = 0
requests_at ts (p ∷ points) =
    if p.timestamp == ts then p.requests + requests_at ts points else requests_at ts points

abbrev pub requests_of_groups : {R : Type 0} → Int64 → List (DataPoints R) → ℕ
requests_of_groups ts [] = 0
requests_of_groups ts (points ∷ groups) = requests_at ts points + requests_of_groups ts groups

module _ {R : Type 0} where
  insert_sorted-requests :
      (ts : Int64) (p : DataPoint R) (points : DataPoints R)
      → requests_at ts (insert_sorted p points) ≡ requests_at ts (p ∷ points)
  unfolding insert_sorted
  insert_sorted-requests ts p [] = refl
  insert_sorted-requests ts p (q ∷ points) = ground (arith, insert_sorted-requests ts p points)

  sort_points-requests :
      (ts : Int64) (points : DataPoints R)
      → requests_at ts (sort_points points) ≡ requests_at ts points
  unfolding sort_points
  sort_points-requests ts [] = refl
  sort_points-requests ts (p ∷ points) =
      insert_sorted-requests ts p (sort_points points)
      ∙ ground (arith, sort_points-requests ts points)

module _ (fl : Floats) where
  open fl use {Float}

  abbrev sum_at : Int64 → Sums fl → DataPoint Float
  sum_at ts sums = default (empty_point fl) (lookup ts sums.0)

  abbrev Keyed : GoMap Int64 (DataPoint Float) → GoMap Int64 Int64 → Type 0
  Keyed point_sums counts =
      (ts : Int64) (p : DataPoint Float)
      → lookup ts point_sums ≡ some p
      → (p.timestamp ≡ ts) × (lookup ts counts ≢ none)

  -- The sums and counts fit together: what is summed is counted, and carries its key.
  record IsTally (sums : Sums fl) : Type 0 where
    distinct : DistinctKeys sums.0
    keyed : Keyed sums.0 sums.1
    small : (ts : Int64) → (sum_at ts sums).requests < Int64.modulus

  abbrev next_sum : DataPoint Float → Sums fl → DataPoint Float
  next_sum p sums = add_point fl (record (sum_at p.timestamp sums) { timestamp = p.timestamp }) p

  merge_point-requests :
      (p : DataPoint Float) (sums : Sums fl) (ts : Int64)
      → IsTally sums
      → (sum_at ts (merge_point fl p sums)).requests
        ≡ ((sum_at ts sums).requests + requests_at ts (p ∷ [])) % Int64.modulus
  unfolding merge_point add_point
  merge_point-requests p sums ts t =
      let look = lookup-insert p.timestamp ts (next_sum p sums) sums.0 in
      elim (Bool-cases (p.timestamp == ts)) [
        | inl e ↦ let same = eq_of_== p.timestamp ts e in rw (look, e, same) (omega arith)
        | inr e ↦ rw (look, e) (omega (arith, t.small ts))
      ]

  merge_point-IsTally :
      (p : DataPoint Float) (sums : Sums fl) → IsTally sums → IsTally (merge_point fl p sums)
  unfolding merge_point
  merge_point-IsTally p sums t = record {
    distinct = DistinctKeys-insert p.timestamp (next_sum p sums) sums.0 t.distinct;
    keyed = λ ts q e.
        let count = Int64.add (default 0 (lookup p.timestamp sums.1)) 1 in
        let look = lookup-insert p.timestamp ts (next_sum p sums) sums.0 in
        let counted = lookup-insert p.timestamp ts count sums.1 in
        elim (Bool-cases (p.timestamp == ts)) [
          | inl same ↦
              let new : q ≡ next_sum p sums = cc (e, rw same at look) in
              (
                rw new (unfold add_point in eq_of_== p.timestamp ts same),
                λ gone. cc (gone, rw same at counted),
              )
          | inr other ↦
              let old = t.keyed ts q (sym (rw other at look) ∙ e) in
              (old.0, λ gone. old.1 (sym (rw other at counted) ∙ gone))
        ];
    small = λ ts. omega (arith, merge_point-requests p sums ts t);
  }

  merge_points-requests :
      (points : DataPoints Float) (sums : Sums fl) (ts : Int64)
      → IsTally sums
      → ((sum_at ts (merge_points fl points sums)).requests
          ≡ ((sum_at ts sums).requests + requests_at ts points) % Int64.modulus)
        × IsTally (merge_points fl points sums)
  unfolding merge_points
  merge_points-requests [] sums ts t = (omega (arith, t.small ts), t)
  merge_points-requests (p ∷ points) sums ts t =
      let (total, t') =
        merge_points-requests points (merge_point fl p sums) ts (merge_point-IsTally p sums t) in
      (ground (arith, total, merge_point-requests p sums ts t), t')

  merge_all-requests :
      (groups : List (DataPoints Float)) (sums : Sums fl) (ts : Int64)
      → IsTally sums
      → ((sum_at ts (merge_all fl groups sums)).requests
          ≡ ((sum_at ts sums).requests + requests_of_groups ts groups) % Int64.modulus)
        × IsTally (merge_all fl groups sums)
  unfolding merge_all
  merge_all-requests [] sums ts t = (omega (arith, t.small ts), t)
  merge_all-requests (points ∷ groups) sums ts t =
      let (some_of, t') = merge_points-requests points sums ts t in
      let (total, t'') = merge_all-requests groups (merge_points fl points sums) ts t' in
      (omega (arith, total, some_of), t'')

  average-requests :
      (count : Int64) (p : DataPoint Float)
      → ((average fl count p).requests ≡ p.requests)
        × ((average fl count p).timestamp ≡ p.timestamp)
  unfolding average fill_percents fill_response_time
  average-requests count p = (ground arith, ground arith)

  Keyed-tail :
      (j : Int64) (p : DataPoint Float) (point_sums : GoMap Int64 (DataPoint Float))
      (counts : GoMap Int64 Int64)
      → lookup j point_sums ≡ none
      → Keyed ((j, p) ∷ point_sums) counts
      → Keyed point_sums counts
  unfolding lookup
  Keyed-tail j p point_sums counts fresh keyed ts q e =
      keyed ts q (ground (arith, nat_beq_iff j ts))

  averages-cons :
      (j : Int64) (p : DataPoint Float) (point_sums : GoMap Int64 (DataPoint Float))
      (counts : GoMap Int64 Int64)
      → lookup j counts ≢ none
      → (count : Int64) × (averages fl ((j, p) ∷ point_sums) counts
          ≡ average fl count p ∷ averages fl point_sums counts)
  unfolding averages
  averages-cons j p point_sums counts h = elim (Option-cases (lookup j counts)) [
    | inl e ↦ absurd (h e)
    | inr (count, e) ↦ (count, rw (e, averages))
  ]

  averages-requests :
      (point_sums : GoMap Int64 (DataPoint Float)) (counts : GoMap Int64 Int64) (ts : Int64)
      → Keyed point_sums counts
      → DistinctKeys point_sums
      → requests_at ts (averages fl point_sums counts)
        ≡ (default (empty_point fl) (lookup ts point_sums)).requests
  unfolding averages lookup
  averages-requests [] counts ts keyed d = refl
  averages-requests ((j, p) ∷ point_sums) counts ts keyed (fresh, d) =
      let (at_j, counted) = keyed j p (rw (==_refl j)) in
      let (count, e) = averages-cons j p point_sums counts counted in
      let same = average-requests count p in
      let ih =
        averages-requests point_sums counts ts (Keyed-tail j p point_sums counts fresh keyed) d in
      ap (requests_at ts) e ∙ elim (Bool-cases (j == ts)) [
        | inl here ↦
            let p_at : (average fl count p).timestamp ≡ ts = same.1 ∙ at_j ∙ eq_of_== j ts here in
            let gone : lookup ts point_sums ≡ none = rw (eq_of_== j ts here) at fresh in
            rw (p_at, ==_refl ts, here)
              (omega (arith, same.0, ih, ap (λ o. (default (empty_point fl) o).requests) gone))
        | inr other ↦
            let p_at : (average fl count p).timestamp ≡ j = same.1 ∙ at_j in rw (p_at, other) ih
      ]

  -- `mergeGroups` counts each request once: for each timestamp, the requests of the merged points
  -- are the requests of the points of all groups, modulo 2 ^ 64.
  pub merge_groups-requests :
      (groups : List (DataPoints Float)) (ts : Int64)
      → requests_at ts (merge_groups fl groups) ≡ requests_of_groups ts groups % Int64.modulus
  unfolding merge_groups lookup
  merge_groups-requests groups ts =
      let empty : IsTally ([], []) = record {
        distinct = tt;
        keyed = λ t q e. absurd (cc e);
        small = λ t. omega arith;
      } in
      let (total, tally) = merge_all-requests groups ([], []) ts empty in
      let sums = merge_all fl groups ([], []) in
      let kept = averages-requests sums.0 sums.1 ts tally.keyed tally.distinct in
      omega (arith, sort_points-requests ts (averages fl sums.0 sums.1), kept, total)
