-- ===== src/Metrics/Store/RollUp/Buckets.antt =====
-- Which points `RollUp` of pkg/metrics/store.go puts into which bucket.
use hub_agent_kubernetes.Prelude.{
  ℕ, ◌&&◌, ◌/◌, ◌*◌, ◌<◌, All, Option, none, some, [], ◌∷◌, ◌++◌, ◌≡◌, refl, ap, sym, ◌∙◌, inl, inr,
  arith, nat_eq, lookup, nat_beq, nat_beq_iff, default, Bool-cases, lookup-insert, append-nil,
  append_assoc, select,
}
use hub_agent_kubernetes.Int64
use hub_agent_kubernetes.Int64.{Int64}
use hub_agent_kubernetes.Metrics.Points.{DataPoint, DataPoints, get}
use hub_agent_kubernetes.Metrics.Store.RollUp.{bucket, Buckets, add_to_bucket, collect}

-- The bucket of a timestamp that is not negative.
bucket-exact :
    (gran : ℕ) (ts : Int64) → 0 < gran → Int64.IsNat ts → bucket gran ts ≡ ts / gran * gran
unfolding bucket
bucket-exact gran ts pos n = ground arith

module _ {R : Type 0} (dest : DataPoints R) (end : Int64) (gran : ℕ) where
  -- What `collect` adds to the bucket at `ts`.
  abbrev chosen : Int64 → DataPoints R → DataPoints R
  chosen ts points = elim (get dest ts) [
    | some found ↦ []
    | none ↦ select (λ p. Int64.less p.timestamp end && nat_beq (bucket gran p.timestamp) ts) points
  ]

  add_to_bucket-lookup :
      (p : DataPoint R) (res : Buckets R) (ts : Int64)
      → default [] (lookup ts (add_to_bucket dest end gran p res))
        ≡ default [] (lookup ts res) ++ chosen ts (p ∷ [])
  unfolding add_to_bucket
  add_to_bucket-lookup p res ts =
      let b = bucket gran p.timestamp in
      let old = default [] (lookup b res) ++ p ∷ [] in
      elim (Bool-cases (nat_beq b ts)) [
        | inl same ↦
            rw (← (nat_beq_iff b ts).0 same)
              (ground (arith, lookup-insert b b old res, append-nil (default [] (lookup b res))))
        | inr other ↦
            ground (arith, lookup-insert b ts old res, append-nil (default [] (lookup ts res)))
      ]

  chosen-cons :
      (ts : Int64) (p : DataPoint R) (points : DataPoints R)
      → chosen ts (p ∷ points) ≡ chosen ts (p ∷ []) ++ chosen ts points
  chosen-cons ts p points = ground arith

  -- `collect` adds to each bucket its chosen, in their order, and no other point.
  collect-from :
      (points : DataPoints R) (res : Buckets R) (ts : Int64)
      → default [] (lookup ts (collect dest end gran points res))
        ≡ default [] (lookup ts res) ++ chosen ts points
  unfolding collect
  collect-from [] res ts = chosen-nil (get dest ts) refl
    where
      chosen-nil :
          (o : Option (ℕ × DataPoint R))
          → get dest ts ≡ o
          → default [] (lookup ts res) ≡ default [] (lookup ts res) ++ chosen ts []
      chosen-nil none e = rw (e, chosen) (sym (append-nil _))
      chosen-nil (some f) e = rw (e, chosen) (sym (append-nil _))
  collect-from (p ∷ points) res ts =
      collect-from points (add_to_bucket dest end gran p res) ts
      ∙ ap (λ b. b ++ chosen ts points) (add_to_bucket-lookup p res ts)
      ∙ append_assoc (default [] (lookup ts res)) (chosen ts (p ∷ [])) (chosen ts points)
      ∙ ap (λ m. default [] (lookup ts res) ++ m) (sym (chosen-cons ts p points))

  -- The points of the bucket at `ts`: those before the end for whose timestamp `ts` is the greatest
  -- multiple of `gran` up to it. It is empty where the row of the next table has a point at `ts`.
  abbrev pub members : Int64 → DataPoints R → DataPoints R
  members ts points = elim (get dest ts) [
    | some found ↦ []
    | none ↦
        select (λ p. Int64.less p.timestamp end && nat_beq (p.timestamp / gran * gran) ts) points
  ]

  chosen-members :
      (points : DataPoints R) (ts : Int64)
      → 0 < gran
      → All (λ (p : DataPoint R). Int64.IsNat p.timestamp) points
      → chosen ts points ≡ members ts points
  chosen-members [] ts pos nats = ground arith
  chosen-members (p ∷ points) ts pos (n, nats) =
      let q = bucket-exact gran p.timestamp pos n in
      ground (arith, q, chosen-members points ts pos nats)

  -- Where no timestamp is negative and the granularity is not zero, each bucket holds exactly the points of the row before the end
  -- for whose timestamps its own is the greatest multiple of the granularity up to them, in their
  -- order; a bucket that the next table has a point for already stays empty.
  pub collect-members :
      (points : DataPoints R) (ts : Int64)
      → 0 < gran
      → All (λ (p : DataPoint R). Int64.IsNat p.timestamp) points
      → default [] (lookup ts (collect dest end gran points [])) ≡ members ts points
  collect-members points ts pos nats =
      collect-from points [] ts ∙ unfold lookup in chosen-members points ts pos nats
