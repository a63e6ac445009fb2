-- ===== src/Metrics/Store/RollUp/Proper.antt =====
-- The buckets that `RollUp` of pkg/metrics/store.go collects: one for each timestamp, none empty.
use hub_agent_kubernetes.Prelude.{
  ℕ, some, List, [], ◌∷◌, ◌++◌, ◌≡◌, ◌≢◌, sym, ◌∙◌, inl, inr, string_eq, nat_eq, lookup, insert,
  default, DistinctKeys, DistinctKeys-insert, Bool-cases, Option-cases, lookup-insert, nat_beq,
}
use hub_agent_kubernetes.Int64
use hub_agent_kubernetes.Int64.{Int64}
use hub_agent_kubernetes.Metrics.Points.{DataPoint, DataPoints, get}
use hub_agent_kubernetes.Metrics.Store.RollUp.{bucket, Buckets, add_to_bucket, collect}

snoc_ne : {A : Type 0} (l : List A) (a : A) → l ++ a ∷ [] ≢ []
snoc_ne [] a e = absurd (cc e)
snoc_ne (x ∷ l) a e = absurd (cc e)

-- The buckets have different timestamps, and none is empty.
pub record AreProper {R : Type 0} (b : Buckets R) : Type 0 where
  pub distinct : DistinctKeys b
  pub full : (ts : Int64) → lookup ts b ≢ some []

module _ {R : Type 0} (dest : DataPoints R) (end : Int64) (gran : ℕ) where
  insert-AreProper :
      (ts : Int64) (l : DataPoints R) (p : DataPoint R) (b : Buckets R)
      → AreProper b
      → AreProper (insert ts (l ++ p ∷ []) b)
  insert-AreProper ts l p b v = record {
    distinct = DistinctKeys-insert ts (l ++ p ∷ []) b v.distinct;
    full = λ t e. elim (Bool-cases (nat_beq ts t)) [
      | inl same ↦
          let q : some (l ++ p ∷ []) ≡ some [] =
            rw same at (sym (lookup-insert ts t (l ++ p ∷ []) b)) ∙ e in
          snoc_ne l p (cc q)
      | inr other ↦ v.full t (rw other at (sym (lookup-insert ts t (l ++ p ∷ []) b)) ∙ e)
    ];
  }

  add_to_bucket-AreProper :
      (p : DataPoint R) (b : Buckets R) → AreProper b → AreProper (add_to_bucket dest end gran p b)
  unfolding add_to_bucket
  add_to_bucket-AreProper p b v =
      let ts = bucket gran p.timestamp in
      elim (Bool-cases (Int64.less p.timestamp end)) [
        | inr late ↦ rw (late, add_to_bucket) v
        | inl early ↦ elim (Option-cases (get dest ts)) [
          | inr (x, there) ↦ rw (early, there, add_to_bucket) v
          | inl new ↦
              rw (early, new, add_to_bucket) (insert-AreProper ts (default [] (lookup ts b)) p b v)
        ]
      ]

  pub collect-AreProper :
      (points : DataPoints R) (b : Buckets R)
      → AreProper b
      → AreProper (collect dest end gran points b)
  unfolding collect
  collect-AreProper [] b v = v
  collect-AreProper (p ∷ points) b v =
      collect-AreProper points (add_to_bucket dest end gran p b) (add_to_bucket-AreProper p b v)

pub empty-AreProper : {R : Type 0} → AreProper {R = R} []
unfolding lookup
empty-AreProper = record { distinct = tt; full = λ ts e. absurd (cc e) }
