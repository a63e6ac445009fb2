-- ===== src/Metrics/Store/Rows.antt =====
-- What the loops over a table do to one row, and how a write to a table shows in the store.
use hub_agent_kubernetes.Prelude.{
  ℕ, ◌-◌, ◌≤◌, none, some, [], ◌∷◌, ◌≡◌, ◌≢◌, refl, ap, ◌∙◌, inl, inr, arith, ◌==◌, string_eq,
  if◌then◌else◌, ltb, length, drop, lookup, default, DistinctKeys, lookup-insert_self,
  lookup-insert_ne, Bool-cases, eq_of_==, ==_refl,
}
use hub_agent_kubernetes.Metrics.Points.{DataPoints}
use hub_agent_kubernetes.Metrics.Store.{
  TableKey, key_eq, WaterMarks, Table, surplus, cleanup_row, cleanup_rows,
}

-- How many points `Cleanup` drops from a row of `len` points.
unfoldable pub dropped : ℕ → ℕ → ℕ → ℕ
unfolding surplus
dropped len count low = if ltb (len - count) 1 then 0 else surplus len count low

pub dropped_bounds :
    (len count low : ℕ) → (dropped len count low ≤ low) × (dropped len count low ≤ len - count)
unfolding dropped
dropped_bounds len count low = ground arith

module _ {R : Type 0} where
  abbrev pub drop_of : ℕ → DataPoints R → WaterMarks → TableKey → ℕ
  drop_of count v marks k = dropped (length v) count (default 0 (lookup k marks))

  cleanup_row-data :
      (count : ℕ) (k : TableKey) (v : DataPoints R) (marks : WaterMarks)
      → (cleanup_row count k v marks).0 ≡ drop (drop_of count v marks k) v
  unfolding cleanup_row dropped
  cleanup_row-data count k v marks = ground arith

  cleanup_row-mark :
      (count : ℕ) (k : TableKey) (v : DataPoints R) (marks : WaterMarks)
      → default 0 (lookup k (cleanup_row count k v marks).1)
        ≡ default 0 (lookup k marks) - drop_of count v marks k
  unfolding cleanup_row dropped
  cleanup_row-mark count k v marks =
      let low = default 0 (lookup k marks) in
      ground (arith, lookup-insert_self k (low - surplus (length v) count low) marks)

  cleanup_row-other :
      (count : ℕ) (k j : TableKey) (v : DataPoints R) (marks : WaterMarks)
      → k ≢ j
      → lookup j (cleanup_row count k v marks).1 ≡ lookup j marks
  unfolding cleanup_row
  cleanup_row-other count k j v marks h =
      let low = default 0 (lookup k marks) in
      ground (arith, lookup-insert_ne k j (low - surplus (length v) count low) marks h)

  pub cleanup_rows-fresh :
      (count : ℕ) (table : Table R) (marks : WaterMarks) (k : TableKey)
      → lookup k table ≡ none
      → (lookup k (cleanup_rows count table marks).0 ≡ none)
        × (lookup k (cleanup_rows count table marks).1 ≡ lookup k marks)
  unfolding cleanup_rows lookup
  cleanup_rows-fresh count [] marks k h = (refl, refl)
  cleanup_rows-fresh count ((j, w) ∷ table) marks k h = ground (
    arith,
    key_eq.same_iff j k,
    cleanup_row-other count j k w marks,
    cleanup_rows-fresh count table (cleanup_row count j w marks).1 k,
  )

  -- The points of a row after the loop, and its mark.
  pub cleanup_rows-row :
      (count : ℕ) (table : Table R) (marks : WaterMarks) (k : TableKey) (v : DataPoints R)
      → DistinctKeys table
      → lookup k table ≡ some v
      → (lookup k (cleanup_rows count table marks).0 ≡ some (drop (drop_of count v marks k) v))
        × (default 0 (lookup k (cleanup_rows count table marks).1)
            ≡ default 0 (lookup k marks) - drop_of count v marks k)
  unfolding cleanup_rows lookup
  cleanup_rows-row count [] marks k v d h = cc
  cleanup_rows-row count ((j, w) ∷ table) marks k v (fresh, d) h = elim (Bool-cases (j == k)) [
    | inl same ↦
        let p : j ≡ k = eq_of_== j k same in
        let q : w ≡ v = ground arith in
        let later = cleanup_rows-fresh count table (cleanup_row count j w marks).1 j fresh in
        rw (← p, ← q)
          (
            rw (==_refl j) (ap some (cleanup_row-data count j w marks)),
            ap (default 0) later.1 ∙ cleanup_row-mark count j w marks,
          )
    | inr other ↦
        let ne : j ≢ k = ground (arith, key_eq.same_iff j k) in
        let kept = cleanup_row-other count j k w marks ne in
        let later =
          cleanup_rows-row count table (cleanup_row count j w marks).1 k v d (ground arith) in
        rw (← kept) (rw other later)
  ]

  pub DistinctKeys-cleanup_rows :
      (count : ℕ) (table : Table R) (marks : WaterMarks)
      → DistinctKeys table
      → DistinctKeys (cleanup_rows count table marks).0
  unfolding cleanup_rows
  DistinctKeys-cleanup_rows count [] marks d = tt
  DistinctKeys-cleanup_rows count ((j, w) ∷ table) marks (fresh, d) =
      let marks' = (cleanup_row count j w marks).1 in
      (
        (cleanup_rows-fresh count table marks' j fresh).0,
        DistinctKeys-cleanup_rows count table marks' d,
      )
