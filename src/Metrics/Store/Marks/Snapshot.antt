-- ===== src/Metrics/Store/Marks/Snapshot.antt =====
-- `ForEachUnmarked` of pkg/metrics/store.go hands out each row from its mark on.
use mathlib.Core.Option
use hub_agent_kubernetes.Prelude.{
  ℕ, ◌≤◌, String, Option, none, some, [], ◌∷◌, ◌≡◌, refl, ap, sym, ◌∙◌, inl, inr, arith, ◌==◌,
  string_eq, length, drop, lookup, default, DistinctKeys, Bool-cases, eq_of_==, ==_refl, nat_beq,
  nat_beq_iff, drop-length, drop-nil, ret,
}
use hub_agent_kubernetes.Metrics.Points.{DataPoints}
use hub_agent_kubernetes.Metrics.Store.{
  TableKey, key_eq, WaterMarks, Table, Store, table_of, marks_of, row, slice_from, unmarked_rows,
  for_each_unmarked,
}
use hub_agent_kubernetes.Metrics.Store.Marks.{IsSound}

module _ {R : Type 0} where
  -- What the loop hands out and marks, for one row.
  pub record IsSnapshot (marks : WaterMarks) (table rows : Table R) (new_marks : WaterMarks)
      : Type 0 where
    pub points :
        (k : TableKey)
        → default [] (lookup k rows)
          ≡ drop (default 0 (lookup k marks)) (default [] (lookup k table))
    pub lengths : (k : TableKey) → lookup k new_marks ≡ Option.map length (lookup k table)
    pub fresh : (k : TableKey) → lookup k table ≡ none → lookup k rows ≡ none
    pub distinct : DistinctKeys rows

  abbrev Within : WaterMarks → Table R → Type 0
  Within marks table =
      (k : TableKey) (v : DataPoints R)
      → lookup k table ≡ some v
      → default 0 (lookup k marks) ≤ length v

  slice_from-ok :
      (low : ℕ) (v : DataPoints R) → low ≤ length v → slice_from low v ≡ ret (drop low v)
  unfolding slice_from
  slice_from-ok low v h = ground arith

  Within-tail :
      (marks : WaterMarks) (j : TableKey) (w : DataPoints R) (table : Table R)
      → lookup j table ≡ none
      → Within marks ((j, w) ∷ table)
      → Within marks table
  unfolding lookup
  Within-tail marks j w table fresh h k v e = h k v (ground (arith, key_eq.same_iff j k))

  -- One more row in front of a snapshot.
  IsSnapshot-skip :
      (marks : WaterMarks) (j : TableKey) (w : DataPoints R) (table rows : Table R)
      (new_marks : WaterMarks)
      → lookup j table ≡ none
      → default 0 (lookup j marks) ≡ length w
      → IsSnapshot marks table rows new_marks
      → IsSnapshot marks ((j, w) ∷ table) rows ((j, length w) ∷ new_marks)
  unfolding lookup
  IsSnapshot-skip marks j w table rows new_marks fresh e s = record {
    points = λ k. elim (Bool-cases (j == k)) [
      | inl same ↦
          let low = default 0 (lookup j marks) in
          let gone : default [] (lookup j rows) ≡ [] =
            s.points j ∙ ap (λ o. drop low (default [] o)) fresh ∙ drop-nil low in
          let none_left : drop low w ≡ [] = ap (λ n. drop n w) e ∙ drop-length w in
          rw (← eq_of_== j k same, ==_refl j) (gone ∙ sym none_left)
      | inr other ↦ rw other (s.points k)
    ];
    lengths =
        λ k. elim (Bool-cases (j == k)) [ inl same ↦ rw same | inr other ↦ rw other (s.lengths k) ];
    fresh = λ k e. s.fresh k (ground (arith, e));
    distinct = s.distinct;
  }

  IsSnapshot-take :
      (marks : WaterMarks) (j : TableKey) (w : DataPoints R) (table rows : Table R)
      (new_marks : WaterMarks)
      → lookup j table ≡ none
      → IsSnapshot marks table rows new_marks
      → IsSnapshot marks
          ((j, w) ∷ table)
          ((j, drop (default 0 (lookup j marks)) w) ∷ rows)
          ((j, length w) ∷ new_marks)
  unfolding lookup
  IsSnapshot-take marks j w table rows new_marks fresh s = record {
    points = λ k. elim (Bool-cases (j == k)) [
      | inl same ↦ rw (← eq_of_== j k same, ==_refl j)
      | inr other ↦ rw other (s.points k)
    ];
    lengths =
        λ k. elim (Bool-cases (j == k)) [ inl same ↦ rw same | inr other ↦ rw other (s.lengths k) ];
    fresh = λ k e. elim (Bool-cases (j == k)) [
      | inl same ↦ absurd (cc (rw same at e))
      | inr other ↦ rw other (s.fresh k (rw other at e))
    ];
    distinct = (s.fresh j fresh, s.distinct);
  }

  unmarked_rows-IsSnapshot :
      (marks : WaterMarks) (table : Table R)
      → DistinctKeys table
      → Within marks table
      → (rows : Table R) × (new_marks : WaterMarks) × (unmarked_rows marks table
          ≡ ret (rows, new_marks))
        × IsSnapshot marks table rows new_marks
  unfolding unmarked_rows lookup
  unmarked_rows-IsSnapshot marks [] d h = (
    [],
    [],
    refl,
    record {
      points = λ k. sym (drop-nil (default 0 (lookup k marks)));
      lengths = λ k. refl;
      fresh = λ k e. refl;
      distinct = tt;
    },
  )
  unmarked_rows-IsSnapshot marks ((j, w) ∷ table) (fresh, d) h =
      let low = default 0 (lookup j marks) in
      let fits : low ≤ length w = h j w (rw (==_refl j)) in
      let (rows, new_marks, e, snap) =
        unmarked_rows-IsSnapshot marks table d (Within-tail marks j w table fresh h) in
      elim (Bool-cases (nat_beq low (length w))) [
        | inl all_sent ↦
            let p = (nat_beq_iff low (length w)).0 all_sent in
            (
              rows,
              (j, length w) ∷ new_marks,
              rw (all_sent, e),
              IsSnapshot-skip marks j w table rows new_marks fresh p snap,
            )
        | inr some_left ↦ (
          (j, drop low w) ∷ rows,
          (j, length w) ∷ new_marks,
          rw (some_left, slice_from-ok low w fits, e),
          IsSnapshot-take marks j w table rows new_marks fresh snap,
        )
      ]

  -- Under the invariant `ForEachUnmarked` does not panic: it hands out each row from its mark on,
  -- and gives back the lengths of the rows as the new marks.
  pub for_each_unmarked-IsSnapshot :
      (s : Store R) (tbl : String)
      → IsSound s
      → (rows : Table R) × (new_marks : WaterMarks) × (for_each_unmarked s tbl
          ≡ ret (rows, new_marks))
        × IsSnapshot (marks_of s tbl) (table_of s tbl) rows new_marks
  unfolding for_each_unmarked
  for_each_unmarked-IsSnapshot s tbl v = go (lookup tbl s.table_data) refl
    where
      go :
          (o : Option (Table R))
          → lookup tbl s.table_data ≡ o
          → (rows : Table R) × (new_marks : WaterMarks) × (for_each_unmarked s tbl
              ≡ ret (rows, new_marks))
            × IsSnapshot (marks_of s tbl) (table_of s tbl) rows new_marks
      go none e = (
        [],
        [],
        rw (e, for_each_unmarked),
        rw e (record {
          points = λ k. unfold lookup in sym (drop-nil (default 0 (lookup k (marks_of s tbl))));
          lengths = λ k. unfold lookup in refl;
          fresh = λ k e'. unfold lookup in refl;
          distinct = tt;
        }),
      )
      go (some table) e =
          let same : table_of s tbl ≡ table = rw e in
          let (rows, new_marks, p, snap) =
            unmarked_rows-IsSnapshot (marks_of s tbl) table (rw same at (v.distinct tbl)) (λ k w q.
              let r : row s tbl k ≡ w =
                ap (λ t. default [] (lookup k t)) same ∙ ap (default []) q in
              omega (arith, v.marked tbl k, ap length r)) in
          (rows, new_marks, rw (e, for_each_unmarked) p, rw same snap)
