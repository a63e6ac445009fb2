-- ===== src/Metrics/Store/RollUp/Rows.antt =====
-- Which points `RollUp` of pkg/metrics/store.go appends to the rows of the next table.
use mathlib.Core.List.Permᴰ
use mathlib.Core.List.{Permᴰ}
use hub_agent_kubernetes.Prelude.{
  ℕ, ◌/◌, ◌<◌, Option, none, some, List, [], ◌∷◌, ◌++◌, ◌≡◌, ◌≢◌, refl, ap, sym, ◌∙◌, inl, inr,
  arith, ◌==◌, string_eq, nat_eq, Bool, GoMap, lookup, insert, default, DistinctKeys, Bool-cases,
  eq_of_==, ==_refl, ==_ne, lookup-insert_self, lookup-insert_ne, append-nil, append_assoc, map,
  select, All, nat_beq, nat_beq_iff,
}
use hub_agent_kubernetes.Int64
use hub_agent_kubernetes.Int64.{Int64}
use hub_agent_kubernetes.Metrics.Points.{Floats, DataPoint, DataPoints, aggregate}
use hub_agent_kubernetes.Metrics.Store.{
  TableInfo, TableKey, key_eq, Table, Store, table_of, row, second,
}
use hub_agent_kubernetes.Metrics.Store.RollUp.{
  truncate, Buckets, RangeOrder, collect, collect_rows, rolled, append_buckets, append_rows,
  roll_up_table,
}
use hub_agent_kubernetes.Metrics.Store.RollUp.Buckets.{members, collect-members}
use hub_agent_kubernetes.Metrics.Store.RollUp.Proper.{collect-AreProper, empty-AreProper}
use hub_agent_kubernetes.Metrics.Store.RollUp.Growth.{found}
use hub_agent_kubernetes.Metrics.Store.Marks.{IsSound}

abbrev ranged : {R : Type 0} → (Buckets R → Buckets R) → Option (Buckets R) → Buckets R
ranged order none = []
ranged order (some b) = order b

ranged-Permᴰ :
    {R : Type 0} (order : Buckets R → Buckets R) (o : Option (Buckets R)) (b : Buckets R)
    → ((c : Buckets R) → Permᴰ (order c) c)
    → default [] o ≡ b
    → Permᴰ (ranged order o) b
ranged-Permᴰ order none b ordered e = rw (← e) Permᴰ.nil
ranged-Permᴰ order (some c) b ordered e = rw (← e) (ordered c)

module _ (fl : Floats) where
  open fl use {Float}

  -- The points of the buckets of one row.
  abbrev rolled_points : Buckets Float → DataPoints Float
  rolled_points = map (λ (b : Int64 × DataPoints Float). rolled fl b.0 b.1)

  append_buckets-row :
      (key : TableKey) (buckets : Buckets Float) (table : Table Float)
      → default [] (lookup key (append_buckets fl key buckets table))
        ≡ default [] (lookup key table) ++ rolled_points buckets
  unfolding append_buckets
  append_buckets-row key [] table = sym (append-nil _)
  append_buckets-row key ((ts, pnts) ∷ buckets) table =
      let old = default [] (lookup key table) in
      let p = rolled fl ts pnts in
      append_buckets-row key buckets (insert key (old ++ p ∷ []) table)
      ∙ ap (λ o. default [] o ++ rolled_points buckets)
          (lookup-insert_self key (old ++ p ∷ []) table)
      ∙ append_assoc old (p ∷ []) (rolled_points buckets)

  append_buckets-row_ne :
      (key k : TableKey) (buckets : Buckets Float) (table : Table Float)
      → key ≢ k
      → lookup k (append_buckets fl key buckets table) ≡ lookup k table
  unfolding append_buckets
  append_buckets-row_ne key k [] table h = refl
  append_buckets-row_ne key k ((ts, pnts) ∷ buckets) table h =
      append_buckets-row_ne key k buckets _ h ∙ lookup-insert_ne key k _ table h

  append_rows-row_ne :
      (order : TableKey → Buckets Float → Buckets Float) (res : GoMap TableKey (Buckets Float))
      (k : TableKey) (table : Table Float)
      → lookup k res ≡ none
      → lookup k (append_rows fl order res table) ≡ lookup k table
  unfolding append_rows lookup
  append_rows-row_ne order [] k table h = refl
  append_rows-row_ne order ((key, buckets) ∷ res) k table h =
      let ne : key ≢ k = ground (arith, key_eq.same_iff key k) in
      append_rows-row_ne order res k _ (ground (arith, key_eq.same_iff key k))
      ∙ append_buckets-row_ne key k (order key buckets) table ne

  append_rows-row :
      (order : TableKey → Buckets Float → Buckets Float) (res : GoMap TableKey (Buckets Float))
      (k : TableKey) (table : Table Float)
      → DistinctKeys res
      → default [] (lookup k (append_rows fl order res table))
        ≡ default [] (lookup k table) ++ rolled_points (ranged (order k) (lookup k res))
  unfolding append_rows lookup
  append_rows-row order [] k table d = sym (append-nil _)
  append_rows-row order ((key, buckets) ∷ res) k table (fresh, d) = elim (Bool-cases (key == k)) [
    | inl same ↦
        rw (← eq_of_== key k same, ==_refl key)
          (ap (default []) (append_rows-row_ne order res key _ fresh)
            ∙ append_buckets-row key (order key buckets) table)
    | inr other ↦
        let ne : key ≢ k = ground (arith, key_eq.same_iff key k) in
        rw other (
          append_rows-row order res k _ d
          ∙ ap (λ o. default [] o ++ rolled_points (ranged (order k) (lookup k res)))
              (append_buckets-row_ne key k (order key buckets) table ne))
  ]

module _ {R : Type 0} (dest : Table R) (end : Int64) (gran : ℕ) where
  collect_rows-lookup :
      (table : Table R) (k : TableKey)
      → default [] (lookup k (collect_rows dest end gran table))
        ≡ collect (default [] (lookup k dest)) end gran (default [] (lookup k table)) []
  unfolding collect_rows lookup
  collect_rows-lookup [] k = unfold collect in refl
  collect_rows-lookup ((key, points) ∷ table) k = elim (Bool-cases (key == k)) [
    | inl same ↦ rw (← eq_of_== key k same, ==_refl key)
    | inr other ↦ rw other (collect_rows-lookup table k)
  ]

  collect_rows-fresh :
      (table : Table R) (k : TableKey)
      → lookup k table ≡ none
      → lookup k (collect_rows dest end gran table) ≡ none
  unfolding collect_rows lookup
  collect_rows-fresh [] k h = refl
  collect_rows-fresh ((key, points) ∷ table) k h = ground (arith, collect_rows-fresh table k)

  collect_rows-DistinctKeys :
      (table : Table R) → DistinctKeys table → DistinctKeys (collect_rows dest end gran table)
  unfolding collect_rows
  collect_rows-DistinctKeys [] d = tt
  collect_rows-DistinctKeys ((key, points) ∷ table) (fresh, d) =
      (collect_rows-fresh table key fresh, collect_rows-DistinctKeys table d)

rolled_points-Permᴰ :
    (fl : Floats) {b c : Buckets (fl.Float)}
    → Permᴰ b c
    → Permᴰ (rolled_points fl b) (rolled_points fl c)
rolled_points-Permᴰ fl p = Permᴰ.map (λ (x : Int64 × DataPoints (fl.Float)). rolled fl x.0 x.1) p

abbrev at : {R : Type 0} → Int64 → DataPoint R → Bool
at ts p = nat_beq p.timestamp ts

select-Permᴰ :
    {A : Type 0} (t : A → Bool) {l r : List A} → Permᴰ l r → Permᴰ (select t l) (select t r)
select-Permᴰ t Permᴰ.nil = Permᴰ.nil
select-Permᴰ t (Permᴰ.cons {a} {b} {l₁} {l₂} e p) = elim (Bool-cases (t b)) [
  | inl yes' ↦ rw (e, yes') (Permᴰ.cons refl (select-Permᴰ t p))
  | inr no' ↦ rw (e, no') (select-Permᴰ t p)
]
select-Permᴰ t (Permᴰ.swap {a} {b} {a'} {b'} {l} e f) = elim (Bool-cases (t a')) [
  | inl x ↦ elim (Bool-cases (t b')) [
    | inl y ↦ rw (e, f, x, y) (Permᴰ.swap refl refl)
    | inr y ↦ rw (e, f, x, y) (Permᴰ.refl (a' ∷ select t l))
  ]
  | inr x ↦ elim (Bool-cases (t b')) [
    | inl y ↦ rw (e, f, x, y) (Permᴰ.refl (b' ∷ select t l))
    | inr y ↦ rw (e, f, x, y) (Permᴰ.refl (select t l))
  ]
]
select-Permᴰ t (Permᴰ.trans p q) = Permᴰ.trans (select-Permᴰ t p) (select-Permᴰ t q)

-- The aggregate of the points of a bucket, if there are any, at its timestamp.
abbrev pub combined : (fl : Floats) → Int64 → DataPoints (fl.Float) → DataPoints (fl.Float)
combined fl ts [] = []
combined fl ts (p ∷ points) = record (aggregate fl (p ∷ points)) { timestamp = ts } ∷ []

module _ (fl : Floats) where
  open fl use {Float}

  abbrev of_bucket : Int64 → Option (DataPoints Float) → DataPoints Float
  of_bucket ts none = []
  of_bucket ts (some points) = rolled fl ts points ∷ []

  select-none :
      (b : Buckets Float) (ts : Int64)
      → lookup ts b ≡ none
      → select (at ts) (rolled_points fl b) ≡ []
  unfolding lookup rolled
  select-none [] ts h = refl
  select-none ((t, points) ∷ b) ts h = ground (arith, select-none b ts)

  select-rolled :
      (b : Buckets Float) (ts : Int64)
      → DistinctKeys b
      → select (at ts) (rolled_points fl b) ≡ of_bucket ts (lookup ts b)
  unfolding lookup rolled
  select-rolled [] ts d = refl
  select-rolled ((t, points) ∷ b) ts (fresh, d) = elim (Bool-cases (nat_beq t ts)) [
    | inr other ↦ rw other (select-rolled b ts d)
    | inl same ↦
        let p : t ≡ ts = (nat_beq_iff t ts).0 same in
        let rest : select (at ts) (rolled_points fl b) ≡ [] = select-none b ts (rw p at fresh) in
        rw same (ap (◌∷◌ (rolled fl t points)) rest ∙ ap (λ u. rolled fl u points ∷ []) p)
  ]

  of_bucket-combined :
      (ts : Int64) (o : Option (DataPoints Float)) (points : DataPoints Float)
      → o ≢ some []
      → default [] o ≡ points
      → of_bucket ts o ≡ combined fl ts points
  unfolding rolled
  of_bucket-combined ts none points h e = rw (← e)
  of_bucket-combined ts (some []) points h e = absurd (h refl)
  of_bucket-combined ts (some (p ∷ ps)) points h e = rw (← e)

-- On a store whose marks lie within the rows, for a table with a next one, of a granularity of a
-- second at least, and for a row with no negative timestamp, the roll-up only appends to the row of
-- the next table: for each timestamp, the aggregate of the points of the row that fall into its
-- bucket and lie before the current period, at this timestamp, unless there are none or the row of
-- the next table has a point there already; in any order in which the buckets can be ranged over.
pub roll_up_table-row :
    (fl : Floats) (order : RangeOrder (fl.Float)) (now : ℕ) (info : TableInfo)
    (s : Store (fl.Float)) (k : TableKey)
    → ((b : Buckets (fl.Float)) → Permᴰ (order info.name k b) b)
    → IsSound s
    → info.next ≢ ""
    → 0 < info.roll_up / second
    → All (λ (p : DataPoint (fl.Float)). Int64.IsNat p.timestamp) (row s info.name k)
    → (appended : DataPoints (fl.Float)) × (row (roll_up_table fl order now info s) info.next k
        ≡ row s info.next k ++ appended)
      × ((ts : Int64)
          → Permᴰ (select (λ p. nat_beq p.timestamp ts) appended) (
              combined fl ts (
                members
                  (row s info.next k)
                  (truncate now (info.roll_up / second))
                  (info.roll_up / second)
                  ts
                  (row s info.name k))))
unfolding roll_up_table
roll_up_table-row fl order now info s k ordered v h pos nats =
    let gran = info.roll_up / second in
    let end = truncate now gran in
    let dest_table = table_of s info.next in
    let res = found now info s in
    let d =
      collect_rows-DistinctKeys dest_table end gran (table_of s info.name) (v.distinct info.name) in
    let b = collect (row s info.next k) end gran (row s info.name k) [] in
    let proper =
      collect-AreProper (row s info.next k) end gran (row s info.name k) [] empty-AreProper in
    let perm : Permᴰ (ranged (order info.name k) (lookup k res)) b =
      ranged-Permᴰ (order info.name k) (lookup k res) b ordered
        (collect_rows-lookup dest_table end gran (table_of s info.name) k) in
    (
      rolled_points fl (ranged (order info.name k) (lookup k res)),
      rw (==_ne info.next "" h, roll_up_table)
          (ap (λ o. default [] (lookup k (default [] o)))
              (lookup-insert_self info.next (append_rows fl (order info.name) res dest_table)
                s.table_data)
            ∙ append_rows-row fl (order info.name) res k dest_table d),
      λ ts.
          let one : select (at ts) (rolled_points fl b)
              ≡ combined fl ts (members (row s info.next k) end gran ts (row s info.name k)) =
            select-rolled fl b ts proper.distinct
            ∙ of_bucket-combined fl ts (lookup ts b) _ (proper.full ts)
                (collect-members (row s info.next k) end gran (row s info.name k) ts pos nats) in
          let chosen : Permᴰ
              (select (at ts) (rolled_points fl (ranged (order info.name k) (lookup k res))))
              (select (at ts) (rolled_points fl b)) =
            select-Permᴰ (at ts) (rolled_points-Permᴰ fl perm) in
          rw one at chosen,
    )
