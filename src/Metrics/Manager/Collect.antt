-- ===== src/Metrics/Manager/Collect.antt =====
-- What the loop of `send` (pkg/metrics/manager.go) collects: the points to send, and the marks.
use mathlib.Core.Option
use hub_agent_kubernetes.Prelude.{
  String, Bool, true, false, List, [], ◌∷◌, ◌++◌, ◌≡◌, ◌≢◌, refl, ap, sym, ◌∙◌, none, some, Option,
  inl, inr, lookup, insert, default, ret, arith, string_eq, ◌==◌, any, map, DistinctKeys,
  DistinctKeys-insert, append-nil, append_assoc, if◌then◌else◌, drop, length, Bool-cases, eq_of_==,
  lookup-insert_self, lookup-insert_ne,
}
use hub_agent_kubernetes.Metrics.Points.{DataPoints, DataPointGroup}
use hub_agent_kubernetes.Metrics.Store.{
  TableKey, key_eq, WaterMarks, Table, Store, to_table_key, row, mark, table_of, marks_of,
}
use hub_agent_kubernetes.Metrics.Store.Marks.{IsSound}
use hub_agent_kubernetes.Metrics.Store.Marks.Snapshot.{IsSnapshot, for_each_unmarked-IsSnapshot}
use hub_agent_kubernetes.Metrics.Manager.{Groups, AllMarks, group_of, add_groups, collect_unmarked}

abbrev pub mentions : String → List String → Bool
mentions tbl = any (λ t. t == tbl)

abbrev pub Distinct : List String → Type 0
Distinct [] = Unit
Distinct (t ∷ tbls) = (mentions t tbls ≡ false) × Distinct tbls

module _ {R : Type 0} where
  -- All points of one row among the groups of a table, however many groups carry it.
  abbrev pub points_in : TableKey → List (DataPointGroup R) → DataPoints R
  points_in k [] = []
  points_in k (g ∷ grps) =
      if to_table_key g == k then g.data_points ++ points_in k grps else points_in k grps

  -- The points of one row, table and key, in what is sent.
  abbrev pub sent : Groups R → String → TableKey → DataPoints R
  sent to_send tbl k = points_in k (default [] (lookup tbl to_send))

  -- The points behind the mark.
  abbrev pub unsent : Store R → String → TableKey → DataPoints R
  unsent s tbl k = drop (mark s tbl k) (row s tbl k)

  points_in-append :
      (k : TableKey) (xs ys : List (DataPointGroup R))
      → points_in k (xs ++ ys) ≡ points_in k xs ++ points_in k ys
  points_in-append k [] ys = refl
  points_in-append k (g ∷ xs) ys = elim (Bool-cases (to_table_key g == k)) [
    | inl e ↦ rw e (
        ap (λ l. g.data_points ++ l) (points_in-append k xs ys)
        ∙ sym (append_assoc g.data_points (points_in k xs) (points_in k ys)))
    | inr e ↦ rw e (points_in-append k xs ys)
  ]

  points_in-none :
      (k : TableKey) (rows : Table R) → lookup k rows ≡ none → points_in k (map group_of rows) ≡ []
  unfolding lookup to_table_key
  points_in-none k [] e = refl
  points_in-none k ((j, v) ∷ rows) e = elim (Bool-cases (j == k)) [
    | inl same ↦ absurd (cc (rw same at e))
    | inr other ↦ rw other (points_in-none k rows (rw other at e))
  ]

  points_in-rows :
      (k : TableKey) (rows : Table R)
      → DistinctKeys rows
      → points_in k (map group_of rows) ≡ default [] (lookup k rows)
  unfolding lookup to_table_key
  points_in-rows k [] d = refl
  points_in-rows k ((j, v) ∷ rows) (fresh, d) = elim (Bool-cases (j == k)) [
    | inl same ↦
        let e = eq_of_== j k same in
        rw same (ap (λ l. v ++ l) (points_in-none k rows (rw e at fresh)) ∙ append-nil v)
    | inr other ↦ rw other (points_in-rows k rows d)
  ]

  -- The groups of one table, after those that were there.
  add_groups_self :
      (tbl : String) (rows : Table R) (to_send : Groups R)
      → default [] (lookup tbl (add_groups tbl rows to_send))
        ≡ default [] (lookup tbl to_send) ++ map group_of rows
  unfolding add_groups
  add_groups_self tbl [] to_send = sym (append-nil _)
  add_groups_self tbl (r ∷ rows) to_send =
      let old = default [] (lookup tbl to_send) in
      add_groups_self tbl rows (insert tbl (old ++ group_of r ∷ []) to_send)
      ∙ ap (λ o. default [] o ++ map group_of rows)
          (lookup-insert_self tbl (old ++ group_of r ∷ []) to_send)
      ∙ append_assoc old (group_of r ∷ []) (map group_of rows)

  add_groups-ne :
      (tbl t : String) (rows : Table R) (to_send : Groups R)
      → tbl ≢ t
      → lookup t (add_groups tbl rows to_send) ≡ lookup t to_send
  unfolding add_groups
  add_groups-ne tbl t [] to_send h = refl
  add_groups-ne tbl t (r ∷ rows) to_send h =
      let old = default [] (lookup tbl to_send) in
      add_groups-ne tbl t rows (insert tbl (old ++ group_of r ∷ []) to_send) h
      ∙ lookup-insert_ne tbl t (old ++ group_of r ∷ []) to_send h

  -- Every row's length is its mark.
  abbrev pub AreLengths : WaterMarks → Store R → String → Type 0
  AreLengths marks s t = (k : TableKey) → default 0 (lookup k marks) ≡ length (row s t k)

  -- What the loop has done: the groups and marks `a` and `b` became `a'` and `b'`.
  pub record Collected (s : Store R) (tbls : List String) (a a' : Groups R) (b b' : AllMarks)
      : Type 0 where
    pub hit_points :
        (t : String) (k : TableKey)
        → mentions t tbls ≡ true
        → sent a' t k ≡ sent a t k ++ unsent s t k
    pub hit_marks :
        (t : String)
        → mentions t tbls ≡ true
        → (marks : WaterMarks) × (lookup t b' ≡ some marks) × AreLengths marks s t
    pub miss_points : (t : String) → mentions t tbls ≡ false → lookup t a' ≡ lookup t a
    pub miss_marks : (t : String) → mentions t tbls ≡ false → lookup t b' ≡ lookup t b
    pub distinct : DistinctKeys b → DistinctKeys b'

  default-map-length :
      (o : Option (DataPoints R)) → default 0 (Option.map length o) ≡ length (default [] o)
  default-map-length none = refl
  default-map-length (some v) = refl

  -- One turn of the loop, before the others.
  Collected-cons :
      (s : Store R) (tbl : String) (tbls : List String) (rows : Table R) (marks : WaterMarks)
      (a a' : Groups R) (b b' : AllMarks)
      → mentions tbl tbls ≡ false
      → IsSnapshot (marks_of s tbl) (table_of s tbl) rows marks
      → Collected s tbls (add_groups tbl rows a) a' (insert tbl marks b) b'
      → Collected s (tbl ∷ tbls) a a' b b'
  Collected-cons s tbl tbls rows marks a a' b b' fresh snap c = record {
    hit_points = λ t k h. elim (Bool-cases (tbl == t)) [
      | inl same ↦ rw (← eq_of_== tbl t same) (
          ap (λ o. points_in k (default [] o)) (c.miss_points tbl fresh)
          ∙ ap (points_in k) (add_groups_self tbl rows a)
          ∙ points_in-append k (default [] (lookup tbl a)) (map group_of rows)
          ∙ ap (λ l. sent a tbl k ++ l) (points_in-rows k rows snap.distinct ∙ snap.points k))
      | inr other ↦
          let ne : tbl ≢ t = ground (arith, string_eq.same_iff tbl t) in
          c.hit_points t k (rw other at h)
          ∙ ap (λ o. points_in k (default [] o) ++ unsent s t k) (add_groups-ne tbl t rows a ne)
    ];
    hit_marks = λ t h. elim (Bool-cases (tbl == t)) [
      | inl same ↦ rw (← eq_of_== tbl t same) (
        marks,
        c.miss_marks tbl fresh ∙ lookup-insert_self tbl marks b,
        λ k. ap (default 0) (snap.lengths k) ∙ default-map-length (lookup k (table_of s tbl)),
      )
      | inr other ↦ c.hit_marks t (rw other at h)
    ];
    miss_points = λ t h. elim (Bool-cases (tbl == t)) [
      | inl same ↦ absurd (cc (rw same at h))
      | inr other ↦
          let ne : tbl ≢ t = ground (arith, string_eq.same_iff tbl t) in
          c.miss_points t (rw other at h) ∙ add_groups-ne tbl t rows a ne
    ];
    miss_marks = λ t h. elim (Bool-cases (tbl == t)) [
      | inl same ↦ absurd (cc (rw same at h))
      | inr other ↦
          let ne : tbl ≢ t = ground (arith, string_eq.same_iff tbl t) in
          c.miss_marks t (rw other at h) ∙ lookup-insert_ne tbl t marks b ne
    ];
    distinct = λ d. c.distinct (DistinctKeys-insert tbl marks b d);
  }

  pub collect_unmarked-Collected :
      (s : Store R) (tbls : List String) (a : Groups R) (b : AllMarks)
      → IsSound s
      → Distinct tbls
      → (a' : Groups R) × (b' : AllMarks) × (collect_unmarked s tbls a b ≡ ret (a', b'))
        × Collected s tbls a a' b b'
  unfolding collect_unmarked
  collect_unmarked-Collected s [] a b v d = (
    a,
    b,
    refl,
    record {
      hit_points = λ t k h. absurd (cc h);
      hit_marks = λ t h. absurd (cc h);
      miss_points = λ t h. refl;
      miss_marks = λ t h. refl;
      distinct = λ u. u;
    },
  )
  collect_unmarked-Collected s (tbl ∷ tbls) a b v (fresh, d) =
      let (rows, marks, e, snap) = for_each_unmarked-IsSnapshot s tbl v in
      let (a', b', e', c) =
        collect_unmarked-Collected s tbls (add_groups tbl rows a) (insert tbl marks b) v d in
      (a', b', rw (e, e'), Collected-cons s tbl tbls rows marks a a' b b' fresh snap c)
