-- ===== src/Metrics/Store/Start.antt =====
-- `NewStore` and `Populate` of pkg/metrics/store.go: the store that the manager starts from.
use hub_agent_kubernetes.Prelude.{
  ℕ, String, List, [], ◌∷◌, ◌≡◌, refl, ap, inl, inr, ◌==◌, string_eq, GoMap, lookup, default, map,
  arith, Bool-cases,
}
use hub_agent_kubernetes.Metrics.Points.{DataPoints}
use hub_agent_kubernetes.Metrics.Store.{
  TableInfo, TableKey, key_eq, WaterMarks, standard_tables, new_store,
}
use hub_agent_kubernetes.Metrics.Store.Marks.{IsSound}

abbrev empties : {V : Type 0} → List TableInfo → GoMap String (List V)
empties = map (λ (info : TableInfo). (info.name, []))

lookup-empties :
    {V : Type 0} (tables : List TableInfo) (tbl : String)
    → default [] (lookup tbl (empties {V = V} tables)) ≡ []
unfolding lookup
lookup-empties [] tbl = refl
lookup-empties {V} (info ∷ tables) tbl = elim (Bool-cases (info.name == tbl)) [
  | inl e ↦ rw e
  | inr e ↦ rw e (lookup-empties {V = V} tables tbl)
]

pub new_store-IsSound : (R : Type 0) → IsSound (new_store R)
unfolding new_store lookup
new_store-IsSound R = record {
  distinct = λ tbl. rw (lookup-empties {V = TableKey × DataPoints R} standard_tables tbl) tt;
  marked = λ tbl k.
      let none_marked = lookup-empties {V = TableKey × ℕ} standard_tables tbl in
      omega (arith, ap (λ (w : WaterMarks). default 0 (lookup k w)) none_marked);
}
