-- ===== src/Metrics/Manager/Commit.antt =====
-- The marks that `send` (pkg/metrics/manager.go) writes once the platform has taken the points.
use hub_agent_kubernetes.Prelude.{
  ◌≤◌, String, false, [], ◌∷◌, ◌≡◌, ◌≢◌, refl, ap, ◌∙◌, none, some, inl, inr, lookup, insert,
  default, arith, string_eq, ◌==◌, DistinctKeys, Bool-cases, ==_refl, eq_of_==, lookup-insert_self,
  lookup-insert_ne, lookup-insert, length, Option-cases,
}
use hub_agent_kubernetes.Metrics.Store.{
  TableKey, key_eq, WaterMarks, Store, row, marks_of, commit_marks,
}
use hub_agent_kubernetes.Metrics.Store.Marks.{IsSound, commit_marks-IsSound}
use hub_agent_kubernetes.Metrics.Manager.{AllMarks, commit_all}

module _ {R : Type 0} where
  commit_marks-data :
      (t : String) (marks : WaterMarks) (s : Store R)
      → (commit_marks t marks s).table_data ≡ s.table_data
  unfolding commit_marks
  commit_marks-data t marks s = elim (Option-cases (lookup t s.marks)) [
    | inl e ↦ rw (e, commit_marks)
    | inr (old, e) ↦ rw (e, commit_marks)
  ]

  commit_marks-none :
      (t u : String) (marks : WaterMarks) (s : Store R)
      → lookup u s.marks ≢ none
      → lookup u (commit_marks t marks s).marks ≢ none
  unfolding commit_marks
  commit_marks-none t u marks s h = elim (Option-cases (lookup t s.marks)) [
    | inl e ↦ rw (e, commit_marks) h
    | inr (old, e) ↦ λ p.
        let q : lookup u (insert t marks s.marks) ≡ none = rw (e, commit_marks) at p in
        h (ground (arith, lookup-insert t u marks s.marks))
  ]

  commit_marks_self :
      (t : String) (marks : WaterMarks) (s : Store R)
      → lookup t s.marks ≢ none
      → marks_of (commit_marks t marks s) t ≡ marks
  unfolding commit_marks
  commit_marks_self t marks s h = elim (Option-cases (lookup t s.marks)) [
    | inl e ↦ absurd (h e)
    | inr (old, e) ↦ rw (e, commit_marks) (ap (default []) (lookup-insert_self t marks s.marks))
  ]

  commit_marks-ne :
      (t u : String) (marks : WaterMarks) (s : Store R)
      → t ≢ u
      → marks_of (commit_marks t marks s) u ≡ marks_of s u
  unfolding commit_marks
  commit_marks-ne t u marks s h = elim (Option-cases (lookup t s.marks)) [
    | inl e ↦ rw (e, commit_marks)
    | inr (old, e) ↦ rw (e, commit_marks) (ap (default []) (lookup-insert_ne t u marks s.marks h))
  ]

  pub commit_all-data : (b : AllMarks) (s : Store R) → (commit_all b s).table_data ≡ s.table_data
  unfolding commit_all
  commit_all-data [] s = refl
  commit_all-data ((t, marks) ∷ b) s =
      commit_all-data b (commit_marks t marks s) ∙ commit_marks-data t marks s

  -- A table with marks of its own has the new marks, if there are any.
  pub commit_all-marks :
      (b : AllMarks) (s : Store R) (u : String)
      → DistinctKeys b
      → lookup u s.marks ≢ none
      → marks_of (commit_all b s) u ≡ default (marks_of s u) (lookup u b)
  unfolding commit_all lookup
  commit_all-marks [] s u d h = refl
  commit_all-marks ((t, marks) ∷ b) s u (fresh, d) h =
      let ih = commit_all-marks b (commit_marks t marks s) u d (commit_marks-none t u marks s h) in
      elim (Bool-cases (t == u)) [
        | inl same ↦
            let e = eq_of_== t u same in
            let gone : lookup u b ≡ none = rw e at fresh in
            let own : marks_of (commit_marks t marks s) u ≡ marks =
              rw (← e) (commit_marks_self t marks s (rw (← e) at h)) in
            rw same (ih ∙ ap (default (marks_of (commit_marks t marks s) u)) gone ∙ own)
        | inr other ↦
            let ne : t ≢ u = ground (arith, string_eq.same_iff t u) in
            rw other (ih ∙ ap (λ m. default m (lookup u b)) (commit_marks-ne t u marks s ne))
      ]

  -- No new mark is past the end of its row.
  abbrev pub Fit : AllMarks → Store R → Type 0
  Fit b s =
      (t : String) (marks : WaterMarks) (k : TableKey)
      → lookup t b ≡ some marks
      → default 0 (lookup k marks) ≤ length (row s t k)

  Fit-tail :
      (t : String) (marks : WaterMarks) (b : AllMarks) (s : Store R)
      → lookup t b ≡ none
      → Fit ((t, marks) ∷ b) s
      → Fit b (commit_marks t marks s)
  unfolding lookup
  Fit-tail t marks b s fresh f u m k e =
      let other : (t == u) ≡ false = ground (arith, string_eq.same_iff t u) in
      rw (commit_marks-data t marks s) (f u m k (rw other e))

  Fit-head :
      (t : String) (marks : WaterMarks) (b : AllMarks) (s : Store R) (k : TableKey)
      → Fit ((t, marks) ∷ b) s
      → default 0 (lookup k marks) ≤ length (row s t k)
  Fit-head t marks b s k f = f t marks k (unfold lookup in rw (==_refl t))

  pub commit_all-IsSound :
      (b : AllMarks) (s : Store R) → DistinctKeys b → Fit b s → IsSound s → IsSound (commit_all b s)
  unfolding commit_all
  commit_all-IsSound [] s d f v = v
  commit_all-IsSound ((t, marks) ∷ b) s (fresh, d) f v =
      commit_all-IsSound b (commit_marks t marks s) d (Fit-tail t marks b s fresh f)
        (commit_marks-IsSound t marks s v (λ k. Fit-head t marks b s k f))
