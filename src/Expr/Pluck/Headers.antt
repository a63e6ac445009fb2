-- ===== src/Expr/Pluck/Headers.antt =====
-- Which headers `PluckClaims` gives back.
use hub_agent_kubernetes.Prelude.{
  String, ◌≡◌, ◌≢◌, refl, ◌∙◌, Option, none, some, List, [], ◌∷◌, arith, Run, ret, panic, GoMap,
  lookup, insert, lookup-insert_self, lookup-insert_ne, string_eq, ◌==◌, DistinctKeys, eq_of_==,
  Bool-cases, inl, inr,
}
use hub_agent_kubernetes.Expr.{Claims}
use hub_agent_kubernetes.Expr.Pluck.{
  Plucked, ok, unsupported, pluck_claim, pluck_from, pluck_claims,
}

abbrev pub Headers : Type 0
Headers = GoMap String (List String)

-- A header with no value is left out.
abbrev pub non_empty : List String → Option (List String)
non_empty [] = none
non_empty (x ∷ xs) = some (x ∷ xs)

abbrev put : String → List String → Headers → Headers
put name [] result = result
put name (x ∷ xs) result = insert name (x ∷ xs) result

lookup-put_self :
    (name : String) (xs : List String) (result : Headers)
    → lookup name result ≡ none
    → lookup name (put name xs result) ≡ non_empty xs
lookup-put_self name [] result h = h
lookup-put_self name (x ∷ xs) result h = lookup-insert_self name (x ∷ xs) result

lookup-put_ne :
    (name j : String) (xs : List String) (result : Headers)
    → name ≢ j
    → lookup j (put name xs result) ≡ lookup j result
lookup-put_ne name j [] result h = refl
lookup-put_ne name j (x ∷ xs) result h = lookup-insert_ne name j (x ∷ xs) result h

module _ (claims : Claims) (r : Headers) where
  -- One round of the loop that went on: the values that it read, and the headers after it.
  pluck_from-cons :
      (name claim : String) (more : GoMap String String) (result : Headers)
      → pluck_from ((name, claim) ∷ more) claims result ≡ ret (ok r)
      → (xs : List String) × (pluck_claim claim claims ≡ ret (ok xs))
        × (pluck_from more claims (put name xs result) ≡ ret (ok r))
  unfolding pluck_from
  pluck_from-cons name claim more result h = go (pluck_claim claim claims) refl
    where
      go :
          (m : Run (Plucked (List String)))
          → pluck_claim claim claims ≡ m
          → (xs : List String) × (pluck_claim claim claims ≡ ret (ok xs))
            × (pluck_from more claims (put name xs result) ≡ ret (ok r))
      go panic e = let h' : panic ≡ ret (ok r) = rw (e, pluck_from) at h in cc
      go (ret unsupported) e = let h' : ret unsupported ≡ ret (ok r) = rw (e, pluck_from) at h in cc
      go (ret (ok [])) e = ([], e, rw (e, pluck_from) at h)
      go (ret (ok (x ∷ xs))) e = (x ∷ xs, e, rw (e, pluck_from) at h)

  pluck_from-lookup_ne :
      (sel : GoMap String String) (result : Headers) (j : String)
      → pluck_from sel claims result ≡ ret (ok r)
      → lookup j sel ≡ none
      → lookup j r ≡ lookup j result
  unfolding lookup
  pluck_from-lookup_ne [] result j h k =
      let e : ret (ok result) ≡ ret (ok r) = unfold pluck_from in h in cc
  pluck_from-lookup_ne ((name, claim) ∷ more) result j h k =
      let (xs, found, rest) = pluck_from-cons name claim more result h in
      let ne : name ≢ j = ground (arith, string_eq.same_iff name j) in
      pluck_from-lookup_ne more (put name xs result) j rest
        (ground (arith, string_eq.same_iff name j))
      ∙ lookup-put_ne name j xs result ne

  pluck_from-ok :
      (sel : GoMap String String) (result : Headers) (j claim : String)
      → pluck_from sel claims result ≡ ret (ok r)
      → lookup j sel ≡ some claim
      → (xs : List String) × (pluck_claim claim claims ≡ ret (ok xs))
  pluck_from-ok [] result j claim h k = unfold lookup in cc
  pluck_from-ok ((name, c) ∷ more) result j claim h k =
      let (ys, found, rest) = pluck_from-cons name c more result h in
      elim (Bool-cases (name == j)) [
        | inl same ↦ let q : c ≡ claim = unfold lookup in ground arith in (ys, rw (← q) found)
        | inr other ↦
            pluck_from-ok more (put name ys result) j claim rest (unfold lookup in ground arith)
      ]

  pluck_from-lookup :
      (sel : GoMap String String) (result : Headers) (j claim : String) (xs : List String)
      → DistinctKeys sel
      → pluck_from sel claims result ≡ ret (ok r)
      → lookup j sel ≡ some claim
      → lookup j result ≡ none
      → pluck_claim claim claims ≡ ret (ok xs)
      → lookup j r ≡ non_empty xs
  pluck_from-lookup [] result j claim xs d h k n e = unfold lookup in cc
  pluck_from-lookup ((name, c) ∷ more) result j claim xs (fresh, d) h k n e =
      let (ys, found, rest) = pluck_from-cons name c more result h in
      elim (Bool-cases (name == j)) [
        | inl same ↦
            let p : name ≡ j = eq_of_== name j same in
            let q : c ≡ claim = unfold lookup in ground arith in
            let t : ys ≡ xs = cc in
            pluck_from-lookup_ne more (put name ys result) j rest (rw (← p) fresh)
            ∙ rw (← t, ← p) (lookup-put_self name ys result (rw p n))
        | inr other ↦
            let ne : name ≢ j = ground (arith, string_eq.same_iff name j) in
            pluck_from-lookup more (put name ys result) j claim xs d rest
              (unfold lookup in ground arith) (lookup-put_ne name j ys result ne ∙ n) e
      ]

-- The values of one header, read off `PluckClaim`.
abbrev pub values_of : Run (Plucked (List String)) → Option (List String)
values_of (ret (ok xs)) = non_empty xs
values_of _ = none

abbrev pub header_of : Claims → Option String → Option (List String)
header_of claims none = none
header_of claims (some claim) = values_of (pluck_claim claim claims)

-- Where `PluckClaims` succeeds, a selected header holds the values that `PluckClaim` finds for its
-- claim, and is left out where there are none; a header that is not selected is not there.
pub pluck_claims-lookup :
    (sel : GoMap String String) (claims : Claims) (r : Headers) (name : String)
    → DistinctKeys sel
    → pluck_claims sel claims ≡ ret (ok r)
    → lookup name r ≡ header_of claims (lookup name sel)
unfolding pluck_claims
pluck_claims-lookup sel claims r name d h = go (lookup name sel) refl
  where
    empty : lookup {V = List String} name [] ≡ none
    empty = unfold lookup in refl

    go : (o : Option String) → lookup name sel ≡ o → lookup name r ≡ header_of claims o
    go none k = pluck_from-lookup_ne claims r sel [] name h k ∙ empty
    go (some claim) k =
        let (xs, e) = pluck_from-ok claims r sel [] name claim h k in
        rw e (pluck_from-lookup claims r sel [] name claim xs d h k empty e)
