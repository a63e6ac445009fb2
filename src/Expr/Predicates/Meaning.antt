-- ===== src/Expr/Predicates/Meaning.antt =====
-- What the predicates of pkg/acp/expr/parser.go decide.
use hub_agent_kubernetes.Prelude.{
  String, ◌≡◌, refl, ap, ◌∙◌, ◌↔◌, inl, inr, Bool, true, false, ◌||◌, Option, none, some, List, [],
  ◌∷◌, arith, Run, ret, panic, ◌>>=◌, Bool-cases,
}
use hub_agent_kubernetes.Expr.{Value, str, bool, arr, Items, nil, cons, Claims, resolve}
use hub_agent_kubernetes.Expr.Predicates.{
  Predicate, or_else, equals, ohubf, ohubf_test, matches, and_func, or_func, not_func,
  contains_claim, contains_test, some_matches,
}

-- `Ohubf` on a list of values is the disjunction of `Equals` on each of them.
abbrev pub any_equals : String → List String → Predicate
any_equals name [] = λ claims. do v ← resolve name claims; ret false
any_equals name (e ∷ es) = or_func (equals name e) (any_equals name es)

abbrev pub IsBool : Value → Type 0
IsBool (bool b) = Unit
IsBool _ = ⊥

ohubf_test-cons :
    (e : String) (es : List String) (v : Value)
    → ¬ IsBool v
    → ohubf_test (e ∷ es) v ≡ (matches v e || ohubf_test es v)
unfolding ohubf_test matches
ohubf_test-cons e es (bool b) h = absurd (h tt)
ohubf_test-cons e es v h = refl

or_func_congr :
    (a b b' : Predicate) (claims : Claims)
    → b claims ≡ b' claims
    → or_func a b claims ≡ or_func a b' claims
unfolding or_func
or_func_congr a b b' claims p = ap (λ y. a claims >>= λ x. or_else x y) p

ohubf-cons :
    (name e : String) (es : List String) (claims : Claims)
    → ((v : Value) → resolve name claims ≡ ret (some v) → ¬ IsBool v)
    → ohubf name (e ∷ es) claims ≡ or_func (equals name e) (ohubf name es) claims
unfolding ohubf equals or_func
ohubf-cons name e es claims h = go (resolve name claims) refl
  where
    go :
        (m : Run (Option Value))
        → resolve name claims ≡ m
        → ohubf name (e ∷ es) claims ≡ or_func (equals name e) (ohubf name es) claims
    go panic p = rw (p, ohubf, or_func, equals)
    go (ret none) p = rw (p, ohubf, or_func, equals)
    go (ret (some v)) p =
        rw (p, ohubf, or_func, equals) (ground (arith, ohubf_test-cons e es v (h v p)))

ohubf_test-nil : (v : Value) → ohubf_test [] v ≡ false
unfolding ohubf_test
ohubf_test-nil (str s) = refl
ohubf_test-nil v = refl

ohubf-nil : (name : String) (claims : Claims) → ohubf name [] claims ≡ any_equals name [] claims
unfolding ohubf
ohubf-nil name claims = go (resolve name claims) refl
  where
    go :
        (m : Run (Option Value))
        → resolve name claims ≡ m
        → ohubf name [] claims ≡ any_equals name [] claims
    go panic p = rw (p, ohubf)
    go (ret none) p = rw (p, ohubf)
    go (ret (some v)) p = rw (p, ohubf) (ap ret (ohubf_test-nil v))

-- For a claim that is not a Boolean, `Ohubf` with a list of values is `Equals` with one of them,
-- tried in turn; on a claim that is missing, and on a panic, they agree too.
pub ohubf-any_equals :
    (name : String) (es : List String) (claims : Claims)
    → ((v : Value) → resolve name claims ≡ ret (some v) → ¬ IsBool v)
    → ohubf name es claims ≡ any_equals name es claims
ohubf-any_equals name [] claims h = ohubf-nil name claims
ohubf-any_equals name (e ∷ es) claims h =
    ohubf-cons name e es claims h
    ∙ or_func_congr (equals name e) (ohubf name es) (any_equals name es) claims
        (ohubf-any_equals name es claims h)

-- A claim that holds some value of the array counts, and no other.
pub data Has : Items → String → Type 0 where
  here :
      {v : Value} {vs : Items} {expected : String}
      → matches v expected ≡ true
      → Has (cons v vs) expected
  later : {v : Value} {vs : Items} {expected : String} → Has vs expected → Has (cons v vs) expected

some_matches-Has :
    (vs : Items) (expected : String) → some_matches vs expected ≡ true → Has vs expected
some_matches-Has nil expected h = unfold some_matches in cc
some_matches-Has (cons v vs) expected h = elim (Bool-cases (matches v expected)) [
  | inl yes' ↦ here yes'
  | inr no' ↦ later (some_matches-Has vs expected (unfold some_matches in ground arith))
]

Has-some_matches :
    {vs : Items} {expected : String} → Has vs expected → some_matches vs expected ≡ true
unfolding some_matches
Has-some_matches (here h) = ground arith
Has-some_matches (later h) = ground (arith, Has-some_matches h)

-- On a claim that is an array, `Contains` returns, it does not panic; and it gives true exactly when
-- some element matches.
pub contains_claim-Has :
    (name expected : String) (claims : Claims) (vs : Items)
    → resolve name claims ≡ ret (some (arr vs))
    → (answer : Bool) × (contains_claim name expected claims ≡ ret answer)
      × ((answer ≡ true) ↔ Has vs expected)
unfolding contains_claim contains_test
contains_claim-Has name expected claims vs h = (
  some_matches vs expected,
  rw (h, contains_claim) refl,
  (λ e. some_matches-Has vs expected e, λ d. Has-some_matches d),
)

-- The negation of a conjunction is the disjunction of the negations, the short cuts and the panics
-- of the two predicates included.
pub not_func-and_func :
    (a b : Predicate) (claims : Claims)
    → not_func (and_func a b) claims ≡ or_func (not_func a) (not_func b) claims
unfolding not_func and_func or_func
not_func-and_func a b claims = go (a claims) refl
  where
    go :
        (x : Run Bool)
        → a claims ≡ x
        → not_func (and_func a b) claims ≡ or_func (not_func a) (not_func b) claims
    go panic p = rw p
    go (ret true) p = rw p
    go (ret false) p = rw p
