-- ===== src/Expr/Tests.antt =====
-- The claims of the package's tests, and an input for each theorem that has hypotheses.
use hub_agent_kubernetes.Prelude.{
  String, Bool, Option, ◌≡◌, refl, ◌↔◌, true, false, none, some, List, [], ◌∷◌, ◌++◌, map, arith,
  ret, panic, All, GoMap, lookup, string_eq,
}
use hub_agent_kubernetes.Strings.{runes, string_of}
use hub_agent_kubernetes.Expr.{
  Value, str, num, bool, arr, obj, Items, nil, cons, Claims, end, field, backslash, dot, split,
  resolve,
}
use hub_agent_kubernetes.Expr.Split.{address, split-address, split-total, split-panics}
use hub_agent_kubernetes.Expr.Resolve.{At, resolve-address_iff}
use hub_agent_kubernetes.Expr.Predicates.{equals, prefix, contains_claim, split_contains, ohubf}
use hub_agent_kubernetes.Expr.Predicates.Meaning.{
  any_equals, IsBool, ohubf-any_equals, Has, contains_claim-Has,
}
use hub_agent_kubernetes.Expr.Pluck.{ok, pluck_claim, pluck_claims}
use hub_agent_kubernetes.Expr.Pluck.Errors.{IsForwardable, pluck_claims-ok_iff}
use hub_agent_kubernetes.Expr.Pluck.Headers.{header_of, pluck_claims-lookup}

abbrev claims : Claims
claims = field "iss" (str "hub") (
    field "roles" (arr (cons (str "dev") (cons (num "7") nil)))
      (field "user" (obj (field "na.me" (str "ann") (field "admin" (bool true) end))) end))

split_tests :
    (split "a.b" dot ≡ ret ("a" ∷ "b" ∷ []))
    × (split "a\\.b" dot ≡ ret ("a.b" ∷ []))
    × (split "a\\b.c\\" dot ≡ ret ("a\\b" ∷ "c\\" ∷ []))
    × (split "é\\" dot ≡ panic)
unfolding split
split_tests = (refl, refl, refl, refl)

resolve_tests :
    (resolve "user.na\\.me" claims ≡ ret (some (str "ann")))
    × (resolve "user" claims ≡ ret none)
    × (resolve "iss.x" claims ≡ ret none)
unfolding resolve
resolve_tests = (refl, refl, refl)

predicate_tests :
    (equals "user.admin" "true" claims ≡ ret true)
    × (prefix "iss" "hu" claims ≡ ret true)
    × (contains_claim "roles" "7" claims ≡ ret true)
    × (contains_claim "iss" "ub" claims ≡ ret true)
    × (split_contains "iss" "u" "b" claims ≡ ret true)
    × (ohubf "user.admin" ("true" ∷ []) claims ≡ ret false)
unfolding equals prefix contains_claim split_contains ohubf resolve
predicate_tests = (refl, refl, refl, refl, refl, refl)

split-address_example :
    split (string_of (address (runes "user") (runes "na.me" ∷ []))) dot
    ≡ ret (map string_of (runes "user" ∷ runes "na.me" ∷ []))
split-address_example = split-address (runes "user") (runes "na.me" ∷ [])

split-total_example : (out : List String) × (split "user.name" dot ≡ ret out)
split-total_example = split-total "user.name" dot refl

split-panics_example : split (string_of (runes "é" ++ backslash ∷ [])) dot ≡ panic
split-panics_example = split-panics (runes "é") dot (omega arith) (omega arith)

resolve-address_iff_example :
    (found : Option Value) × (resolve
        (string_of (address (runes "user") (runes "na.me" ∷ [])))
        claims
      ≡ ret found)
    × ((found ≡ some (str "ann"))
        ↔ At claims (map string_of (runes "user" ∷ runes "na.me" ∷ [])) (str "ann"))
resolve-address_iff_example =
    resolve-address_iff (runes "user") (runes "na.me" ∷ []) claims (str "ann")

iss_not-IsBool : (v : Value) → resolve "iss" claims ≡ ret (some v) → ¬ IsBool v
unfolding resolve
iss_not-IsBool (bool b) h = cc
iss_not-IsBool v h = λ b. absurd b

ohubf-any_equals_example :
    ohubf "iss" ("x" ∷ "hub" ∷ []) claims ≡ any_equals "iss" ("x" ∷ "hub" ∷ []) claims
ohubf-any_equals_example = ohubf-any_equals "iss" ("x" ∷ "hub" ∷ []) claims iss_not-IsBool

abbrev roles : Items
roles = cons (str "dev") (cons (num "7") nil)

contains_claim-Has_example :
    (answer : Bool) × (contains_claim "roles" "7" claims ≡ ret answer)
    × ((answer ≡ true) ↔ Has roles "7")
unfolding resolve
contains_claim-Has_example = contains_claim-Has "roles" "7" claims roles refl

abbrev selection : GoMap String String
selection = ("X-Roles", "roles") ∷ ("X-None", "nope") ∷ []

plucked : pluck_claims selection claims ≡ ret (ok (("X-Roles", "dev" ∷ "7" ∷ []) ∷ []))
unfolding pluck_claims pluck_claim resolve
plucked = refl

pluck_claims-ok_iff_example :
    ((r : GoMap String (List String)) × (pluck_claims selection claims ≡ ret (ok r)))
    ↔ All (IsForwardable claims) selection
pluck_claims-ok_iff_example = pluck_claims-ok_iff selection claims

abbrev headers : GoMap String (List String)
headers = ("X-Roles", "dev" ∷ "7" ∷ []) ∷ []

pluck_claims-lookup_example :
    lookup "X-Roles" headers ≡ header_of claims (lookup "X-Roles" selection)
unfolding lookup
pluck_claims-lookup_example =
    pluck_claims-lookup selection claims headers "X-Roles" (refl, (refl, tt)) plucked
