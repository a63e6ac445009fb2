-- ===== src/Expr/Predicates.antt =====
-- The predicates of pkg/acp/expr/parser.go.
pub mod Meaning
use hub_agent_kubernetes.Prelude.{
  ℕ, zero, suc, ◌+◌, Char, code, String, Bool, true, false, Option, none, some, List, [], ◌∷◌, ◌++◌,
  nat_beq, any, if◌then◌else◌, not, ◌&&◌, ◌||◌, ◌==◌, string_eq, nat_eq, Run, ret, panic, ◌>>=◌,
  GoMap, insert, ◌≡◌, refl,
}
use hub_agent_kubernetes.Strings.{
  runes, string_of, has_prefix, contains, split as split_text, trim_space,
}
use hub_agent_kubernetes.Expr.{
  Value, null, str, num, bool, arr, obj, other, Items, nil, cons, Claims, resolve, format_bool,
}

-- `==` on strings, at this type alone
abbrev pub str_eq : String → String → Bool
str_eq a b = a == b

unfoldable pub matches : Value → String → Bool
matches (str val) expected = str_eq val expected
matches (num val) expected = str_eq val expected
matches (bool val) expected = str_eq (format_bool val) expected
matches _ expected = false

-- `Predicate`: a panic of `resolve` goes through.
abbrev pub Predicate : Type 0
Predicate = Claims → Run Bool

-- `a(v) && b(v)`: `b` is not called where `a` gives false.
unfoldable pub and_then : Bool → Run Bool → Run Bool
and_then true b = b
and_then false b = ret false

unfoldable pub or_else : Bool → Run Bool → Run Bool
or_else true b = ret true
or_else false b = b

unfoldable pub and_func : Predicate → Predicate → Predicate
unfolding and_then
and_func a b v = do x ← a v; and_then x (b v)

unfoldable pub or_func : Predicate → Predicate → Predicate
unfolding or_else
or_func a b v = do x ← a v; or_else x (b v)

unfoldable pub not_func : Predicate → Predicate
not_func a v = do x ← a v; ret (not x)

-- What each predicate does with the claim that `resolve` found.
abbrev pub on_claim : (Value → Bool) → Option Value → Bool
on_claim test none = false
on_claim test (some claim) = test claim

unfoldable pub equals : String → String → Predicate
unfolding matches
equals claim_name expected claims = do
  claim ← resolve claim_name claims
  ret (on_claim (λ c. matches c expected) claim)

unfoldable pub prefix_test : String → Value → Bool
unfolding has_prefix
prefix_test expected (str s) = has_prefix (runes s) (runes expected)
prefix_test expected _ = false

unfoldable pub prefix : String → String → Predicate
unfolding prefix_test
prefix claim_name expected claims = do
  claim ← resolve claim_name claims
  ret (on_claim (prefix_test expected) claim)

unfoldable pub some_matches : Items → String → Bool
unfolding matches
some_matches nil expected = false
some_matches (cons v vs) expected = matches v expected || some_matches vs expected

unfoldable pub contains_test : String → Value → Bool
unfolding some_matches contains
contains_test expected (arr val) = some_matches val expected
contains_test expected (str val) = contains (runes val) (runes expected)
contains_test expected _ = false

unfoldable pub contains_claim : String → String → Predicate
unfolding contains_test
contains_claim claim_name expected claims = do
  claim ← resolve claim_name claims
  ret (on_claim (contains_test expected) claim)

-- `matches` on a string is `==`.
unfoldable pub split_contains_test : String → String → Value → Bool
unfolding split_text trim_space matches
split_contains_test sep expected (str s) =
    any (λ v. matches (str (string_of (trim_space v))) expected) (split_text (runes s) (runes sep))
split_contains_test sep expected _ = false

unfoldable pub split_contains : String → String → String → Predicate
unfolding split_contains_test
split_contains claim_name sep expected claims = do
  claim ← resolve claim_name claims
  ret (on_claim (split_contains_test sep expected) claim)

unfoldable pub ohubf_test : List String → Value → Bool
ohubf_test expected (str val) = any (λ exp. str_eq val exp) expected
ohubf_test expected (num val) = any (λ exp. str_eq val exp) expected
ohubf_test expected _ = false

unfoldable pub ohubf : String → List String → Predicate
unfolding ohubf_test
ohubf claim_name expected claims = do
  claim ← resolve claim_name claims
  ret (on_claim (ohubf_test expected) claim)
