-- ===== src/Expr/Pluck.antt =====
-- pkg/acp/expr/pluck.go
pub mod Errors
pub mod Headers
use hub_agent_kubernetes.Prelude.{
  ℕ, zero, suc, ◌+◌, Char, code, String, Bool, true, false, Option, none, some, List, [], ◌∷◌, ◌++◌,
  nat_beq, any, if◌then◌else◌, not, ◌&&◌, ◌||◌, ◌==◌, string_eq, nat_eq, Run, ret, panic, ◌>>=◌,
  GoMap, insert, ◌≡◌, refl,
}
use hub_agent_kubernetes.Strings.{
  runes, string_of, has_prefix, contains, split as split_text, trim_space,
}
use hub_agent_kubernetes.Expr.{
  Value, null, str, num, bool, arr, obj, other, Items, nil, cons, Claims, resolve, format_bool,
}

-- pluck.go: an error is the `%T` of an unsupported value.
pub data Plucked {ℓ} (A : Type ℓ) : Type ℓ where
  ok : A → Plucked A
  unsupported : Plucked A

unfoldable pub to_str : Value → Plucked String
to_str (str v) = ok v
to_str (num v) = ok v
to_str (bool v) = ok (format_bool v)
to_str _ = unsupported

abbrev pub prepend : Plucked String → Plucked (List String) → Plucked (List String)
prepend (ok s) (ok r) = ok (s ∷ r)
prepend (ok s) unsupported = unsupported
prepend unsupported r = unsupported

-- the loop over an array
unfoldable pub all_to_str : Items → Plucked (List String)
unfolding to_str
all_to_str nil = ok []
all_to_str (cons v vs) = prepend (to_str v) (all_to_str vs)

unfoldable pub pluck_value : Option Value → Plucked (List String)
unfolding all_to_str
pluck_value none = ok []
pluck_value (some (arr vs)) = all_to_str vs
pluck_value (some v) = prepend (to_str v) (ok [])

unfoldable pub pluck_claim : String → Claims → Run (Plucked (List String))
unfolding pluck_value
pluck_claim selection claims = do claim_val ← resolve selection claims; ret (pluck_value claim_val)

-- The loop of `PluckClaims` over the selection, with the result so far.
unfoldable pub pluck_from :
    GoMap String String
    → Claims
    → GoMap String (List String)
    → Run (Plucked (GoMap String (List String)))
unfolding insert
pluck_from [] claims result = ret (ok result)
pluck_from ((name, claim) ∷ more) claims result = elim (pluck_claim claim claims) [
  | panic ↦ panic
  | ret unsupported ↦ ret unsupported
  | ret (ok []) ↦ pluck_from more claims result
  | ret (ok (x ∷ xs)) ↦ pluck_from more claims (insert name (x ∷ xs) result)
]

unfoldable pub pluck_claims :
    GoMap String String → Claims → Run (Plucked (GoMap String (List String)))
unfolding pluck_from
pluck_claims selection claims = pluck_from selection claims []
