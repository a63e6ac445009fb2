-- ===== src/Expr/Resolve.antt =====
-- `resolve` of pkg/acp/expr/parser.go: it finds what a path of names leads to, and nothing else.
use hub_agent_kubernetes.Prelude.{
  Char, String, ◌≡◌, ◌≢◌, refl, ◌↔◌, Option, none, some, List, [], ◌∷◌, map, ret,
}
use hub_agent_kubernetes.Strings.{string_of}
use hub_agent_kubernetes.Expr.{Value, obj, Claims, get, resolve_parts, resolve}
use hub_agent_kubernetes.Expr.Split.{address, split-address}

-- Not a nested set of claims.
abbrev pub IsLeaf : Value → Type 0
IsLeaf v = (m : Claims) → v ≢ obj m

-- The value that a path of names leads to: nested claims on the way, and a leaf at its end.
pub data At : Claims → List String → Value → Type 0 where
  leaf :
      {claims : Claims} {name : String} {v : Value}
      → get name claims ≡ some v
      → IsLeaf v
      → At claims (name ∷ []) v
  below :
      {claims inner : Claims} {name next : String} {path : List String} {v : Value}
      → get name claims ≡ some (obj inner)
      → At inner (next ∷ path) v
      → At claims (name ∷ next ∷ path) v

resolve_parts-leaf :
    (name : String) (claims : Claims) (v : Value)
    → get name claims ≡ some v
    → IsLeaf v
    → resolve_parts (name ∷ []) claims ≡ some v
unfolding resolve_parts
resolve_parts-leaf name claims (obj m) e h = absurd (h m refl)
resolve_parts-leaf name claims v e h = rw (e, resolve_parts)

At-resolve_parts :
    {claims : Claims} {path : List String} {v : Value}
    → At claims path v
    → resolve_parts path claims ≡ some v
unfolding resolve_parts
At-resolve_parts (leaf {claims} {name} {v} e h) = resolve_parts-leaf name claims v e h
At-resolve_parts (below e d) = rw (e, resolve_parts) (At-resolve_parts d)

resolve_parts-At :
    (path : List String) (claims : Claims) (v : Value)
    → resolve_parts path claims ≡ some v
    → At claims path v
unfolding resolve_parts
resolve_parts-At [] claims v h = cc
resolve_parts-At (p ∷ []) claims v h = at_end (get p claims) refl
  where
    at_end : (o : Option Value) → get p claims ≡ o → At claims (p ∷ []) v
    at_end none e = let h' : none ≡ some v = rw (e, resolve_parts) at h in cc
    at_end (some (obj m)) e = let h' : none ≡ some v = rw (e, resolve_parts) at h in cc
    at_end (some w) e =
        let h' : some w ≡ some v = rw (e, resolve_parts) at h in leaf (cc) (λ m q. cc)
resolve_parts-At (p ∷ q ∷ r) claims v h = go (get p claims) refl (resolve_parts-At (q ∷ r))
  where
    go :
        (o : Option Value)
        → get p claims ≡ o
        → ((m : Claims) (w : Value) → resolve_parts (q ∷ r) m ≡ some w → At m (q ∷ r) w)
        → At claims (p ∷ q ∷ r) v
    go (some (obj m)) e ih = below e (ih m v (rw (e, resolve_parts) at h))
    go o e ih = let h' : none ≡ some v = rw (e, resolve_parts) at h in cc

-- Resolving the address of a path of names returns, it does not panic; and it finds a value exactly
-- when the path leads to it through nested claims.
pub resolve-address_iff :
    (p : List Char) (ps : List (List Char)) (claims : Claims) (v : Value)
    → (found : Option Value) × (resolve (string_of (address p ps)) claims ≡ ret found)
      × ((found ≡ some v) ↔ At claims (map string_of (p ∷ ps)) v)
unfolding resolve
resolve-address_iff p ps claims v = (
  resolve_parts (map string_of (p ∷ ps)) claims,
  rw (split-address, resolve),
  (λ h. resolve_parts-At (map string_of (p ∷ ps)) claims v h, λ d. At-resolve_parts d),
)
