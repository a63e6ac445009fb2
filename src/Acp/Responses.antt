-- ===== src/Acp/Responses.antt =====
-- What the handlers of pkg/acp share: responses, and predicates over claims that may be nil.
use hub_agent_kubernetes.Prelude.{
  ℕ, String, true, Option, none, some, List, [], ◌∷◌, ◌++◌, GoMap, map, ret,
}
use hub_agent_kubernetes.Expr.Predicates.{Predicate}

-- A response: its status and the headers added to it, in their order.
pub record Response : Type 0 where
  pub status : ℕ
  pub headers : List (String × String)

abbrev pub rejected : ℕ → Response
rejected status = record { status = status; headers = [] }

-- The headers of plucked claims.
abbrev pub added : GoMap String (List String) → List (String × String)
added [] = []
added ((name, vals) ∷ hdrs) = map (λ v. (name, v)) vals ++ added hdrs

-- `nil` accepts all claims.
abbrev pub accepts : Option Predicate → Predicate
accepts none claims = ret true
accepts (some p) claims = p claims
