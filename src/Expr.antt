-- ===== src/Expr.antt =====
-- pkg/acp/expr: the claims of a token, the names that address them, and the predicates over them.
pub mod Split
pub mod Resolve
pub mod Predicates
pub mod Pluck
mod Tests
use hub_agent_kubernetes.Prelude.{
  ℕ, zero, suc, ◌+◌, Char, code, String, Bool, true, false, Option, none, some, List, [], ◌∷◌, ◌++◌,
  nat_beq, any, if◌then◌else◌, not, ◌&&◌, ◌||◌, ◌==◌, string_eq, nat_eq, Run, ret, panic, ◌>>=◌,
  GoMap, insert, ◌≡◌, refl,
}
use hub_agent_kubernetes.Strings.{
  runes, string_of, byte_len, has_prefix, contains, split as split_text, trim_space,
}

-- What `encoding/json` puts behind an `interface{}`. `num` is a `json.Number`, with its literal;
-- `other` is any dynamic type that no case of the code names, such as float64.
mutual
  pub data Value : Type 0 where
    null : Value
    str : String → Value
    num : String → Value
    bool : Bool → Value
    arr : Items → Value
    obj : Claims → Value
    other : Value

  pub data Items : Type 0 where
    nil : Items
    cons : Value → Items → Items

  -- `map[string]interface{}`
  pub data Claims : Type 0 where
    end : Claims
    field : String → Value → Claims → Claims

-- `v[part]`
unfoldable pub get : String → Claims → Option Value
get k end = none
get k (field j v m) = if j == k then some v else get k m

abbrev pub backslash : Char
backslash = "\\"

abbrev pub dot : Char
dot = "."

-- The loop of `split` at index `idx`, over the runes that are left. `size` is `len(s)`, in bytes,
-- as the code compares it with an index of runes; `panic` is the index out of range.
unfoldable pub split_from : Char → ℕ → ℕ → List String → List Char → List Char → Run (List String)
split_from sep size idx parts current [] = ret (parts ++ string_of current ∷ [])
split_from sep size idx parts current (r ∷ []) =
    if nat_beq (code r) b'\\'
    then if nat_beq (idx + 1) size then ret (parts ++ string_of (current ++ r ∷ []) ∷ []) else panic
    else if nat_beq (code r) (code sep)
    then ret ((parts ++ string_of current ∷ []) ++ "" ∷ [])
    else ret (parts ++ string_of (current ++ r ∷ []) ∷ [])
split_from sep size idx parts current (r ∷ s ∷ rest) =
    let last = split_from sep size (idx + 1) parts (current ++ r ∷ []) (s ∷ rest) in
    let bare = split_from sep size (idx + 2) parts (current ++ s ∷ []) rest in
    let both = split_from sep size (idx + 2) parts ((current ++ r ∷ []) ++ s ∷ []) rest in
    let closed = split_from sep size (idx + 1) (parts ++ string_of current ∷ []) [] (s ∷ rest) in
    if nat_beq (code r) b'\\'
    then if nat_beq (idx + 1) size
      then last
      else if not (nat_beq (code s) b'.') && not (nat_beq (code s) b'\\')
      then both
      else bare
    else if nat_beq (code r) (code sep)
    then closed
    else last

unfoldable pub split : String → Char → Run (List String)
unfolding split_from
split s sep = split_from sep (byte_len (runes s)) 0 [] [] (runes s)

-- The loop of `resolve` over the parts; `none` is `nil, false`.
unfoldable pub resolve_parts : List String → Claims → Option Value
unfolding get
resolve_parts [] v = none
resolve_parts (part ∷ []) v = elim (get part v) [
  | none ↦ none
  | some (obj m) ↦ none
  | some val ↦ some val
]
resolve_parts (part ∷ next ∷ more) v = elim (get part v) [
  | some (obj m) ↦ resolve_parts (next ∷ more) m
  | _ ↦ none
]

unfoldable pub resolve : String → Claims → Run (Option Value)
unfolding split resolve_parts
resolve claim_name claims = do parts ← split claim_name dot; ret (resolve_parts parts claims)

-- `strconv.FormatBool`
abbrev pub format_bool : Bool → String
format_bool true = "true"
format_bool false = "false"
