-- ===== src/Acp/ApiKey/Keys.antt =====
-- Which keys `NewHandler` of pkg/acp/apikey/api_key.go accepts, and how it stores them.
use hub_agent_kubernetes.Prelude.{
  String, true, ◌&&◌, Option, none, some, List, [], ◌∷◌, ◌≡◌, refl, ap, sym, ◌∙◌, ◌==◌, string_eq,
  if◌then◌else◌, GoMap, lookup, insert, any, arith, inl, inr, Bool-cases, Option-cases, eq_of_==,
  lookup-insert, default, All, ◌≢◌, ne_of_==,
}
use hub_agent_kubernetes.Acp.ApiKey.{Key, Config, Handler, with_id, index_keys, new_handler}

-- The key of a value among those of a configuration.
abbrev pub key_of : String → List Key → Option Key
key_of value [] = none
key_of value (k ∷ keys) = if k.value == value then some (with_id k) else key_of value keys

abbrev or_else : Option Key → Option Key → Option Key
or_else none d = d
or_else (some k) d = some k

key_of-none :
    (keys : List Key) (ids values : List String) (value : String) (m out : GoMap String Key)
    → any (λ v. v == value) values ≡ true
    → index_keys keys ids values m ≡ some out
    → key_of value keys ≡ none
unfolding index_keys
key_of-none [] ids values value m out h e = refl
key_of-none (k ∷ keys) ids values value m out h e = elim (Bool-cases (k.value == value)) [
  | inl same ↦
      let p = eq_of_== k.value value same in
      let seen : any (λ v. v == k.value) values ≡ true = rw p h in absurd (ground (arith, seen, e))
  | inr other ↦
      let rest : index_keys keys (k.id ∷ ids) (k.value ∷ values) (insert k.value (with_id k) m)
          ≡ some out =
        ground (arith, e) in
      let seen : any (λ v. v == value) (k.value ∷ values) ≡ true = ground (arith, h) in
      rw other (
        key_of-none keys (k.id ∷ ids) (k.value ∷ values) value (insert k.value (with_id k) m) out
          seen rest)
]

index_keys-key_of :
    (keys : List Key) (ids values : List String) (m out : GoMap String Key) (value : String)
    → index_keys keys ids values m ≡ some out
    → lookup value out ≡ or_else (key_of value keys) (lookup value m)
unfolding index_keys
index_keys-key_of [] ids values m out value e = ap (lookup value) (cc (sym e))
index_keys-key_of (k ∷ keys) ids values m out value e =
    let rest : index_keys keys (k.id ∷ ids) (k.value ∷ values) (insert k.value (with_id k) m)
        ≡ some out =
      ground (arith, e) in
    let ih =
      index_keys-key_of keys (k.id ∷ ids) (k.value ∷ values) (insert k.value (with_id k) m) out
        value rest in
    let look = lookup-insert k.value value (with_id k) m in
    elim (Bool-cases (k.value == value)) [
      | inl same ↦
          let seen : any (λ v. v == value) (k.value ∷ values) ≡ true = ground (arith, same) in
          let gone =
            key_of-none keys (k.id ∷ ids) (k.value ∷ values) value (insert k.value (with_id k) m)
              out seen rest in
          rw same (
            ih
            ∙ ap (λ o. or_else o (lookup value (insert k.value (with_id k) m))) gone
            ∙ rw same at look)
      | inr other ↦ rw other (ih ∙ ap (or_else (key_of value keys)) (rw other at look))
    ]

abbrev keys_of : Option Handler → Option (GoMap String Key)
keys_of none = none
keys_of (some h) = some h.keys

or_else-lookup : (o : Option Key) (value : String) → or_else o (lookup value []) ≡ o
unfolding lookup
or_else-lookup none value = refl
or_else-lookup (some k) value = refl

abbrev built : Config → String → List Key → Option Handler
built cfg name [] = none
built cfg name (k ∷ rest) = elim (index_keys (k ∷ rest) [] [] []) [
  | none ↦ none
  | some keys ↦ some (record {
    name = name;
    key_src = cfg.key_source;
    keys = keys;
    fwd_headers = cfg.forward_headers;
  })
]

-- The keys of a handler are the index of the configuration's keys.
new_handler-index_keys :
    (cfg : Config) (name : String) (h : Handler)
    → new_handler cfg name ≡ some h
    → index_keys cfg.keys [] [] [] ≡ some h.keys
unfolding new_handler
new_handler-index_keys cfg name h e =
    let src = cfg.key_source in
    elim (Bool-cases (src.header == "" && src.query == "" && src.cookie == "")) [
      | inl unset ↦ absurd (cc (rw (unset, new_handler) at e))
      | inr set ↦ go cfg.keys refl (rw (set, new_handler) at e)
    ]
  where
    go :
        (keys : List Key)
        → cfg.keys ≡ keys
        → built cfg name cfg.keys ≡ some h
        → index_keys cfg.keys [] [] [] ≡ some h.keys
    go [] p e = absurd (cc (rw (p, built) at e))
    go (k ∷ rest) p e = elim (Option-cases (index_keys (k ∷ rest) [] [] [])) [
      | inl bad ↦ absurd (cc (rw (p, built, bad) at e))
      | inr (keys, good) ↦
          let same : keys ≡ h.keys =
            ap (λ (o : Option Handler). default keys (keys_of o)) (rw (p, built, good) at e) in
          rw p (good ∙ ap some same)
    ]

-- The key of a value as a handler stores it.
pub new_handler-key_of :
    (cfg : Config) (name : String) (h : Handler) (value : String)
    → new_handler cfg name ≡ some h
    → lookup value h.keys ≡ key_of value cfg.keys
new_handler-key_of cfg name h value e =
    index_keys-key_of cfg.keys [] [] [] h.keys value (new_handler-index_keys cfg name h e)
    ∙ or_else-lookup (key_of value cfg.keys) value

-- A key of the list has this value, and is the first that has it.
pub data IsFirst : List Key → String → Key → Type 0 where
  here : {k : Key} {keys : List Key} → IsFirst (k ∷ keys) k.value k
  below :
      {k j : Key} {keys : List Key} {value : String}
      → j.value ≢ value
      → IsFirst keys value k
      → IsFirst (j ∷ keys) value k

-- A stored key has the ID and the value of the configured one, the ID under "_id" in its metadata,
-- and the metadata of the configured one under every other name.
pub record IsStored (k stored : Key) : Type 0 where
  pub id : stored.id ≡ k.id
  pub value : stored.value ≡ k.value
  pub metadata :
      (name : String)
      → lookup name stored.metadata ≡ (if "_id" == name then some k.id else lookup name k.metadata)

with_id-IsStored : (k : Key) → IsStored k (with_id k)
unfolding with_id
with_id-IsStored k = record {
  id = refl;
  value = refl;
  metadata = λ name. lookup-insert "_id" name k.id k.metadata;
}

-- The key that a handler finds under a value, against the keys of the configuration.
pub data Known (keys : List Key) (value : String) : Option Key → Type 0 where
  unknown : All (λ k. k.value ≢ value) keys → Known keys value none
  known :
      {k stored : Key} → IsFirst keys value k → IsStored k stored → Known keys value (some stored)

Known-below :
    (k : Key) (keys : List Key) (value : String) (found : Option Key)
    → k.value ≢ value
    → Known keys value found
    → Known (k ∷ keys) value found
Known-below k keys value none other (unknown none') = unknown (other, none')
Known-below k keys value (some s) other (known first is) = known (below other first) is

key_of-Known : (keys : List Key) (value : String) → Known keys value (key_of value keys)
key_of-Known [] value = unknown tt
key_of-Known (k ∷ keys) value = elim (Bool-cases (k.value == value)) [
  | inl same ↦ rw (same, ← eq_of_== k.value value same) (known here (with_id-IsStored k))
  | inr other ↦ rw other (
      Known-below k keys value (key_of value keys) (ne_of_== k.value value other)
        (key_of-Known keys value))
]

-- A handler that `NewHandler` gives finds a key under a value just where the configuration has one
-- with this value: with its ID and value, with the ID under "_id" in its metadata, and with its
-- metadata under every other name.
pub new_handler-Known :
    (cfg : Config) (name : String) (h : Handler) (value : String)
    → new_handler cfg name ≡ some h
    → Known cfg.keys value (lookup value h.keys)
new_handler-Known cfg name h value e =
    rw (new_handler-key_of cfg name h value e) (key_of-Known cfg.keys value)
