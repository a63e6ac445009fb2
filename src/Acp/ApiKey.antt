-- ===== src/Acp/ApiKey.antt =====
-- pkg/acp/apikey/api_key.go: the keys of a policy, and the requests that carry one.
pub mod Keys
pub mod Serving
use hub_agent_kubernetes.Prelude.{
  ℕ, Char, String, Bool, true, false, ◌&&◌, ◌||◌, not, Option, none, some, List, [], ◌∷◌, ◌++◌, Eq,
  ◌==◌, string_eq, if◌then◌else◌, GoMap, lookup, insert, any, map,
}
use hub_agent_kubernetes.Strings
use hub_agent_kubernetes.Strings.{runes, string_of}
use hub_agent_kubernetes.Acp.Responses.{Response, rejected, added, accepts}
use hub_agent_kubernetes.Acp.Token.{Source, Request, Urls, extract}

abbrev pub Metadata : Type 0
Metadata = GoMap String String

pub record Key : Type 0 where
  pub id : String
  pub metadata : Metadata
  pub value : String

pub record Config : Type 0 where
  pub key_source : Source
  pub keys : List Key
  pub forward_headers : GoMap String String

pub record Handler : Type 0 where
  pub name : String
  pub key_src : Source
  pub keys : GoMap String Key
  pub fwd_headers : GoMap String String

-- the copy of the metadata, with the ID under "_id"
unfoldable pub with_id : Key → Key
with_id k = record k { metadata = insert "_id" k.id k.metadata }

-- The loop of `NewHandler`; `none` is an error.
unfoldable pub index_keys :
    List Key → List String → List String → GoMap String Key → Option (GoMap String Key)
unfolding with_id
index_keys [] uniq_ids uniq_values keys = some keys
index_keys (k ∷ rest) uniq_ids uniq_values keys =
    let indexed =
      index_keys rest (k.id ∷ uniq_ids) (k.value ∷ uniq_values) (insert k.value (with_id k) keys) in
    if k.id == "" || k.value == ""
    then none
    else if any (λ i. i == k.id) uniq_ids
    then none
    else if any (λ v. v == k.value) uniq_values
    then none
    else indexed

-- `NewHandler`
unfoldable pub new_handler : Config → String → Option Handler
unfolding index_keys
new_handler cfg name =
    let src = cfg.key_source in
    if src.header == "" && src.query == "" && src.cookie == "" then none else elim cfg.keys [
      | [] ↦ none
      | k ∷ rest ↦ elim (index_keys (k ∷ rest) [] [] []) [
        | none ↦ none
        | some keys ↦
            some (record {
              name = name;
              key_src = src;
              keys = keys;
              fwd_headers = cfg.forward_headers;
            })
      ]
    ]

-- `search`
unfoldable pub search : String → List String → Bool
search needle [] = false
search needle (s ∷ stack) = s == needle || search needle stack

abbrev pub split_comma : String → List String
split_comma s = map string_of (Strings.split (runes s) (runes ","))

-- The loop over the groups of the query.
unfoldable pub shares_group : List String → List String → Bool
unfolding search
shares_group [] user_groups = false
shares_group (group ∷ groups) user_groups =
    search group user_groups || shares_group groups user_groups

unfoldable pub forward : Metadata → GoMap String String → List (String × String)
forward metadata [] = []
forward metadata ((name, meta) ∷ fwd_headers) =
    let rest = forward metadata fwd_headers in
    elim (lookup meta metadata) [ none ↦ rest | some v ↦ (name, v) ∷ rest ]

-- The part of `ServeHTTP` that checks the groups of the query: `none` lets the request through, and
-- `some` is the status that rejects it.
unfoldable pub check_groups : Urls → Request → Key → Option ℕ
unfolding shares_group Strings.split
check_groups urls req k =
    if req.query_get "groups" == ""
    then none
    else elim (urls.query_unescape (req.query_get "groups")) [
      | none ↦ some 500
      | some groups ↦ elim (lookup "groups" k.metadata) [
        | none ↦ some 401
        | some user_groups ↦
            if not (shares_group (split_comma groups) (split_comma user_groups))
            then some 401
            else none
      ]
    ]

-- `ServeHTTP`. `shake256` is the hexadecimal SHA-3 hash of 64 bytes.
unfoldable pub serve_http : Urls → (String → String) → Handler → Request → Response
unfolding extract check_groups forward
serve_http urls shake256 h req = elim (extract urls req h.key_src) [
  | none ↦ rejected 401
  | some api_key ↦ elim (lookup (shake256 api_key) h.keys) [
    | none ↦ rejected 401
    | some k ↦ elim (check_groups urls req k) [
      | some status ↦ rejected status
      | none ↦ record { status = 200; headers = forward k.metadata h.fwd_headers }
    ]
  ]
]
