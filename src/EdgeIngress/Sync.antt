-- ===== src/EdgeIngress/Sync.antt =====
-- pkg/edgeingress/watcher.go: the synchronisation of the edge ingresses.
pub mod Ids
pub mod Deletes
pub mod Lost
pub mod Progress
use hub_agent_kubernetes.Prelude.{
  String, Bool, true, false, not, Option, none, some, List, [], ◌∷◌, ◌++◌, ◌&&◌, ◌==◌, string_eq,
  GoMap, insert, delete, lookup, if◌then◌else◌, map,
}
use hub_agent_kubernetes.Strings.{runes, string_of}
use hub_agent_kubernetes.EdgeIngress.{
  Bytes, Certificate, CustomDomain, EdgeIngress, Resource, Connection, down, up, Env, resource,
  verified_domains, Ingress, IngressTls, IngressRule, Middleware, WatcherConfig, managed_by,
  secret_name, catch_all_name,
}
use hub_agent_kubernetes.EdgeIngress.Watcher.{
  list_edge_ingresses, wildcard_certificate, create_ingress, create_middleware, Call, Creation,
  created, already_exists, refused, delete_edge_ingress, M, ◌>>=◌, give, ask, and_then, bytes_beq,
  upsert_secret, setup_certificates, upsert_ingress,
}
use hub_agent_kubernetes.EdgeIngress.Watcher

-- The informer's objects are shared: the code changes them in place, before the API server knows.
abbrev pub Cache : Type 0
Cache = List Resource

abbrev pub id_text : String → String → String
id_text name namespace = string_of (runes name ++ runes "@" ++ runes namespace)

abbrev pub id_of : Resource → String
id_of e = id_text e.name e.namespace

-- `clusterEdgeIngressByID`
unfoldable pub index : Cache → GoMap String Resource → GoMap String Resource
index [] by_id = by_id
index (e ∷ cache) by_id = index cache (insert (id_of e) e by_id)

-- The object of the cache with the ID is changed.
abbrev pub put_back : String → Resource → Cache → Cache
put_back id e cache = map (λ c. if id_of c == id then e else c) cache

abbrev pub as_up : Resource → Resource
as_up e = let s = e.status in record e { status = record s { connection = up } }

abbrev pub is_some : Option Resource → Bool
is_some none = false
is_some (some e) = true

-- `setEdgeIngressConnectionStatusUP`: the object after it, and whether the update succeeded.
unfoldable pub set_edge_ingress_connection_status_up : Resource → M (Resource × Bool)
set_edge_ingress_connection_status_up e =
    ask (Watcher.update_edge_ingress (as_up e)) >>= λ answer. give (as_up e, is_some answer)

-- `syncChildAndUpdateConnectionStatus`: the object after it, and whether it succeeded.
unfoldable pub sync_child_and_update_connection_status :
    WatcherConfig → Certificate → Resource → List CustomDomain → M (Resource × Bool)
unfolding verified_domains set_edge_ingress_connection_status_up
sync_child_and_update_connection_status config certificate e custom_domains =
    let names = verified_domains custom_domains in
    setup_certificates e certificate names >>= λ set.
    if not set
    then give (e, false)
    else (upsert_ingress config e names >>= λ upserted.
        if not upserted then give (e, false) else set_edge_ingress_connection_status_up e)

-- `createEdgeIngress`
unfoldable pub create_edge_ingress : WatcherConfig → Env → Certificate → EdgeIngress → M Bool
unfolding resource
create_edge_ingress config env certificate p = elim (resource env p) [
  | none ↦ give false
  | some obj ↦ ask (Watcher.create_edge_ingress obj) >>= λ answer. elim answer [
    | none ↦ give false
    | some obj' ↦
        sync_child_and_update_connection_status config certificate obj' p.custom_domains >>= λ r.
        give r.1
  ]
]

-- `updateEdgeIngress`: the old object after it, and whether it succeeded.
unfoldable pub update_edge_ingress :
    WatcherConfig → Env → Certificate → Resource → EdgeIngress → M (Resource × Bool)
unfolding resource
update_edge_ingress config env certificate old p = elim (resource env p) [
  | none ↦ give (old, false)
  | some obj ↦
      let old' = record old { spec = obj.spec; status = obj.status } in
      ask (Watcher.update_edge_ingress old') >>= λ answer. elim answer [
        | none ↦ give (old', false)
        | some obj' ↦
            sync_child_and_update_connection_status config certificate obj' p.custom_domains
            >>= λ r. give (old', r.1)
      ]
]

abbrev pub is_up : Connection → Bool
is_up up = true
is_up down = false

-- The body of the loop for an edge ingress that the cluster has: its object after it.
unfoldable pub sync_found : WatcherConfig → Env → Certificate → Resource → EdgeIngress → M Resource
unfolding update_edge_ingress
sync_found config env certificate e p =
    if p.version == e.status.version
    then if is_up e.status.connection
      then give e
      else (sync_child_and_update_connection_status config certificate e p.custom_domains >>= λ r.
          give r.0)
    else (update_edge_ingress config env certificate e p >>= λ r. give r.0)

-- The body of the loop, by what the map has for the ID: the cache after it.
unfoldable pub sync_one :
    WatcherConfig → Env → Certificate → EdgeIngress → Option Resource → Cache → M Cache
unfolding create_edge_ingress sync_found
sync_one config env certificate p none cache =
    create_edge_ingress config env certificate p >>= λ done. give cache
sync_one config env certificate p (some e) cache = sync_found config env certificate e p >>= λ e'.
    give (put_back (id_text p.name p.namespace) e' cache)

-- The loop over the edge ingresses of the platform: the map and the cache after it.
unfoldable pub sync_each :
    WatcherConfig
    → Env
    → Certificate
    → List EdgeIngress
    → GoMap String Resource
    → Cache
    → M (GoMap String Resource × Cache)
sync_each config env certificate [] by_id cache = give (by_id, cache)
sync_each config env certificate (p ∷ ps) by_id cache =
    let id = id_text p.name p.namespace in
    sync_one config env certificate p (lookup id by_id) cache >>= λ cache'.
    sync_each config env certificate ps (delete id by_id) cache'

-- `cleanEdgeIngresses`, which goes on where a deletion fails.
unfoldable pub clean_edge_ingresses : GoMap String Resource → M (Unit {0})
clean_edge_ingresses [] = give tt
clean_edge_ingresses ((id, e) ∷ by_id) =
    ask (delete_edge_ingress e.name e.namespace) >>= λ done. clean_edge_ingresses by_id

-- `syncEdgeIngresses`: the cache after it. The lister reads the cache, which gives no error. `order`
-- puts the entries that are left in the order in which `range` meets them, which Go leaves open.
unfoldable pub sync_edge_ingresses :
    WatcherConfig
    → Env
    → Certificate
    → (GoMap String Resource → GoMap String Resource)
    → Cache
    → M Cache
unfolding index
sync_edge_ingresses config env certificate order cache = ask list_edge_ingresses >>= λ answer.
    elim answer [
      | none ↦ give cache
      | some ps ↦ sync_each config env certificate ps (index cache []) cache >>= λ r.
          clean_edge_ingresses (order r.0) >>= λ done. give r.1
    ]
