-- ===== src/EdgeIngress/Certificates.antt =====
-- pkg/edgeingress/watcher.go: the synchronisation of the wildcard certificate, and the catch-all ingress.
pub mod Missed
use hub_agent_kubernetes.Prelude.{
  String, Bool, true, false, not, Option, none, some, List, [], ◌∷◌, ◌++◌, ◌&&◌, ◌==◌, string_eq,
  GoMap, insert, delete, lookup, if◌then◌else◌, map,
}
use hub_agent_kubernetes.Strings.{runes, string_of}
use hub_agent_kubernetes.EdgeIngress.{
  Bytes, Certificate, CustomDomain, EdgeIngress, Resource, Connection, down, up, Env, resource,
  verified_domains, Ingress, IngressTls, IngressRule, Middleware, WatcherConfig, managed_by,
  secret_name, catch_all_name,
}
use hub_agent_kubernetes.EdgeIngress.Watcher.{
  list_edge_ingresses, wildcard_certificate, create_ingress, create_middleware, Call, Creation,
  created, already_exists, refused, delete_edge_ingress, M, ◌>>=◌, give, ask, and_then, bytes_beq,
  upsert_secret, setup_certificates, upsert_ingress,
}
use hub_agent_kubernetes.EdgeIngress.Watcher
use hub_agent_kubernetes.EdgeIngress.Sync.{Cache}

abbrev pub stops : Creation → Bool
stops created = false
stops already_exists = false
stops refused = true

abbrev pub catch_all_middleware : String → WatcherConfig → String
catch_all_middleware name config =
    string_of
      (runes config.agent_namespace ++ runes name ++ runes "-prefix-catch-all@kubernetescrd")

-- The ingress of `createIngressCatchAll`.
unfoldable pub catch_all : WatcherConfig → Ingress
catch_all config = record {
  name = catch_all_name;
  namespace = config.agent_namespace;
  annotations =
      ("traefik.ingress.kubernetes.io/router.tls", "true")
      ∷ ("traefik.ingress.kubernetes.io/router.entrypoints", config.traefik_tunnel_entry_point)
      ∷ (
        "traefik.ingress.kubernetes.io/router.middlewares",
        string_of (
            runes (catch_all_middleware "-strip" config)
            ++ runes ","
            ++ runes (catch_all_middleware "-add" config)),
      )
      ∷ ("traefik.ingress.kubernetes.io/router.priority", "1")
      ∷ [];
  labels = managed_by;
  owner_references = [];
  class_name = config.ingress_class_name;
  tls = record { secret_name = secret_name; hosts = [] } ∷ [];
  rules = record { host = ""; service = catch_all_name; port = 443 } ∷ [];
}

abbrev pub strip_prefix : WatcherConfig → Middleware
strip_prefix config = record {
  name = "strip-prefix-catch-all";
  namespace = config.agent_namespace;
  strip_prefix_regex = ".*" ∷ [];
  add_prefix = "";
}

abbrev pub in_progress : WatcherConfig → Middleware
in_progress config = record {
  name = "add-prefix-catch-all";
  namespace = config.agent_namespace;
  strip_prefix_regex = [];
  add_prefix = "/edge-ingresses/in-progress";
}

-- `createIngressCatchAll`; `has_traefik` is whether the client set of Traefik is there.
unfoldable pub create_ingress_catch_all : WatcherConfig → Bool → M Bool
unfolding catch_all
create_ingress_catch_all config false = give true
create_ingress_catch_all config true = ask (create_middleware (strip_prefix config)) >>= λ first.
    if stops first
    then give false
    else (ask (create_middleware (in_progress config)) >>= λ second.
        if stops second
        then give false
        else (ask (create_ingress (catch_all config)) >>= λ third. give (not (stops third))))

-- The loop of `syncCertificates`, which goes on where one fails.
unfoldable pub setup_each : Certificate → Cache → M (Unit {0})
setup_each certificate [] = give tt
setup_each certificate (e ∷ cache) =
    setup_certificates e certificate e.status.custom_domains >>= λ done.
    setup_each certificate cache

abbrev pub same_certificate : Certificate → Certificate → Bool
same_certificate a b =
    bytes_beq a.certificate b.certificate && bytes_beq a.private_key b.private_key

-- `syncCertificates`: the certificate that the watcher keeps after it, and whether it succeeded.
unfoldable pub sync_certificates :
    WatcherConfig → Bool → Certificate → Cache → M (Certificate × Bool)
unfolding create_ingress_catch_all
sync_certificates config has_traefik wild_card_cert cache = ask wildcard_certificate >>= λ answer.
    elim answer [
      | none ↦ give (wild_card_cert, false)
      | some certificate ↦
          if same_certificate certificate wild_card_cert
          then give (wild_card_cert, true)
          else (upsert_secret certificate secret_name config.agent_namespace none >>= λ upserted.
              if not upserted
              then give (wild_card_cert, false)
              else (setup_each certificate cache >>= λ done.
                  create_ingress_catch_all config has_traefik >>= λ caught.
                  give (certificate, caught)))
    ]
