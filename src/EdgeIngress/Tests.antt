-- ===== src/EdgeIngress/Tests.antt =====
-- Runs of pkg/edgeingress with API servers made for it.
use mathlib.Core.List.Permᴰ
use mathlib.Core.List.{Permᴰ}
use hub_agent_kubernetes.Prelude.{
  String, true, false, none, some, [], ◌∷◌, string_eq, ◌≡◌, ◌⊎◌, refl,
}
use hub_agent_kubernetes.EdgeIngress.{
  Certificate, EdgeIngress, Resource, down, Env, WatcherConfig, secret_name, verified_domains,
}
use hub_agent_kubernetes.EdgeIngress.Watcher
use hub_agent_kubernetes.EdgeIngress.Watcher.{
  Call, Answer, Oracle, list_edge_ingresses, wildcard_certificate, certificate_by_domains,
  get_secret, create_secret, update_secret, get_ingress, create_ingress, update_ingress,
  create_middleware, delete_edge_ingress, Looked, there, not_found, failed, created, refused,
  upsert_secret, setup_certificates, upsert_ingress,
}
use hub_agent_kubernetes.EdgeIngress.Sync.{Cache, as_up, sync_edge_ingresses, sync_found, sync_one}
use hub_agent_kubernetes.EdgeIngress.Certificates.{sync_certificates}
use hub_agent_kubernetes.EdgeIngress.Sync.Deletes.{deletes, sync_edge_ingresses-deletes}
use hub_agent_kubernetes.EdgeIngress.Certificates.Missed.{sync_certificates-missed}
use hub_agent_kubernetes.EdgeIngress.Sync.Lost.{sync_found-lost}
use hub_agent_kubernetes.EdgeIngress.Sync.Progress.{IsHelpful, IsServed, ComesUp, sync_one-ComesUp}

abbrev config : WatcherConfig
config = record {
  ingress_class_name = "hub";
  agent_namespace = "hub";
  traefik_tunnel_entry_point = "tunnel";
}

abbrev env : Env
env = record { now = 4; hash = λ spec. some "h" }

abbrev old_cert : Certificate
old_cert = record { certificate = 1 ∷ []; private_key = 2 ∷ [] }

abbrev new_cert : Certificate
new_cert = record { certificate = 3 ∷ []; private_key = 4 ∷ [] }

abbrev listed : EdgeIngress
listed = record {
  workspace_id = "w";
  cluster_id = "c";
  namespace = "default";
  name = "kept";
  domain = "kept.example";
  custom_domains = record { name = "own.example"; verified = true } ∷ [];
  version = "v1";
  service = record { name = "whoami"; port = 80 };
  acp = none;
  created_at = 1;
  updated_at = 2;
}

abbrev in_cluster : String → Resource
in_cluster name = record {
  name = name;
  namespace = "default";
  uid = "u";
  spec = record {
    service = record { name = "whoami"; port = 80 };
    acp = none;
    custom_domains = [];
  };
  status = record {
    version = "v1";
    synced_at = 1;
    domain = "kept.example";
    custom_domains = [];
    urls = "";
    connection = down;
    spec_hash = "h";
  };
}

-- A platform with one edge ingress, and an API server that fails every call.
abbrev failing : Oracle
failing calls list_edge_ingresses = some (listed ∷ [])
failing calls wildcard_certificate = none
failing calls (certificate_by_domains domains) = none
failing calls (get_secret name namespace) = failed
failing calls (create_secret s) = false
failing calls (update_secret s) = false
failing calls (get_ingress name namespace) = failed
failing calls (create_ingress i) = refused
failing calls (update_ingress i) = false
failing calls (create_middleware m) = refused
failing calls (Watcher.create_edge_ingress e) = none
failing calls (Watcher.update_edge_ingress e) = none
failing calls (delete_edge_ingress name namespace) = false

abbrev cluster : Cache
cluster = in_cluster "kept" ∷ in_cluster "gone" ∷ []

sync_edge_ingresses-deletes_example :
    Permᴰ
      (deletes (sync_edge_ingresses config env old_cert (λ m. m) cluster failing []).1)
      (("gone", "default") ∷ [])
sync_edge_ingresses-deletes_example =
    sync_edge_ingresses-deletes config env old_cert (λ m. m) cluster failing [] (listed ∷ [])
      Permᴰ.refl ((refl, tt), (tt, tt)) (refl, (refl, tt)) (refl, tt) refl

-- A server that stores secrets, and refuses middlewares and updates of edge ingresses.
abbrev half_failing : Oracle
half_failing calls list_edge_ingresses = some (listed ∷ [])
half_failing calls wildcard_certificate = some new_cert
half_failing calls (certificate_by_domains domains) = some new_cert
half_failing calls (get_secret name namespace) = not_found
half_failing calls (create_secret s) = true
half_failing calls (update_secret s) = true
half_failing calls (get_ingress name namespace) = not_found
half_failing calls (create_ingress i) = created
half_failing calls (update_ingress i) = true
half_failing calls (create_middleware m) = refused
half_failing calls (Watcher.create_edge_ingress e) = none
half_failing calls (Watcher.update_edge_ingress e) = none
half_failing calls (delete_edge_ingress name namespace) = true

certificate_failed :
    (sync_certificates config true old_cert [] half_failing []).0 ≡ (new_cert, false)
unfolding sync_certificates upsert_secret
certificate_failed = refl

secret_stored :
    (upsert_secret new_cert secret_name "hub" none half_failing (wildcard_certificate ∷ [])).0
    ≡ true
unfolding upsert_secret
secret_stored = refl

sync_certificates-missed_example :
    sync_certificates config true
      (sync_certificates config true old_cert [] half_failing []).0.0
      []
      half_failing
      []
    ≡ ((new_cert, true), wildcard_certificate ∷ [])
sync_certificates-missed_example =
    sync_certificates-missed config true old_cert new_cert [] half_failing [] refl refl
      secret_stored [] [] refl

kept_certified :
    (setup_certificates
      (in_cluster "kept")
      old_cert
      (verified_domains listed.custom_domains)
      half_failing
      []).0
    ≡ true
unfolding setup_certificates upsert_secret verified_domains
kept_certified = refl

kept_upserted :
    (upsert_ingress config
      (in_cluster "kept")
      (verified_domains listed.custom_domains)
      half_failing
      (setup_certificates
        (in_cluster "kept")
        old_cert
        (verified_domains listed.custom_domains)
        half_failing
        []).1).0
    ≡ true
unfolding upsert_ingress
kept_upserted = refl

sync_found-lost_example :
    ((sync_found config env old_cert (in_cluster "kept") listed half_failing []).0
      ≡ as_up (in_cluster "kept"))
    × (sync_found config env old_cert
          (sync_found config env old_cert (in_cluster "kept") listed half_failing []).0
          listed
          half_failing
          []
        ≡ (as_up (in_cluster "kept"), []))
sync_found-lost_example =
    sync_found-lost config env old_cert (in_cluster "kept") listed half_failing [] refl refl
      kept_certified kept_upserted listed half_failing [] refl

-- A server on which every call succeeds.
abbrev helpful : Oracle
helpful calls list_edge_ingresses = some (listed ∷ [])
helpful calls wildcard_certificate = some new_cert
helpful calls (certificate_by_domains domains) = some new_cert
helpful calls (get_secret name namespace) = not_found
helpful calls (create_secret s) = true
helpful calls (update_secret s) = true
helpful calls (get_ingress name namespace) = not_found
helpful calls (create_ingress i) = created
helpful calls (update_ingress i) = true
helpful calls (create_middleware m) = created
helpful calls (Watcher.create_edge_ingress e) = some (record e { uid = "u" })
helpful calls (Watcher.update_edge_ingress e) = some e
helpful calls (delete_edge_ingress name namespace) = true

helpful-IsHelpful : IsHelpful helpful env
helpful-IsHelpful = record {
  secret_looked = λ calls n ns e. cc;
  secret_created = λ calls s. refl;
  secret_updated = λ calls s. refl;
  certified = λ calls ds. (new_cert, refl);
  ingress_looked = λ calls n ns e. cc;
  ingress_created = λ calls i. refl;
  ingress_updated = λ calls i. refl;
  made = λ calls r. (record r { uid = "u" }, refl, refl, refl, refl);
  changed = λ calls r. (r, refl, refl, refl, refl);
  hashed = λ s. ("h", refl);
}

sync_one-ComesUp_example :
    IsServed listed none ⊎ ComesUp listed (sync_one config env new_cert listed none [] helpful []).1
sync_one-ComesUp_example =
    sync_one-ComesUp helpful env helpful-IsHelpful config new_cert listed none [] [] (λ e q. cc)
