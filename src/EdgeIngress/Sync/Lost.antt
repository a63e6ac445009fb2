-- ===== src/EdgeIngress/Sync/Lost.antt =====
-- What a failed call of pkg/edgeingress/watcher.go leaves undone for good: the status.
use hub_agent_kubernetes.Prelude.{true, false, List, ◌==◌, string_eq, ==_refl, ◌≡◌, ap, ◌∙◌}
use hub_agent_kubernetes.EdgeIngress.{
  Certificate, EdgeIngress, Resource, down, Env, WatcherConfig, verified_domains,
}
use hub_agent_kubernetes.EdgeIngress.Watcher.{Call, Oracle, setup_certificates, upsert_ingress}
use hub_agent_kubernetes.EdgeIngress.Sync.{
  as_up, is_up, set_edge_ingress_connection_status_up, sync_child_and_update_connection_status,
  sync_found,
}

-- The calls for the certificates and the ingress succeed.
module _ (config : WatcherConfig) (env : Env) (cert : Certificate) (e : Resource) (p : EdgeIngress)
    (o : Oracle) (calls : List Call) (same : p.version ≡ e.status.version)
    (is_down : e.status.connection ≡ down)
    (certified : (setup_certificates e cert (verified_domains p.custom_domains) o calls).0 ≡ true)
    (upserted : (upsert_ingress config e
        (verified_domains p.custom_domains)
        o
        (setup_certificates e cert (verified_domains p.custom_domains) o calls).1).0
      ≡ true) where
  marked : (sync_found config env cert e p o calls).0 ≡ as_up e
  unfolding sync_found sync_child_and_update_connection_status set_edge_ingress_connection_status_up
  marked =
      let current : (p.version == e.status.version) ≡ true = rw same (==_refl e.status.version) in
      let waits : is_up e.status.connection ≡ false = ap is_up is_down in
      rw (current, waits, certified, upserted, sync_found)

  -- An edge ingress that is down, of the platform's version, whose certificates and ingress are set
  -- up, is up in the cache, whether or not its update succeeded; and each later synchronisation of
  -- this object of the cache with an edge ingress of the same version on the platform makes no call
  -- for it.
  pub sync_found-lost :
      (p' : EdgeIngress) (o' : Oracle) (calls' : List Call)
      → p'.version ≡ e.status.version
      → ((sync_found config env cert e p o calls).0 ≡ as_up e)
        × (sync_found config env cert (sync_found config env cert e p o calls).0 p' o' calls'
            ≡ (as_up e, calls'))
  unfolding sync_found
  sync_found-lost p' o' calls' kept =
      let current : (p'.version == e.status.version) ≡ true = rw kept (==_refl e.status.version) in
      (
        marked,
        ap (λ x. sync_found config env cert x p' o' calls') marked ∙ rw (current, sync_found),
      )
