-- ===== src/EdgeIngress/Sync/Progress.antt =====
-- Where no call fails, `syncEdgeIngresses` of pkg/edgeingress/watcher.go brings edge ingresses up.
use hub_agent_kubernetes.Prelude.{
  String, true, Option, none, some, List, [], ◌∷◌, ◌==◌, string_eq, eq_of_==, ◌≡◌, ◌≢◌, ◌⊎◌, inl,
  inr, refl, ap, sym, ◌∙◌, default, arith, Bool-cases, Option-cases,
}
use hub_agent_kubernetes.EdgeIngress.{
  Certificate, CustomDomain, EdgeIngress, Resource, Spec, Status, Secret, Ingress, Connection, down,
  up, Env, resource, WatcherConfig, verified_domains, spec_of, secret_name, dashed,
  secret_custom_domains_name,
}
use hub_agent_kubernetes.EdgeIngress.Watcher
use hub_agent_kubernetes.EdgeIngress.Watcher.{
  Call, certificate_by_domains, get_secret, create_secret, update_secret, get_ingress,
  create_ingress, update_ingress, Looked, there, not_found, failed, created, Oracle, M, ◌>>=◌, give,
  ask, renew_secret, upsert_secret, setup_certificates, upsert_ingress,
}
use hub_agent_kubernetes.EdgeIngress.Sync.{
  Cache, as_up, is_up, set_edge_ingress_connection_status_up,
  sync_child_and_update_connection_status, create_edge_ingress, update_edge_ingress, sync_found,
  sync_one,
}

-- The answer is the object that was sent, with an UID perhaps.
abbrev pub IsEcho : Resource → Option Resource → Type 0
IsEcho sent answer =
    (r : Resource) × (answer ≡ some r)
    × (r.name ≡ sent.name)
    × (r.namespace ≡ sent.namespace)
    × (r.status ≡ sent.status)

-- No call fails, and hashes can be computed.
pub record IsHelpful (o : Oracle) (env : Env) : Type 0 where
  pub secret_looked : (calls : List Call) (n ns : String) → o calls (get_secret n ns) ≢ failed
  pub secret_created : (calls : List Call) (s : Secret) → o calls (create_secret s) ≡ true
  pub secret_updated : (calls : List Call) (s : Secret) → o calls (update_secret s) ≡ true
  pub certified :
      (calls : List Call) (ds : List String)
      → (c : Certificate) × (o calls (certificate_by_domains ds) ≡ some c)
  pub ingress_looked : (calls : List Call) (n ns : String) → o calls (get_ingress n ns) ≢ failed
  pub ingress_created : (calls : List Call) (i : Ingress) → o calls (create_ingress i) ≡ created
  pub ingress_updated : (calls : List Call) (i : Ingress) → o calls (update_ingress i) ≡ true
  pub made : (calls : List Call) (r : Resource) → IsEcho r (o calls (Watcher.create_edge_ingress r))
  pub changed :
      (calls : List Call) (r : Resource) → IsEcho r (o calls (Watcher.update_edge_ingress r))
  pub hashed : (s : Spec) → (h : String) × (env.hash s ≡ some h)

module _ (o : Oracle) (env : Env) (help : IsHelpful o env) where
  renew_secret-done :
      (cert : Certificate) (e : Option Resource) (s : Secret) (calls : List Call)
      → (renew_secret cert e s o calls).0 ≡ true
  unfolding renew_secret
  renew_secret-done cert e s calls = grind (arith, help.secret_updated)

  upsert_secret-done :
      (cert : Certificate) (n ns : String) (e : Option Resource) (calls : List Call)
      → (upsert_secret cert n ns e o calls).0 ≡ true
  unfolding upsert_secret
  upsert_secret-done cert n ns e calls =
      grind (arith, help.secret_looked, help.secret_created, renew_secret-done)

  setup_certificates-done :
      (e : Resource) (cert : Certificate) (ds : List String) (calls : List Call)
      → (setup_certificates e cert ds o calls).0 ≡ true
  unfolding setup_certificates
  setup_certificates-done e cert [] calls =
      rw (upsert_secret-done cert secret_name e.namespace (some e) calls, setup_certificates)
  setup_certificates-done e cert (d ∷ ds) calls =
      let after = (upsert_secret cert secret_name e.namespace (some e) o calls).1 in
      let (c, given) = help.certified after (d ∷ ds) in
      rw (upsert_secret-done cert secret_name e.namespace (some e) calls, given, setup_certificates)
        (upsert_secret-done c (dashed secret_custom_domains_name e.name) e.namespace (some e)
          (certificate_by_domains (d ∷ ds) ∷ after))

  upsert_ingress-done :
      (config : WatcherConfig) (e : Resource) (ds : List String) (calls : List Call)
      → (upsert_ingress config e ds o calls).0 ≡ true
  unfolding upsert_ingress
  upsert_ingress-done config e ds calls =
      grind (arith, help.ingress_looked, help.ingress_created, help.ingress_updated)

  -- The last call of the part sets the edge ingress up.
  sync_child-up :
      (config : WatcherConfig) (cert : Certificate) (e : Resource) (ds : List CustomDomain)
      (calls : List Call)
      → (rest : List Call) × (sync_child_and_update_connection_status config cert e ds o calls
          ≡ ((as_up e, true), Watcher.update_edge_ingress (as_up e) ∷ rest))
  unfolding sync_child_and_update_connection_status set_edge_ingress_connection_status_up
  sync_child-up config cert e ds calls =
      let names = verified_domains ds in
      let first = (setup_certificates e cert names o calls).1 in
      let rest = (upsert_ingress config e names o first).1 in
      let (r, echoed, _, _, _) = help.changed rest (as_up e) in
      (
        rest,
        rw (
          setup_certificates-done e cert names calls,
          upsert_ingress-done config e names first,
          echoed,
          sync_child_and_update_connection_status,
        ),
      )

-- The last call sets an edge ingress of this name, namespace and version up.
abbrev pub ComesUp : EdgeIngress → List Call → Type 0
ComesUp p calls =
    (r : Resource) × (rest : List Call) × (calls ≡ Watcher.update_edge_ingress r ∷ rest)
    × (r.name ≡ p.name)
    × (r.namespace ≡ p.namespace)
    × (r.status.version ≡ p.version)
    × (r.status.connection ≡ up)

-- The cluster has the edge ingress in this version, and it is up.
abbrev pub IsServed : EdgeIngress → Option Resource → Type 0
IsServed p found =
    (e : Resource) × (found ≡ some e) × (e.status.version ≡ p.version) × (e.status.connection ≡ up)

abbrev pub BelongsTo : EdgeIngress → Option Resource → Type 0
BelongsTo p found =
    (e : Resource) → found ≡ some e → (e.name ≡ p.name) × (e.namespace ≡ p.namespace)

is_up-up : (c : Connection) → is_up c ≡ true → c ≡ up
is_up-up up h = refl
is_up-up down h = absurd (cc h)

resource_total :
    (env : Env) (p : EdgeIngress)
    → ((s : Spec) → (h : String) × (env.hash s ≡ some h))
    → (r : Resource) × (resource env p ≡ some r)
      × (r.name ≡ p.name)
      × (r.namespace ≡ p.namespace)
      × (r.status.version ≡ p.version)
unfolding resource
resource_total env p hashed =
    let (h, e) = hashed (spec_of p) in
    elim (Option-cases (resource env p)) [
      | inl bad ↦ absurd (cc (rw (e, resource) at bad))
      | inr (r, q) ↦
          let same = rw (e, resource) at q in
          (
            r,
            q,
            sym (ap (λ (x : Option Resource). (default r x).name) same),
            sym (ap (λ (x : Option Resource). (default r x).namespace) same),
            sym (ap (λ (x : Option Resource). (default r x).status.version) same),
          )
    ]

module _ (o : Oracle) (env : Env) (help : IsHelpful o env) where
  create_edge_ingress-up :
      (config : WatcherConfig) (cert : Certificate) (p : EdgeIngress) (calls : List Call)
      → ComesUp p (create_edge_ingress config env cert p o calls).1
  unfolding create_edge_ingress
  create_edge_ingress-up config cert p calls =
      let (obj, built, n, ns, v) = resource_total env p help.hashed in
      let (obj', made, n', ns', st) = help.made calls obj in
      let (rest, child) =
        sync_child-up o env help config cert obj' p.custom_domains
          (Watcher.create_edge_ingress obj ∷ calls) in
      (
        as_up obj',
        rest,
        rw (built, made, child, create_edge_ingress),
        n' ∙ n,
        ns' ∙ ns,
        ap (λ (s : Status). s.version) st ∙ v,
        refl,
      )

  update_edge_ingress-up :
      (config : WatcherConfig) (cert : Certificate) (e : Resource) (p : EdgeIngress)
      (calls : List Call)
      → e.name ≡ p.name
      → e.namespace ≡ p.namespace
      → ComesUp p (update_edge_ingress config env cert e p o calls).1
  unfolding update_edge_ingress
  update_edge_ingress-up config cert e p calls n ns =
      let (obj, built, _, _, v) = resource_total env p help.hashed in
      let e' : Resource = record e { spec = obj.spec; status = obj.status } in
      let (obj', changed, n', ns', st) = help.changed calls e' in
      let (rest, child) =
        sync_child-up o env help config cert obj' p.custom_domains
          (Watcher.update_edge_ingress e' ∷ calls) in
      (
        as_up obj',
        rest,
        rw (built, changed, child, update_edge_ingress),
        n' ∙ n,
        ns' ∙ ns,
        ap (λ (s : Status). s.version) st ∙ v,
        refl,
      )

  sync_found-up :
      (config : WatcherConfig) (cert : Certificate) (e : Resource) (p : EdgeIngress)
      (calls : List Call)
      → e.name ≡ p.name
      → e.namespace ≡ p.namespace
      → IsServed p (some e) ⊎ ComesUp p (sync_found config env cert e p o calls).1
  unfolding sync_found
  sync_found-up config cert e p calls n ns = elim (Bool-cases (p.version == e.status.version)) [
    | inr other ↦ inr (rw (other, sync_found) (update_edge_ingress-up config cert e p calls n ns))
    | inl same ↦ elim (Bool-cases (is_up e.status.connection)) [
      | inl served ↦ inl (
        e,
        refl,
        sym (eq_of_== p.version e.status.version same),
        is_up-up e.status.connection served,
      )
      | inr waits ↦
          let (rest, child) = sync_child-up o env help config cert e p.custom_domains calls in
          inr (
            as_up e,
            rest,
            rw (same, waits, child, sync_found),
            n,
            ns,
            sym (eq_of_== p.version e.status.version same),
            refl,
          )
    ]
  ]

  -- Where no call fails, the turn of an edge ingress of the platform brings it up, whether the
  -- cluster has it or not: its last call sets one of its name, namespace and version up, unless the
  -- cluster has it up in this version.
  pub sync_one-ComesUp :
      (config : WatcherConfig) (cert : Certificate) (p : EdgeIngress) (found : Option Resource)
      (cache : Cache) (calls : List Call)
      → BelongsTo p found
      → IsServed p found ⊎ ComesUp p (sync_one config env cert p found cache o calls).1
  unfolding sync_one
  sync_one-ComesUp config cert p none cache calls its =
      inr (create_edge_ingress-up config cert p calls)
  sync_one-ComesUp config cert p (some e) cache calls its =
      let (n, ns) = its e refl in sync_found-up config cert e p calls n ns
