-- ===== src/EdgeIngress/Certificates/Missed.antt =====
-- What a failed call of pkg/edgeingress/watcher.go leaves undone for good: the certificate.
use hub_agent_kubernetes.Prelude.{
  Bool, true, false, none, some, List, [], ◌∷◌, string_eq, nat_beq_iff, ◌≡◌, refl, ap, ◌∙◌,
}
use hub_agent_kubernetes.EdgeIngress.{Bytes, Certificate, WatcherConfig, secret_name}
use hub_agent_kubernetes.EdgeIngress.Watcher.{
  Call, wildcard_certificate, Oracle, bytes_beq, upsert_secret,
}
use hub_agent_kubernetes.EdgeIngress.Sync.{Cache}
use hub_agent_kubernetes.EdgeIngress.Certificates.{same_certificate, sync_certificates}

bytes_beq_refl : (b : Bytes) → bytes_beq b b ≡ true
bytes_beq_refl [] = refl
bytes_beq_refl (n ∷ b) = rw ((nat_beq_iff n n).1 refl) (bytes_beq_refl b)

same_certificate_refl : (c : Certificate) → same_certificate c c ≡ true
same_certificate_refl c = rw (bytes_beq_refl c.certificate) (bytes_beq_refl c.private_key)

-- The platform has a certificate that is not the kept one, and the agent's secret is updated with it.
module _ (config : WatcherConfig) (has_traefik : Bool) (old new : Certificate) (cache : Cache)
    (o : Oracle) (calls : List Call) (given : o calls wildcard_certificate ≡ some new)
    (differs : same_certificate new old ≡ false)
    (stored : (upsert_secret new secret_name config.agent_namespace none o
        (wildcard_certificate ∷ calls)).0
      ≡ true) where
  kept : (sync_certificates config has_traefik old cache o calls).0.0 ≡ new
  unfolding sync_certificates
  kept = rw (given, sync_certificates, differs, stored)

  -- A synchronisation to which the platform gives a new certificate, and that updates the agent's
  -- secret with it, keeps it, whether the certificates of the edge ingresses and the catch-all
  -- ingress were set up or not; and each later one, as long as the platform gives that certificate,
  -- succeeds with no call but the one for the certificate.
  pub sync_certificates-missed :
      (cache' : Cache) (calls' : List Call)
      → o calls' wildcard_certificate ≡ some new
      → sync_certificates config has_traefik
          (sync_certificates config has_traefik old cache o calls).0.0
          cache'
          o
          calls'
        ≡ ((new, true), wildcard_certificate ∷ calls')
  unfolding sync_certificates
  sync_certificates-missed cache' calls' again =
      ap (λ c. sync_certificates config has_traefik c cache' o calls') kept
      ∙ rw (again, same_certificate_refl new, sync_certificates)
