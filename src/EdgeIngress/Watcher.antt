-- ===== src/EdgeIngress/Watcher.antt =====
-- pkg/edgeingress/watcher.go. The API server and the platform are an oracle: it answers each call by
-- the calls made before, so that it may keep a state, and may fail any of them.
use hub_agent_kubernetes.Prelude.{
  String, Bool, true, false, Option, none, some, List, [], ◌∷◌, ◌++◌, ◌&&◌, ◌==◌, string_eq,
  nat_beq, if◌then◌else◌, length,
}
use hub_agent_kubernetes.EdgeIngress.{
  Bytes, Certificate, EdgeIngress, Resource, OwnerReference, owner_of, Secret, Ingress, Middleware,
  WatcherConfig, managed_by, secret_name, secret_custom_domains_name, dashed, build_ingress,
}

-- The calls to the platform and to the API server.
pub data Call : Type 0 where
  list_edge_ingresses : Call
  wildcard_certificate : Call
  certificate_by_domains : List String → Call
  get_secret : (name namespace : String) → Call
  create_secret : Secret → Call
  update_secret : Secret → Call
  get_ingress : (name namespace : String) → Call
  create_ingress : Ingress → Call
  update_ingress : Ingress → Call
  create_middleware : Middleware → Call
  create_edge_ingress : Resource → Call
  update_edge_ingress : Resource → Call
  delete_edge_ingress : (name namespace : String) → Call

-- What a `Get` answers.
pub data Looked (A : Type 0) : Type 0 where
  there : A → Looked A
  not_found : Looked A
  failed : Looked A

-- What a `Create` answers.
pub data Creation : Type 0 where
  created : Creation
  already_exists : Creation
  refused : Creation

-- `none` and `false` are errors.
abbrev pub Answer : Call → Type 0
Answer list_edge_ingresses = Option (List EdgeIngress)
Answer wildcard_certificate = Option Certificate
Answer (certificate_by_domains domains) = Option Certificate
Answer (get_secret name namespace) = Looked Secret
Answer (create_secret s) = Bool
Answer (update_secret s) = Bool
Answer (get_ingress name namespace) = Looked Ingress
Answer (create_ingress i) = Creation
Answer (update_ingress i) = Bool
Answer (create_middleware m) = Creation
Answer (create_edge_ingress e) = Option Resource
Answer (update_edge_ingress e) = Option Resource
Answer (delete_edge_ingress name namespace) = Bool

abbrev pub Oracle : Type 0
Oracle = List Call → (c : Call) → Answer c

-- A part of the program, with the calls made so far, the last one first.
abbrev pub M : Type 0 → Type 0
M A = Oracle → List Call → A × List Call

infixl 5 ◌>>=◌
abbrev pub ◌>>=◌ : {A B : Type 0} → M A → (A → M B) → M B
◌>>=◌ m f o calls = let (a, calls') = m o calls in f a o calls'

abbrev pub give : {A : Type 0} → A → M A
give a o calls = (a, calls)

abbrev pub ask : (c : Call) → M (Answer c)
ask c o calls = (o calls c, c ∷ calls)

-- Goes on where a part has succeeded.
abbrev pub and_then : M Bool → M Bool → M Bool
and_then m k = m >>= λ done. if done then k else give false

-- `reference.String() == ref.String()`
abbrev pub same_owner : OwnerReference → OwnerReference → Bool
same_owner a b =
    a.api_version == b.api_version && (a.kind == b.kind && (a.name == b.name && a.uid == b.uid))

-- `appendOwnerReference`: the loop, with all the references.
unfoldable pub append_from :
    List OwnerReference → List OwnerReference → OwnerReference → List OwnerReference
append_from references [] ref = references ++ ref ∷ []
append_from references (reference ∷ rest) ref =
    let later = append_from references rest ref in
    if same_owner reference ref then references else later

unfoldable pub append_owner_reference : List OwnerReference → OwnerReference → List OwnerReference
unfolding append_from
append_owner_reference references ref = append_from references references ref

abbrev pub new_owners : List OwnerReference → Option Resource → List OwnerReference
new_owners owners none = owners
new_owners owners (some e) = append_owner_reference owners (owner_of e)

abbrev pub first_owners : Option Resource → List OwnerReference
first_owners none = []
first_owners (some e) = owner_of e ∷ []

-- `bytes.Equal`
abbrev pub bytes_beq : Bytes → Bytes → Bool
bytes_beq [] [] = true
bytes_beq [] (b ∷ t) = false
bytes_beq (a ∷ s) [] = false
bytes_beq (a ∷ s) (b ∷ t) = nat_beq a b && bytes_beq s t

-- The part of `upsertSecret` for a secret that is there.
unfoldable pub renew_secret : Certificate → Option Resource → Secret → M Bool
unfolding append_owner_reference
renew_secret cert e secret =
    let owners = new_owners secret.owner_references e in
    if bytes_beq secret.tls_crt cert.certificate
      && nat_beq (length secret.owner_references) (length owners)
    then give true
    else ask (
        update_secret (record secret {
          tls_crt = cert.certificate;
          tls_key = cert.private_key;
          owner_references = owners;
        }))

-- `upsertSecret`, for an edge ingress or nil.
unfoldable pub upsert_secret : Certificate → String → String → Option Resource → M Bool
unfolding renew_secret
upsert_secret cert name namespace e = ask (get_secret name namespace) >>= λ found. elim found [
  | failed ↦ give false
  | not_found ↦ ask (
      create_secret (record {
        name = name;
        namespace = namespace;
        labels = managed_by;
        owner_references = first_owners e;
        tls_crt = cert.certificate;
        tls_key = cert.private_key;
      }))
  | there secret ↦ renew_secret cert e secret
]

-- `setupCertificates`
unfoldable pub setup_certificates : Resource → Certificate → List String → M Bool
setup_certificates e certificate custom_domains =
    and_then (upsert_secret certificate secret_name e.namespace (some e)) (elim custom_domains [
      | [] ↦ give true
      | d ∷ domains ↦ ask (certificate_by_domains (d ∷ domains)) >>= λ cert. elim cert [
        | none ↦ give false
        | some custom ↦
            upsert_secret custom (dashed secret_custom_domains_name e.name) e.namespace (some e)
      ]
    ])

abbrev pub is_created : Creation → Bool
is_created created = true
is_created already_exists = false
is_created refused = false

-- `upsertIngress`
unfoldable pub upsert_ingress : WatcherConfig → Resource → List String → M Bool
unfolding build_ingress
upsert_ingress config e custom_domains =
    let ing =
      build_ingress e config.ingress_class_name config.traefik_tunnel_entry_point custom_domains in
    ask (get_ingress e.name e.namespace) >>= λ found. elim found [
      | failed ↦ give false
      | not_found ↦ ask (create_ingress ing) >>= λ answer. give (is_created answer)
      | there old ↦ ask (update_ingress ing)
    ]
