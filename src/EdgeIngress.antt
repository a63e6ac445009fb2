-- ===== src/EdgeIngress.antt =====
-- pkg/edgeingress: the edge ingresses of the platform, and the resources of the cluster for them.
pub mod Watcher
pub mod Sync
pub mod Certificates
mod Tests
use hub_agent_kubernetes.Prelude.{
  ℕ, ◌%◌, ◌^◌, String, Bool, true, false, not, Option, none, some, List, [], ◌∷◌, ◌++◌, ◌&&◌, ◌==◌,
  string_eq, GoMap, if◌then◌else◌, map,
}
use hub_agent_kubernetes.Strings.{runes, string_of, join}

abbrev pub Bytes : Type 0
Bytes = List ℕ

pub record Certificate : Type 0 where
  pub certificate : Bytes
  pub private_key : Bytes

pub record CustomDomain : Type 0 where
  pub name : String
  pub verified : Bool

pub record Service : Type 0 where
  pub name : String
  pub port : ℕ

-- An edge ingress as the platform has it; `acp` is the name of its ACP, if any.
pub record EdgeIngress : Type 0 where
  pub workspace_id : String
  pub cluster_id : String
  pub namespace : String
  pub name : String
  pub domain : String
  pub custom_domains : List CustomDomain
  pub version : String
  pub service : Service
  pub acp : Option String
  pub created_at : ℕ
  pub updated_at : ℕ

pub record Spec : Type 0 where
  pub service : Service
  pub acp : Option String
  pub custom_domains : List String

pub data Connection : Type 0 where
  down : Connection
  up : Connection

pub record Status : Type 0 where
  pub version : String
  pub synced_at : ℕ
  pub domain : String
  pub custom_domains : List String
  pub urls : String
  pub connection : Connection
  pub spec_hash : String

-- The custom resource of the cluster.
pub record Resource : Type 0 where
  pub name : String
  pub namespace : String
  pub uid : String
  pub spec : Spec
  pub status : Status

-- The names of the verified domains, in their order.
unfoldable pub verified_domains : List CustomDomain → List String
verified_domains [] = []
verified_domains (d ∷ domains) =
    let rest = verified_domains domains in if d.verified then d.name ∷ rest else rest

abbrev pub https : String → String
https domain = string_of (runes "https://" ++ runes domain)

-- The clock, and `EdgeIngressSpec.Hash`; `none` is an error.
pub record Env : Type 0 where
  pub now : ℕ
  pub hash : Spec → Option String

abbrev pub spec_of : EdgeIngress → Spec
spec_of e = record {
  service = e.service;
  acp = e.acp;
  custom_domains = map (λ (d : CustomDomain). d.name) e.custom_domains;
}

-- `Resource`
unfoldable pub resource : Env → EdgeIngress → Option Resource
unfolding verified_domains join
resource env e = elim (env.hash (spec_of e)) [
  | none ↦ none
  | some spec_hash ↦
      let domains = verified_domains e.custom_domains in
      let urls = map https domains ++ https e.domain ∷ [] in
      some (record {
        name = e.name;
        namespace = e.namespace;
        uid = "";
        spec = spec_of e;
        status = record {
          version = e.version;
          synced_at = env.now;
          domain = e.domain;
          custom_domains = domains;
          urls = string_of (join (map runes urls) (runes ","));
          connection = down;
          spec_hash = spec_hash;
        };
      })
]

pub record OwnerReference : Type 0 where
  pub api_version : String
  pub kind : String
  pub name : String
  pub uid : String

abbrev pub owner_of : Resource → OwnerReference
owner_of e = record {
  api_version = "hub.traefik.io/v1alpha1";
  kind = "EdgeIngress";
  name = e.name;
  uid = e.uid;
}

-- A secret, with `tls.crt` and `tls.key` of its data.
pub record Secret : Type 0 where
  pub name : String
  pub namespace : String
  pub labels : GoMap String String
  pub owner_references : List OwnerReference
  pub tls_crt : Bytes
  pub tls_key : Bytes

pub record IngressTls : Type 0 where
  pub secret_name : String
  pub hosts : List String

-- A rule with the one path "/".
pub record IngressRule : Type 0 where
  pub host : String
  pub service : String
  pub port : ℕ

pub record Ingress : Type 0 where
  pub name : String
  pub namespace : String
  pub annotations : GoMap String String
  pub labels : GoMap String String
  pub owner_references : List OwnerReference
  pub class_name : String
  pub tls : List IngressTls
  pub rules : List IngressRule

-- A Traefik middleware: its name and namespace, and the prefix that it strips or adds.
pub record Middleware : Type 0 where
  pub name : String
  pub namespace : String
  pub strip_prefix_regex : List String
  pub add_prefix : String

pub record WatcherConfig : Type 0 where
  pub ingress_class_name : String
  pub agent_namespace : String
  pub traefik_tunnel_entry_point : String

abbrev pub managed_by : GoMap String String
managed_by = ("app.kubernetes.io/managed-by", "traefik-hub") ∷ []

abbrev pub secret_name : String
secret_name = "hub-certificate"

abbrev pub secret_custom_domains_name : String
secret_custom_domains_name = "hub-certificate-custom-domains"

abbrev pub catch_all_name : String
catch_all_name = "hub-catch-all"

abbrev pub dashed : String → String → String
dashed a b = string_of (runes a ++ runes "-" ++ runes b)

-- `int32(port)`, as a bit pattern.
abbrev pub int32 : ℕ → ℕ
int32 port = port % 2 ^ 32

abbrev auth_annotation : Option String → GoMap String String
auth_annotation none = []
auth_annotation (some acp) =
    if acp == "" then [] else ("hub.traefik.io/access-control-policy", acp) ∷ []

-- `buildIngress`, which replaces the metadata and the specification of the ingress it is given.
unfoldable pub build_ingress : Resource → String → String → List String → Ingress
build_ingress e class_name entry_point custom_domains =
    let rule = λ (host : String).
      let r : IngressRule = record {
        host = host;
        service = e.spec.service.name;
        port = int32 e.spec.service.port;
      } in
      r in
    let own : IngressTls = record { secret_name = secret_name; hosts = e.status.domain ∷ [] } in
    let custom : IngressTls = record {
      secret_name = dashed secret_custom_domains_name e.name;
      hosts = custom_domains;
    } in
    record {
      name = e.name;
      namespace = e.namespace;
      annotations =
          ("traefik.ingress.kubernetes.io/router.tls", "true")
          ∷ ("traefik.ingress.kubernetes.io/router.entrypoints", entry_point)
          ∷ auth_annotation e.spec.acp;
      labels = managed_by;
      owner_references = owner_of e ∷ [];
      class_name = class_name;
      tls = own ∷ (elim custom_domains [ [] ↦ [] | _ ∷ _ ↦ custom ∷ [] ]);
      rules = rule e.status.domain ∷ map rule custom_domains;
    }
