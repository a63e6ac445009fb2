-- ===== src/EdgeIngress/Sync/Deletes.antt =====
-- Which edge ingresses `syncEdgeIngresses` of pkg/edgeingress/watcher.go deletes.
use mathlib.Core.List.Permᴰ
use mathlib.Core.List.{Permᴰ}
use hub_agent_kubernetes.Prelude.{
  ◌++◌, ◌&&◌, map, All, Bool-cases, inl, inr, String, Bool, true, false, not, Option, none, some,
  List, [], ◌∷◌, ◌||◌, ◌==◌, string_eq, str_iff, GoMap, delete, any, select, lookup, if◌then◌else◌,
  ◌≡◌, refl, ap, ◌∙◌, arith,
}
use hub_agent_kubernetes.EdgeIngress.{
  Certificate, CustomDomain, EdgeIngress, Resource, Env, Secret, WatcherConfig,
}
use hub_agent_kubernetes.EdgeIngress.Watcher.{
  Call, list_edge_ingresses, delete_edge_ingress, Oracle, M, ◌>>=◌, renew_secret, upsert_secret,
  setup_certificates, upsert_ingress,
}
use hub_agent_kubernetes.EdgeIngress.Sync.{
  Cache, id_text, id_of, index, set_edge_ingress_connection_status_up,
  sync_child_and_update_connection_status, create_edge_ingress, update_edge_ingress, sync_found,
  sync_one, sync_each, clean_edge_ingresses, sync_edge_ingresses,
}
use hub_agent_kubernetes.EdgeIngress.Sync.Ids.{
  has_at, AreDistinct, is_unlisted, id_text_test, entry, index-map,
}

-- The names and namespaces of the deletions among the calls.
abbrev pub deletes : List Call → List (String × String)
deletes [] = []
deletes (delete_edge_ingress name namespace ∷ calls) = (name, namespace) ∷ deletes calls
deletes (c ∷ calls) = deletes calls

-- The part deletes nothing.
abbrev IsQuiet : {A : Type 0} → M A → Type 0
IsQuiet m = (o : Oracle) (calls : List Call) → deletes (m o calls).1 ≡ deletes calls

bind-IsQuiet :
    {A B : Type 0} (m : M A) (f : A → M B)
    → IsQuiet m
    → ((a : A) → IsQuiet (f a))
    → IsQuiet (m >>= f)
bind-IsQuiet m f qm qf o calls = qf (m o calls).0 o (m o calls).1 ∙ qm o calls

if-IsQuiet :
    {A : Type 0} (b : Bool) (m k : M A) → IsQuiet m → IsQuiet k → IsQuiet (if b then m else k)
if-IsQuiet true m k qm qk = qm
if-IsQuiet false m k qm qk = qk

renew_secret-IsQuiet :
    (cert : Certificate) (e : Option Resource) (s : Secret) → IsQuiet (renew_secret cert e s)
unfolding renew_secret
renew_secret-IsQuiet cert e s o calls = ground arith

upsert_secret-IsQuiet :
    (cert : Certificate) (name namespace : String) (e : Option Resource)
    → IsQuiet (upsert_secret cert name namespace e)
unfolding upsert_secret
upsert_secret-IsQuiet cert name namespace e o calls = grind (arith, renew_secret-IsQuiet)

setup_certificates-IsQuiet :
    (e : Resource) (cert : Certificate) (domains : List String)
    → IsQuiet (setup_certificates e cert domains)
unfolding setup_certificates
setup_certificates-IsQuiet e cert [] o calls = grind (arith, upsert_secret-IsQuiet)
setup_certificates-IsQuiet e cert (d ∷ domains) o calls = grind (arith, upsert_secret-IsQuiet)

upsert_ingress-IsQuiet :
    (config : WatcherConfig) (e : Resource) (domains : List String)
    → IsQuiet (upsert_ingress config e domains)
unfolding upsert_ingress
upsert_ingress-IsQuiet config e domains o calls = ground arith

sync_child-IsQuiet :
    (config : WatcherConfig) (cert : Certificate) (e : Resource) (domains : List CustomDomain)
    → IsQuiet (sync_child_and_update_connection_status config cert e domains)
unfolding sync_child_and_update_connection_status set_edge_ingress_connection_status_up
sync_child-IsQuiet config cert e domains o calls =
    grind (arith, setup_certificates-IsQuiet, upsert_ingress-IsQuiet)

create_edge_ingress-IsQuiet :
    (config : WatcherConfig) (env : Env) (cert : Certificate) (p : EdgeIngress)
    → IsQuiet (create_edge_ingress config env cert p)
unfolding create_edge_ingress
create_edge_ingress-IsQuiet config env cert p o calls = grind (arith, sync_child-IsQuiet)

update_edge_ingress-IsQuiet :
    (config : WatcherConfig) (env : Env) (cert : Certificate) (e : Resource) (p : EdgeIngress)
    → IsQuiet (update_edge_ingress config env cert e p)
unfolding update_edge_ingress
update_edge_ingress-IsQuiet config env cert e p o calls = grind (arith, sync_child-IsQuiet)

sync_found-IsQuiet :
    (config : WatcherConfig) (env : Env) (cert : Certificate) (e : Resource) (p : EdgeIngress)
    → IsQuiet (sync_found config env cert e p)
unfolding sync_found
sync_found-IsQuiet config env cert e p o calls =
    grind (arith, sync_child-IsQuiet, update_edge_ingress-IsQuiet)

sync_one-IsQuiet :
    (config : WatcherConfig) (env : Env) (cert : Certificate) (p : EdgeIngress)
    (found : Option Resource) (cache : Cache)
    → IsQuiet (sync_one config env cert p found cache)
unfolding sync_one
sync_one-IsQuiet config env cert p none cache o calls =
    create_edge_ingress-IsQuiet config env cert p o calls
sync_one-IsQuiet config env cert p (some e) cache o calls =
    sync_found-IsQuiet config env cert e p o calls

sync_each-IsQuiet :
    (config : WatcherConfig) (env : Env) (cert : Certificate) (ps : List EdgeIngress)
    (by_id : GoMap String Resource) (cache : Cache)
    → IsQuiet (sync_each config env cert ps by_id cache)
unfolding sync_each
sync_each-IsQuiet config env cert [] by_id cache o calls = refl
sync_each-IsQuiet config env cert (p ∷ ps) by_id cache o calls =
    let id = id_text p.name p.namespace in
    let one = sync_one config env cert p (lookup id by_id) cache o calls in
    sync_each-IsQuiet config env cert ps (delete id by_id) one.0 o one.1
    ∙ sync_one-IsQuiet config env cert p (lookup id by_id) cache o calls

-- No listed edge ingress has the ID.
abbrev is_left : List EdgeIngress → String × Resource → Bool
is_left ps entry = not (any (λ (p : EdgeIngress). id_text p.name p.namespace == entry.0) ps)

delete-select :
    (k : String) (m : GoMap String Resource) → delete k m ≡ select (λ e. not (k == e.0)) m
unfolding delete
delete-select k [] = refl
delete-select k ((j, v) ∷ m) = ground (arith, delete-select k m, str_iff j k, str_iff k j)

select_twice :
    (ps : List EdgeIngress) (k : String) (m : GoMap String Resource)
    → select (is_left ps) (select (λ e. not (k == e.0)) m)
      ≡ select
          (λ e. not (k == e.0 || any (λ (p : EdgeIngress). id_text p.name p.namespace == e.0) ps))
          m
select_twice ps k [] = refl
select_twice ps k ((j, v) ∷ m) = ground (arith, select_twice ps k m)

select_all : (m : GoMap String Resource) → m ≡ select (is_left []) m
select_all [] = refl
select_all (e ∷ m) = ap (◌∷◌ e) (select_all m)

select-delete :
    (p : EdgeIngress) (ps : List EdgeIngress) (m : GoMap String Resource)
    → select (is_left ps) (delete (id_text p.name p.namespace) m) ≡ select (is_left (p ∷ ps)) m
select-delete p ps m =
    ap (select (is_left ps)) (delete-select (id_text p.name p.namespace) m)
    ∙ select_twice ps (id_text p.name p.namespace) m

-- The entries that the loop leaves.
sync_each-left :
    (config : WatcherConfig) (env : Env) (cert : Certificate) (ps : List EdgeIngress)
    (by_id : GoMap String Resource) (cache : Cache) (o : Oracle) (calls : List Call)
    → (sync_each config env cert ps by_id cache o calls).0.0 ≡ select (is_left ps) by_id
unfolding sync_each
sync_each-left config env cert [] by_id cache o calls = select_all by_id
sync_each-left config env cert (p ∷ ps) by_id cache o calls =
    let id = id_text p.name p.namespace in
    let one = sync_one config env cert p (lookup id by_id) cache o calls in
    sync_each-left config env cert ps (delete id by_id) one.0 o one.1 ∙ select-delete p ps by_id

abbrev pub place : Resource → String × String
place e = (e.name, e.namespace)

abbrev entry_place : String × Resource → String × String
entry_place e = place e.1

-- The deletions of the entries are made before others, the last one first.
clean-place :
    (by_id : GoMap String Resource) (o : Oracle) (calls : List Call)
    → Permᴰ
        (deletes (clean_edge_ingresses by_id o calls).1)
        (map entry_place by_id ++ deletes calls)
unfolding clean_edge_ingresses
clean-place [] o calls = Permᴰ.refl (deletes calls)
clean-place ((id, e) ∷ by_id) o calls =
    Permᴰ.trans (clean-place by_id o (delete_edge_ingress e.name e.namespace ∷ calls))
      (Permᴰ.middle (place e) (map entry_place by_id) (deletes calls))

any-id_text :
    (ps : List EdgeIngress) (e : Resource)
    → All (λ (p : EdgeIngress). has_at p.name ≡ false) ps
    → has_at e.name ≡ false
    → any (λ (p : EdgeIngress). id_text p.name p.namespace == id_of e) ps
      ≡ any (λ (p : EdgeIngress). p.name == e.name && p.namespace == e.namespace) ps
any-id_text [] e h k = refl
any-id_text (p ∷ ps) e (hp, h) k =
    rw (id_text_test p.name p.namespace e.name e.namespace hp k, any-id_text ps e h k) refl

-- What is left of the map is what is not listed of the cache.
left-unlisted :
    (ps : List EdgeIngress) (cache : Cache)
    → All (λ (p : EdgeIngress). has_at p.name ≡ false) ps
    → All (λ c. has_at c.name ≡ false) cache
    → map entry_place (select (is_left ps) (map entry cache))
      ≡ map place (select (is_unlisted ps) cache)
left-unlisted ps [] h k = refl
left-unlisted ps (e ∷ cache) h (ke, k) =
    let test : is_left ps (entry e) ≡ is_unlisted ps e = ap not (any-id_text ps e h ke) in
    let ih = left-unlisted ps cache h k in
    elim (Bool-cases (is_unlisted ps e)) [
      | inl yes' ↦ rw (test, yes') (ap (◌∷◌ (place e)) ih)
      | inr no' ↦ rw (test, no') ih
    ]

-- Whatever calls fail, and in whatever order the entries that are left are ranged over, a
-- synchronisation to which the platform answers with its edge ingresses deletes just those of the
-- cluster of which none of the platform has the name and the namespace, each once, where the
-- cluster's are distinct and no name has an "@".
pub sync_edge_ingresses-deletes :
    (config : WatcherConfig) (env : Env) (cert : Certificate)
    (order : GoMap String Resource → GoMap String Resource) (cache : Cache) (o : Oracle)
    (calls : List Call) (ps : List EdgeIngress)
    → ((m : GoMap String Resource) → Permᴰ (order m) m)
    → AreDistinct cache
    → All (λ c. has_at c.name ≡ false) cache
    → All (λ (p : EdgeIngress). has_at p.name ≡ false) ps
    → o calls list_edge_ingresses ≡ some ps
    → Permᴰ
        (deletes (sync_edge_ingresses config env cert order cache o calls).1)
        (map place (select (is_unlisted ps) cache) ++ deletes calls)
unfolding sync_edge_ingresses
sync_edge_ingresses-deletes config env cert order cache o calls ps ordered d k h e =
    let before = list_edge_ingresses ∷ calls in
    let loop = sync_each config env cert ps (index cache []) cache o before in
    let quiet = sync_each-IsQuiet config env cert ps (index cache []) cache o before in
    let left = sync_each-left config env cert ps (index cache []) cache o before in
    let unlisted : map entry_place loop.0.0 ≡ map place (select (is_unlisted ps) cache) =
      ap (map entry_place) (left ∙ ap (select (is_left ps)) (index-map cache k d))
      ∙ left-unlisted ps cache h k in
    let cleaned : Permᴰ (deletes (clean_edge_ingresses (order loop.0.0) o loop.1).1)
        (map entry_place loop.0.0 ++ deletes loop.1) =
      Permᴰ.trans (clean-place (order loop.0.0) o loop.1)
        (Permᴰ.append_right (deletes loop.1) (Permᴰ.map entry_place (ordered loop.0.0))) in
    rw (e, sync_edge_ingresses) (rw (unlisted, quiet) at cleaned)
