-- ===== src/EdgeIngress/Sync/Ids.antt =====
-- The IDs by which pkg/edgeingress/watcher.go finds the edge ingresses of the cluster.
use mathlib.Core.List.{append_assoc, append-nil}
use hub_agent_kubernetes.Prelude.{
  Char, String, Bool, true, false, not, List, [], ◌∷◌, ◌++◌, ◌&&◌, ◌==◌, string_eq, eq_of_==,
  ==_refl, GoMap, insert, any, lookup, lookup-insert, map, All, none, ◌≡◌, refl, ap, sym, ◌∙◌,
  arith, Bool-cases, inl, inr,
}
use hub_agent_kubernetes.Strings.{runes, string_of, char_eq, runes-string_of, string_of-runes}
use hub_agent_kubernetes.EdgeIngress.{EdgeIngress, Resource}
use hub_agent_kubernetes.EdgeIngress.Sync.{Cache, id_text, id_of, index}

-- A name that the API server takes has no "@".
abbrev pub has_at : String → Bool
has_at s = any (λ (c : Char). c == "@") (runes s)

abbrev pub is_at : Resource → Resource → Bool
is_at e c = e.name == c.name && e.namespace == c.namespace

-- No two objects have the same name and namespace.
abbrev pub AreDistinct : Cache → Type 0
AreDistinct [] = Unit
AreDistinct (e ∷ cache) = All (λ c. is_at e c ≡ false) cache × AreDistinct cache

-- No listed edge ingress has the name and the namespace.
abbrev pub is_unlisted : List EdgeIngress → Resource → Bool
is_unlisted ps e =
    not (any (λ (p : EdgeIngress). p.name == e.name && p.namespace == e.namespace) ps)

before_at :
    (a b c d : List Char)
    → any (λ (x : Char). x == "@") a ≡ false
    → any (λ (x : Char). x == "@") c ≡ false
    → a ++ "@" ∷ b ≡ c ++ "@" ∷ d
    → (a ≡ c) × (b ≡ d)
before_at [] b [] d h k e = (refl, cc (e))
before_at [] b (x ∷ c) d h k e = let p : "@" ≡ x = cc (e) in absurd (ground (arith, rw (← p) at k))
before_at (x ∷ a) b [] d h k e = let p : x ≡ "@" = cc (e) in absurd (ground (arith, rw p at h))
before_at (x ∷ a) b (y ∷ c) d h k e =
    let p : x ≡ y = cc (e) in
    let q : a ++ "@" ∷ b ≡ c ++ "@" ∷ d = cc (e) in
    let (r, s) = before_at a b c d (ground (arith, h)) (ground (arith, k)) q in (cc (p, r), s)

runes_injective : (a b : String) → runes a ≡ runes b → a ≡ b
runes_injective a b e = sym (string_of-runes a) ∙ ap string_of e ∙ string_of-runes b

runes-id_text : (a b : String) → runes (id_text a b) ≡ runes a ++ "@" ∷ runes b
runes-id_text a b =
    runes-string_of (runes a ++ runes "@" ++ runes b) ∙ append_assoc (runes a) (runes "@") (runes b)

id_text_injective :
    (a b c d : String)
    → has_at a ≡ false
    → has_at c ≡ false
    → id_text a b ≡ id_text c d
    → (a ≡ c) × (b ≡ d)
id_text_injective a b c d h k e =
    let p : runes a ++ "@" ∷ runes b ≡ runes c ++ "@" ∷ runes d =
      sym (runes-id_text a b) ∙ ap runes e ∙ runes-id_text c d in
    let (r, s) = before_at (runes a) (runes b) (runes c) (runes d) h k p in
    (runes_injective a c r, runes_injective b d s)

-- The test of the IDs is that of the names and the namespaces.
pub id_text_test :
    (a b c d : String)
    → has_at a ≡ false
    → has_at c ≡ false
    → (id_text a b == id_text c d) ≡ (a == c && b == d)
id_text_test a b c d h k = elim (Bool-cases (id_text a b == id_text c d)) [
  | inl same ↦
      let (p, q) = id_text_injective a b c d h k (eq_of_== (id_text a b) (id_text c d) same) in
      let both : (a == c && b == d) ≡ true = rw (p, q, ==_refl c, ==_refl d) refl in same ∙ sym both
  | inr other ↦ elim (Bool-cases (a == c && b == d)) [
    | inr both ↦ other ∙ sym both
    | inl both ↦
        let p : a ≡ c = eq_of_== a c (ground (arith, both)) in
        let q : b ≡ d = eq_of_== b d (ground (arith, both)) in
        let r : id_text a b ≡ id_text c d = rw (p, q) refl in
        let s : (id_text a b == id_text c d) ≡ true = rw r (==_refl (id_text c d)) in
        absurd (cc (other, s))
  ]
]

abbrev pub entry : Resource → String × Resource
entry e = (id_of e, e)

insert_fresh :
    (id : String) (e : Resource) (m : GoMap String Resource)
    → lookup id m ≡ none
    → insert id e m ≡ m ++ (id, e) ∷ []
unfolding insert lookup
insert_fresh id e [] h = refl
insert_fresh id e ((j, v) ∷ m) h = elim (Bool-cases (j == id)) [
  | inl same ↦ absurd (cc (rw (same, lookup) at h))
  | inr other ↦ rw (other, insert) (ap (◌∷◌ (j, v)) (insert_fresh id e m (rw (other, lookup) at h)))
]

abbrev AreFresh : GoMap String Resource → Cache → Type 0
AreFresh m cache = All (λ c. lookup (id_of c) m ≡ none) cache

AreFresh-insert :
    (e : Resource) (m : GoMap String Resource) (cache : Cache)
    → has_at e.name ≡ false
    → All (λ c. has_at c.name ≡ false) cache
    → All (λ c. is_at e c ≡ false) cache
    → AreFresh m cache
    → AreFresh (insert (id_of e) e m) cache
AreFresh-insert e m [] n ns d f = tt
AreFresh-insert e m (c ∷ cache) n (nc, ns) (dc, d) (fc, f) =
    let other = id_text_test e.name e.namespace c.name c.namespace n nc ∙ dc in
    (lookup-insert (id_of e) (id_of c) e m ∙ rw other fc, AreFresh-insert e m cache n ns d f)

index-append :
    (cache : Cache) (m : GoMap String Resource)
    → All (λ c. has_at c.name ≡ false) cache
    → AreDistinct cache
    → AreFresh m cache
    → index cache m ≡ m ++ map entry cache
unfolding index
index-append [] m ns d f = sym (append-nil m)
index-append (e ∷ cache) m (n, ns) (de, d) (fe, f) =
    index-append cache (insert (id_of e) e m) ns d (AreFresh-insert e m cache n ns de f)
    ∙ ap (λ l. l ++ map entry cache) (insert_fresh (id_of e) e m fe)
    ∙ append_assoc m (entry e ∷ []) (map entry cache)

fresh : (cache : Cache) → AreFresh [] cache
unfolding lookup
fresh [] = tt
fresh (e ∷ cache) = (refl, fresh cache)

-- The map of a cache with distinct objects has each of them under its ID.
pub index-map :
    (cache : Cache)
    → All (λ c. has_at c.name ≡ false) cache
    → AreDistinct cache
    → index cache [] ≡ map entry cache
index-map cache ns d = index-append cache [] ns d (fresh cache)
