-- ===== src/Tunnel/Update.antt =====
-- What `updateTunnels` of pkg/tunnel/manager.go leaves.
use hub_agent_kubernetes.Prelude.{
  ℕ, String, true, false, Option, none, some, List, [], ◌∷◌, ◌==◌, string_eq, nat_eq, if◌then◌else◌,
  GoMap, lookup, delete, ◌≡◌, refl, sym, ap, ◌∙◌, arith, lookup-insert, lookup-delete, Bool-cases,
  inl, inr, eq_of_==, Option-cases,
}
use hub_agent_kubernetes.Tunnel.{
  Endpoint, Tunnel, Manager, close, launch_tunnel, remove_tunnel, update_endpoint, update_endpoints,
  is_current, drop_tunnels, update_tunnels,
}

abbrev broker_of : Option Tunnel → Option String
broker_of none = none
broker_of (some t) = some t.broker_endpoint

-- The broker of the tunnel of an ID.
abbrev pub broker : Manager → String → Option String
broker m id = broker_of (lookup id m.tunnels)

-- The broker that the platform lists for an ID.
abbrev pub listed : List Endpoint → String → Option String
listed [] id = none
listed (e ∷ endpoints) id =
    if e.tunnel_id == id then some e.broker_endpoint else listed endpoints id

-- No ID is listed twice.
abbrev pub DistinctIds : List Endpoint → Type 0
DistinctIds [] = Unit
DistinctIds (e ∷ endpoints) = (listed endpoints e.tunnel_id ≡ none) × DistinctIds endpoints

close-tunnels : (handle : ℕ) (m : Manager) → (close handle m).tunnels ≡ m.tunnels
unfolding close
close-tunnels handle m = ground arith

remove_tunnel-tunnels :
    (id : String) (tun : Tunnel) (m : Manager)
    → (remove_tunnel id tun m).tunnels ≡ delete id m.tunnels
unfolding remove_tunnel
remove_tunnel-tunnels id tun m = ap (delete id) (close-tunnels tun.handle m)

launch_tunnel-broker :
    (e : Endpoint) (m : Manager) (id : String)
    → broker (launch_tunnel e m) id
      ≡ (if e.tunnel_id == id then some e.broker_endpoint else broker m id)
unfolding launch_tunnel
launch_tunnel-broker e m id =
    let t : Tunnel = record {
      handle = m.next_handle;
      broker_endpoint = e.broker_endpoint;
      cluster_endpoint = m.traefik_tunnel_addr;
    } in
    ap broker_of (lookup-insert e.tunnel_id id t m.tunnels)
    ∙ elim (Bool-cases (e.tunnel_id == id)) [ inl h ↦ rw h | inr h ↦ rw h ]

update_endpoint-broker :
    (e : Endpoint) (m : Manager) (id : String)
    → broker (update_endpoint e m) id
      ≡ (if e.tunnel_id == id then some e.broker_endpoint else broker m id)
unfolding update_endpoint
update_endpoint-broker e m id = elim (Option-cases (lookup e.tunnel_id m.tunnels)) [
  | inl h ↦ rw (h, update_endpoint) (launch_tunnel-broker e m id)
  | inr (tun, h) ↦ elim (Bool-cases (tun.broker_endpoint == e.broker_endpoint)) [
    | inl same ↦
        rw (h, same, update_endpoint)
          (elim (Bool-cases (e.tunnel_id == id)) [
            | inl at_id ↦
                let found : lookup id m.tunnels ≡ some tun =
                  rw (eq_of_== e.tunnel_id id at_id) at h in
                let equal = eq_of_== tun.broker_endpoint e.broker_endpoint same in
                rw (at_id, found) (ap some equal)
            | inr other ↦ rw other
          ])
    | inr different ↦
        rw (h, different, update_endpoint)
          (launch_tunnel-broker e (remove_tunnel e.tunnel_id tun m) id
            ∙ elim (Bool-cases (e.tunnel_id == id)) [
              | inl at_id ↦ rw at_id
              | inr other ↦
                  let kept : lookup id (delete e.tunnel_id m.tunnels) ≡ lookup id m.tunnels =
                    ground (arith, lookup-delete e.tunnel_id id m.tunnels, other) in
                  rw (other, remove_tunnel-tunnels e.tunnel_id tun m, kept)
            ])
  ]
]

abbrev or_else : Option String → Option String → Option String
or_else none d = d
or_else (some b) d = some b

update_endpoints-broker :
    (endpoints : List Endpoint) (m : Manager) (id : String)
    → DistinctIds endpoints
    → broker (update_endpoints endpoints m) id ≡ or_else (listed endpoints id) (broker m id)
unfolding update_endpoints
update_endpoints-broker [] m id d = refl
update_endpoints-broker (e ∷ endpoints) m id (fresh, d) =
    update_endpoints-broker endpoints (update_endpoint e m) id d
    ∙ ap (or_else (listed endpoints id)) (update_endpoint-broker e m id)
    ∙ elim (Bool-cases (e.tunnel_id == id)) [
      | inl here ↦
          let gone : listed endpoints id ≡ none = rw (eq_of_== e.tunnel_id id here) at fresh in
          rw (here, gone)
      | inr other ↦ rw other
    ]

is_current-listed :
    (endpoints : List Endpoint) (id : String)
    → is_current endpoints id ≡ false
    → listed endpoints id ≡ none
is_current-listed [] id h = refl
is_current-listed (e ∷ endpoints) id h = ground (arith, is_current-listed endpoints id)

listed-is_current :
    (endpoints : List Endpoint) (id b : String)
    → listed endpoints id ≡ some b
    → is_current endpoints id ≡ true
listed-is_current [] id b h = absurd (cc h)
listed-is_current (e ∷ endpoints) id b h = ground (arith, listed-is_current endpoints id b)

drop_tunnels-kept :
    (endpoints : List Endpoint) (rest : GoMap String Tunnel) (m : Manager) (id : String)
    → is_current endpoints id ≡ true
    → lookup id (drop_tunnels endpoints rest m).tunnels ≡ lookup id m.tunnels
unfolding drop_tunnels
drop_tunnels-kept endpoints [] m id h = refl
drop_tunnels-kept endpoints ((j, tun) ∷ rest) m id h = elim (Bool-cases (is_current endpoints j)) [
  | inl c ↦ rw (c, drop_tunnels) (drop_tunnels-kept endpoints rest m id h)
  | inr c ↦
      let kept : lookup id (delete j m.tunnels) ≡ lookup id m.tunnels =
        elim (Bool-cases (j == id)) [
          | inl same ↦ absurd (cc (h, rw (eq_of_== j id same) at c))
          | inr other ↦ ground (arith, lookup-delete j id m.tunnels, other)
        ] in
      rw (c, drop_tunnels)
        (drop_tunnels-kept endpoints rest (remove_tunnel j tun m) id h
          ∙ ap (lookup id) (remove_tunnel-tunnels j tun m)
          ∙ kept)
]

drop_tunnels-gone :
    (endpoints : List Endpoint) (rest : GoMap String Tunnel) (m : Manager) (id : String)
    → lookup id m.tunnels ≡ none
    → lookup id (drop_tunnels endpoints rest m).tunnels ≡ none
unfolding drop_tunnels
drop_tunnels-gone endpoints [] m id h = h
drop_tunnels-gone endpoints ((j, tun) ∷ rest) m id h = elim (Bool-cases (is_current endpoints j)) [
  | inl c ↦ rw (c, drop_tunnels) (drop_tunnels-gone endpoints rest m id h)
  | inr c ↦
      let gone : lookup id (delete j m.tunnels) ≡ none =
        ground (arith, lookup-delete j id m.tunnels, h) in
      rw (c, drop_tunnels)
        (drop_tunnels-gone endpoints rest (remove_tunnel j tun m) id
          (ap (lookup id) (remove_tunnel-tunnels j tun m) ∙ gone))
]

drop_tunnels-dropped :
    (endpoints : List Endpoint) (rest : GoMap String Tunnel) (m : Manager) (id : String)
    (t : Tunnel)
    → is_current endpoints id ≡ false
    → lookup id rest ≡ some t
    → lookup id (drop_tunnels endpoints rest m).tunnels ≡ none
unfolding drop_tunnels lookup
drop_tunnels-dropped endpoints [] m id t h e = absurd (cc e)
drop_tunnels-dropped endpoints ((j, tun) ∷ rest) m id t h e = elim (Bool-cases (j == id)) [
  | inl same ↦
      let p = eq_of_== j id same in
      let c : is_current endpoints j ≡ false = rw p h in
      let gone : lookup id (delete j m.tunnels) ≡ none =
        ground (arith, lookup-delete j id m.tunnels, same) in
      rw (c, drop_tunnels)
        (drop_tunnels-gone endpoints rest (remove_tunnel j tun m) id
          (ap (lookup id) (remove_tunnel-tunnels j tun m) ∙ gone))
  | inr other ↦
      drop_tunnels-dropped endpoints rest
        (if is_current endpoints j then m else remove_tunnel j tun m) id t h (rw other at e)
]

-- After `updateTunnels` on an answer that lists no ID twice, the tunnels are those that the platform
-- lists: each listed ID has a tunnel to the listed broker, and no other ID has one.
pub update_tunnels-listed :
    (endpoints : List Endpoint) (m : Manager) (id : String)
    → DistinctIds endpoints
    → broker (update_tunnels (some endpoints) m) id ≡ listed endpoints id
unfolding update_tunnels
update_tunnels-listed endpoints m id d =
    let updated = update_endpoints endpoints m in
    let brokers = update_endpoints-broker endpoints m id d in
    elim (Bool-cases (is_current endpoints id)) [
      | inl c ↦
          ap broker_of (drop_tunnels-kept endpoints updated.tunnels updated id c)
          ∙ brokers
          ∙ is_current-or_else endpoints id (broker m id) c
      | inr c ↦ elim (Option-cases (lookup id updated.tunnels)) [
        | inl e ↦
            ap broker_of (drop_tunnels-gone endpoints updated.tunnels updated id e)
            ∙ sym (is_current-listed endpoints id c)
        | inr (t, e) ↦
            ap broker_of (drop_tunnels-dropped endpoints updated.tunnels updated id t c e)
            ∙ sym (is_current-listed endpoints id c)
      ]
    ]
  where
    is_current-or_else :
        (endpoints : List Endpoint) (id : String) (d : Option String)
        → is_current endpoints id ≡ true
        → or_else (listed endpoints id) d ≡ listed endpoints id
    is_current-or_else [] id d h = absurd (cc h)
    is_current-or_else (e ∷ endpoints) id d h = elim (Bool-cases (e.tunnel_id == id)) [
      | inl here ↦ rw here
      | inr other ↦ rw other (is_current-or_else endpoints id d (rw other at h))
    ]
