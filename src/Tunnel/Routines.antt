-- ===== src/Tunnel/Routines.antt =====
-- The goroutines of pkg/tunnel/manager.go, under every order of updates, connections and ends.
use hub_agent_kubernetes.Prelude.{
  ℕ, ◌≤◌, String, true, false, Option, none, some, List, [], ◌∷◌, ◌==◌, string_eq, nat_eq, GoMap,
  lookup, insert, delete, ◌≡◌, refl, sym, ap, ◌∙◌, arith, lookup-insert, lookup-delete,
  lookup-insert_self, Bool-cases, inl, inr, eq_of_==, Option-cases, nat_beq_iff, ==_refl,
}
use hub_agent_kubernetes.Tunnel.{
  Endpoint, Tunnel, Routine, Manager, close, launch_tunnel, remove_tunnel, update_endpoint,
  update_endpoints, is_current, drop_tunnels, update_tunnels, connect, finish, stop_tunnels, stop,
  Step, updating, connecting, finishing, stopping, Reachable, start, next,
}

-- The goroutine of a handle, for the tunnel of an ID.
abbrev pub Runs : Manager → ℕ → String → Type 0
Runs m handle id = (r : Routine) × (lookup handle m.routines ≡ some r) × (r.tunnel_id ≡ id)

-- Every tunnel has a goroutine that was launched for its ID, and the next handle is new.
pub record IsManaged (m : Manager) : Type 0 where
  pub owned : (id : String) (t : Tunnel) → lookup id m.tunnels ≡ some t → Runs m t.handle id
  pub fresh : (handle : ℕ) → m.next_handle ≤ handle → lookup handle m.routines ≡ none

-- A change of one goroutine that keeps its ID.
abbrev with_routine : ℕ → Routine → Manager → Manager
with_routine handle r m = record m { routines = insert handle r m.routines }

with_routine-IsManaged :
    (handle : ℕ) (old r : Routine) (m : Manager)
    → lookup handle m.routines ≡ some old
    → r.tunnel_id ≡ old.tunnel_id
    → IsManaged m
    → IsManaged (with_routine handle r m)
with_routine-IsManaged handle old r m e same v = record {
  owned = λ id t p.
      let (q, found, own) = v.owned id t p in
      let look = lookup-insert handle t.handle r m.routines in
      elim (Bool-cases (handle == t.handle)) [
        | inl here ↦
            let h = eq_of_== handle t.handle here in
            let is_old : old ≡ q = cc (sym e ∙ ap (λ k. lookup k m.routines) h ∙ found) in
            (r, rw here at look, same ∙ ap (λ (x : Routine). x.tunnel_id) is_old ∙ own)
        | inr other ↦ (q, rw other at look ∙ found, own)
      ];
  fresh = λ k le.
      let gone = v.fresh k le in
      ground (arith, lookup-insert handle k r m.routines, nat_beq_iff handle k, gone, e);
}

close-IsManaged : (handle : ℕ) (m : Manager) → IsManaged m → IsManaged (close handle m)
unfolding close
close-IsManaged handle m v = elim (Option-cases (lookup handle m.routines)) [
  | inl e ↦ rw (e, close) v
  | inr (r, e) ↦ elim (Bool-cases r.connected) [
    | inl c ↦
        rw (e, c, close)
          (with_routine-IsManaged handle r (record r { connected = true; closed = true }) m e refl
            v)
    | inr c ↦ rw (e, c, close) v
  ]
]

-- Fewer tunnels and the same goroutines.
delete-IsManaged :
    (id : String) (m : Manager)
    → IsManaged m
    → IsManaged (record m { tunnels = delete id m.tunnels })
delete-IsManaged id m v = record {
  owned = λ j t p. v.owned j t (ground (arith, lookup-delete id j m.tunnels, p));
  fresh = v.fresh;
}

remove_tunnel-IsManaged :
    (id : String) (tun : Tunnel) (m : Manager) → IsManaged m → IsManaged (remove_tunnel id tun m)
unfolding remove_tunnel
remove_tunnel-IsManaged id tun m v =
    delete-IsManaged id (close tun.handle m) (close-IsManaged tun.handle m v)

launch_tunnel-IsManaged : (e : Endpoint) (m : Manager) → IsManaged m → IsManaged (launch_tunnel e m)
unfolding launch_tunnel
launch_tunnel-IsManaged e m v =
    let t : Tunnel = record {
      handle = m.next_handle;
      broker_endpoint = e.broker_endpoint;
      cluster_endpoint = m.traefik_tunnel_addr;
    } in
    let r : Routine = record {
      tunnel_id = e.tunnel_id;
      broker_endpoint = e.broker_endpoint;
      connected = false;
      closed = false;
    } in
    let new = v.fresh m.next_handle (omega arith) in
    record {
      owned = λ id u p.
          let look = lookup-insert e.tunnel_id id t m.tunnels in
          let run = lookup-insert m.next_handle u.handle r m.routines in
          elim (Bool-cases (e.tunnel_id == id)) [
            | inl here ↦
                let is_new : t ≡ u = cc (sym (rw here at look) ∙ p) in
                rw (← is_new)
                  (r, lookup-insert_self m.next_handle r m.routines, eq_of_== e.tunnel_id id here)
            | inr other ↦
                let (q, found, own) = v.owned id u (sym (rw other at look) ∙ p) in
                (q, ground (arith, run, found, new, nat_beq_iff m.next_handle u.handle), own)
          ];
      fresh = λ k le.
          let gone = v.fresh k (omega arith) in
          ground (arith, lookup-insert m.next_handle k r m.routines, gone);
    }

update_endpoint-IsManaged :
    (e : Endpoint) (m : Manager) → IsManaged m → IsManaged (update_endpoint e m)
unfolding update_endpoint
update_endpoint-IsManaged e m v = elim (Option-cases (lookup e.tunnel_id m.tunnels)) [
  | inl h ↦ rw (h, update_endpoint) (launch_tunnel-IsManaged e m v)
  | inr (tun, h) ↦ elim (Bool-cases (tun.broker_endpoint == e.broker_endpoint)) [
    | inl same ↦ rw (h, same, update_endpoint) v
    | inr other ↦
        rw (h, other, update_endpoint)
          (launch_tunnel-IsManaged e _ (remove_tunnel-IsManaged e.tunnel_id tun m v))
  ]
]

update_endpoints-IsManaged :
    (endpoints : List Endpoint) (m : Manager)
    → IsManaged m
    → IsManaged (update_endpoints endpoints m)
unfolding update_endpoints
update_endpoints-IsManaged [] m v = v
update_endpoints-IsManaged (e ∷ endpoints) m v =
    update_endpoints-IsManaged endpoints (update_endpoint e m) (update_endpoint-IsManaged e m v)

drop_tunnels-IsManaged :
    (endpoints : List Endpoint) (rest : GoMap String Tunnel) (m : Manager)
    → IsManaged m
    → IsManaged (drop_tunnels endpoints rest m)
unfolding drop_tunnels
drop_tunnels-IsManaged endpoints [] m v = v
drop_tunnels-IsManaged endpoints ((j, tun) ∷ rest) m v =
    drop_tunnels-IsManaged endpoints rest _ (elim (Bool-cases (is_current endpoints j)) [
      | inl c ↦ rw c v
      | inr c ↦ rw c (remove_tunnel-IsManaged j tun m v)
    ])

stop_tunnels-IsManaged :
    (rest : GoMap String Tunnel) (m : Manager) → IsManaged m → IsManaged (stop_tunnels rest m)
unfolding stop_tunnels
stop_tunnels-IsManaged [] m v = v
stop_tunnels-IsManaged ((j, tun) ∷ rest) m v =
    stop_tunnels-IsManaged rest (remove_tunnel j tun m) (remove_tunnel-IsManaged j tun m v)

finish-IsManaged : (handle : ℕ) (m : Manager) → IsManaged m → IsManaged (finish handle m)
unfolding finish
finish-IsManaged handle m v = elim (Option-cases (lookup handle m.routines)) [
  | inl e ↦ rw (e, finish) v
  | inr (r, e) ↦
      rw (e, finish)
        (record {
          owned = λ id t p.
              let gone = lookup-delete r.tunnel_id id m.tunnels in
              let ended = lookup-delete handle t.handle m.routines in
              elim (Bool-cases (r.tunnel_id == id)) [
                | inl same ↦ absurd (cc (sym (rw same at gone) ∙ p))
                | inr other ↦
                    let (q, found, own) = v.owned id t (sym (rw other at gone) ∙ p) in
                    elim (Bool-cases (handle == t.handle)) [
                      | inl here ↦
                          let h = eq_of_== handle t.handle here in
                          let is_r : r ≡ q = cc (sym e ∙ ap (λ k. lookup k m.routines) h ∙ found) in
                          let id_of_r : r.tunnel_id ≡ id =
                            ap (λ (x : Routine). x.tunnel_id) is_r ∙ own in
                          absurd (cc (other, sym (==_refl id), ap (λ s. s == id) id_of_r))
                      | inr running ↦ (q, rw running at ended ∙ found, own)
                    ]
              ];
          fresh = λ k le.
              let gone = v.fresh k le in ground (arith, lookup-delete handle k m.routines, gone);
        })
]

connect-IsManaged : (handle : ℕ) (m : Manager) → IsManaged m → IsManaged (connect handle m)
unfolding connect
connect-IsManaged handle m v = elim (Option-cases (lookup handle m.routines)) [
  | inl e ↦ rw (e, connect) v
  | inr (r, e) ↦
      rw (e, connect) (with_routine-IsManaged handle r (record r { connected = true }) m e refl v)
]

update_tunnels-IsManaged :
    (answer : Option (List Endpoint)) (m : Manager)
    → IsManaged m
    → IsManaged (update_tunnels answer m)
unfolding update_tunnels
update_tunnels-IsManaged none m v = v
update_tunnels-IsManaged (some endpoints) m v =
    let updated = update_endpoints endpoints m in
    drop_tunnels-IsManaged endpoints updated.tunnels updated
      (update_endpoints-IsManaged endpoints m v)

Step-IsManaged : {m m' : Manager} → Step m m' → IsManaged m → IsManaged m'
unfolding stop
Step-IsManaged (updating answer m) v = update_tunnels-IsManaged answer m v
Step-IsManaged (connecting handle m) v = connect-IsManaged handle m v
Step-IsManaged (finishing handle m) v = finish-IsManaged handle m v
Step-IsManaged (stopping m) v = stop_tunnels-IsManaged m.tunnels m v

-- In every state that updates, connections, ends of goroutines and stops can lead to, in any order,
-- each tunnel of the manager has a goroutine that runs and was launched for its ID.
pub Reachable-IsManaged : (addr : String) (m : Manager) → Reachable addr m → IsManaged m
unfolding lookup
Reachable-IsManaged addr m start = record { owned = λ id t p. absurd (cc p); fresh = λ k le. refl }
Reachable-IsManaged addr m (next r step) = Step-IsManaged step (Reachable-IsManaged addr _ r)
