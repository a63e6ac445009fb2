-- ===== src/Tunnel/Replaced.antt =====
-- The goroutine of a tunnel that `updateTunnels` of pkg/tunnel/manager.go has replaced.
use hub_agent_kubernetes.Prelude.{
  ℕ, String, true, false, none, some, ◌==◌, string_eq, nat_eq, lookup, insert, delete, ◌≡◌, ◌≢◌,
  refl, sym, ap, ◌∙◌, arith, lookup-insert_self, lookup-insert_ne, lookup-delete_self,
  lookup-delete_ne, ==_ne, Bool-cases, inl, inr, Option-cases, eq_of_==,
}
use mathlib.Core.Path.{subst}
use hub_agent_kubernetes.Tunnel.{
  Endpoint, Tunnel, Routine, Manager, close, launch_tunnel, remove_tunnel, update_endpoint, finish,
}
use hub_agent_kubernetes.Tunnel.Routines.{Runs, IsManaged}

close-Runs :
    (k handle : ℕ) (id : String) (m : Manager) → Runs m handle id → Runs (close k m) handle id
unfolding close
close-Runs k handle id m (q, found, own) = elim (Option-cases (lookup k m.routines)) [
  | inl e ↦ rw (e, close) (q, found, own)
  | inr (r, e) ↦ elim (Bool-cases r.connected) [
    | inl c ↦
        let closed : Routine = record r { connected = true; closed = true } in
        rw (e, c, close)
          (elim (Bool-cases (k == handle)) [
            | inl here ↦
                let h = eq_of_== k handle here in
                let same : r ≡ q = cc (sym e ∙ ap (λ j. lookup j m.routines) h ∙ found) in
                (
                  closed,
                  ap (λ j. lookup j (insert k closed m.routines)) (sym h)
                      ∙ lookup-insert_self k closed m.routines,
                  ap (λ (x : Routine). x.tunnel_id) same ∙ own,
                )
            | inr other ↦
                let ne : k ≢ handle = ground (arith, other) in
                (q, lookup-insert_ne k handle closed m.routines ne ∙ found, own)
          ])
    | inr c ↦ rw (e, c, close) (q, found, own)
  ]
]

close-next_handle : (k : ℕ) (m : Manager) → (close k m).next_handle ≡ m.next_handle
unfolding close
close-next_handle k m = ground arith

-- The goroutine of an earlier tunnel of the ID ends after a new one was launched.
finish-launch_tunnel :
    (e : Endpoint) (m : Manager) (handle : ℕ)
    → Runs m handle e.tunnel_id
    → m.next_handle ≢ handle
    → (lookup e.tunnel_id (finish handle (launch_tunnel e m)).tunnels ≡ none)
      × Runs (finish handle (launch_tunnel e m)) m.next_handle e.tunnel_id
unfolding launch_tunnel finish
finish-launch_tunnel e m handle (r, found, own) h =
    let new : Routine = record {
      tunnel_id = e.tunnel_id;
      broker_endpoint = e.broker_endpoint;
      connected = false;
      closed = false;
    } in
    let old = lookup-insert_ne m.next_handle handle new m.routines h ∙ found in
    rw (old, own, finish)
      (
        lookup-delete_self e.tunnel_id _,
        (
          new,
          lookup-delete_ne handle m.next_handle (insert m.next_handle new m.routines)
                (λ p. h (sym p))
              ∙ lookup-insert_self m.next_handle new m.routines,
          refl,
        ),
      )

-- A tunnel whose endpoint has moved to another broker is forgotten once the goroutine that it had
-- before ends: the goroutine of the new tunnel runs, but the manager has no tunnel of this ID.
pub finish-update_endpoint :
    (e : Endpoint) (m : Manager) (t : Tunnel)
    → IsManaged m
    → lookup e.tunnel_id m.tunnels ≡ some t
    → t.broker_endpoint ≢ e.broker_endpoint
    → (lookup e.tunnel_id (finish t.handle (update_endpoint e m)).tunnels ≡ none)
      × Runs (finish t.handle (update_endpoint e m)) m.next_handle e.tunnel_id
unfolding update_endpoint remove_tunnel
finish-update_endpoint e m t v found moved =
    let differ = ==_ne t.broker_endpoint e.broker_endpoint moved in
    let closed = close t.handle m in
    let removed : Manager = record closed { tunnels = delete e.tunnel_id closed.tunnels } in
    let run = close-Runs t.handle t.handle e.tunnel_id m (v.owned e.tunnel_id t found) in
    let same = close-next_handle t.handle m in
    let new : removed.next_handle ≢ t.handle = λ p.
      let none_there = v.fresh t.handle (omega (arith, p, same)) in
      absurd (cc (sym none_there ∙ (v.owned e.tunnel_id t found).1)) in
    let state = finish t.handle (launch_tunnel e removed) in
    let (gone, still) = finish-launch_tunnel e removed t.handle run new in
    rw (found, differ, update_endpoint) (gone, subst (λ n. Runs state n e.tunnel_id) same still)
