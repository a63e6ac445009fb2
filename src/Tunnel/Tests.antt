-- ===== src/Tunnel/Tests.antt =====
-- An input for each theorem on the tunnels that has hypotheses.
use hub_agent_kubernetes.Prelude.{
  none, some, [], ◌∷◌, ◌≡◌, refl, lookup, insert, str_iff, string_eq, nat_eq,
}
use hub_agent_kubernetes.Tunnel.{
  Endpoint, Tunnel, Manager, new_manager, update_endpoint, update_tunnels, finish, updating,
  Reachable, start, next,
}
use hub_agent_kubernetes.Tunnel.Update.{broker, update_tunnels-listed}
use hub_agent_kubernetes.Tunnel.Routines.{Runs, IsManaged, Reachable-IsManaged}
use hub_agent_kubernetes.Tunnel.Replaced.{finish-update_endpoint}

abbrev at_a : Endpoint
at_a = record { tunnel_id = "t1"; broker_endpoint = "wss://a" }

abbrev at_b : Endpoint
at_b = record { tunnel_id = "t1"; broker_endpoint = "wss://b" }

abbrev one : Manager
one = update_tunnels (some (at_a ∷ [])) (new_manager "traefik:9901")

one-Reachable : Reachable "traefik:9901" one
one-Reachable = next start (updating (some (at_a ∷ [])) (new_manager "traefik:9901"))

update_tunnels-listed_example : broker (update_tunnels (some (at_b ∷ [])) one) "t1" ≡ some "wss://b"
update_tunnels-listed_example = update_tunnels-listed (at_b ∷ []) one "t1" (refl, tt)

Reachable-IsManaged_example : IsManaged one
Reachable-IsManaged_example = Reachable-IsManaged "traefik:9901" one one-Reachable

abbrev tunnel_a : Tunnel
tunnel_a = record { handle = 0; broker_endpoint = "wss://a"; cluster_endpoint = "traefik:9901" }

one-tunnel : lookup "t1" one.tunnels ≡ some tunnel_a
unfolding update_tunnels lookup insert
one-tunnel = refl

finish-update_endpoint_example :
    (lookup "t1" (finish 0 (update_endpoint at_b one)).tunnels ≡ none)
    × Runs (finish 0 (update_endpoint at_b one)) one.next_handle "t1"
finish-update_endpoint_example =
    finish-update_endpoint at_b one tunnel_a (Reachable-IsManaged "traefik:9901" one one-Reachable)
      one-tunnel (λ e. cc ((str_iff "wss://a" "wss://b").1 e))
