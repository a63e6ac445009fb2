-- ===== src/Tunnel.antt =====
-- pkg/tunnel/manager.go: the tunnels to the broker. Each tunnel has a goroutine, told apart by a
-- handle that stands for the pointer `*tunnel`; the mutex makes each update one step.
pub mod Update
pub mod Routines
pub mod Replaced
pub mod Tests
use hub_agent_kubernetes.Prelude.{
  ℕ, ◌+◌, String, Bool, true, false, not, Option, none, some, List, [], ◌∷◌, Eq, ◌==◌, string_eq,
  nat_eq, if◌then◌else◌, GoMap, lookup, insert, delete, any, ◌≡◌,
}

pub record Endpoint : Type 0 where
  pub tunnel_id : String
  pub broker_endpoint : String

pub record Tunnel : Type 0 where
  pub handle : ℕ
  pub broker_endpoint : String
  pub cluster_endpoint : String

-- A goroutine of `launchTunnel`: `connected` once `t.Client` is set, `closed` once that has been
-- closed.
pub record Routine : Type 0 where
  pub tunnel_id : String
  pub broker_endpoint : String
  pub connected : Bool
  pub closed : Bool

pub record Manager : Type 0 where
  pub traefik_tunnel_addr : String
  pub tunnels : GoMap String Tunnel
  pub routines : GoMap ℕ Routine
  pub next_handle : ℕ

-- `NewManager`
abbrev pub new_manager : String → Manager
new_manager addr = record {
  traefik_tunnel_addr = addr;
  tunnels = [];
  routines = [];
  next_handle = 0;
}

-- `tunnel.Close`: without a client it does nothing.
unfoldable pub close : ℕ → Manager → Manager
close handle m = elim (lookup handle m.routines) [
  | none ↦ m
  | some r ↦
      if r.connected
      then record m { routines = insert handle (record r { closed = true }) m.routines }
      else m
]

unfoldable pub launch_tunnel : Endpoint → Manager → Manager
launch_tunnel endpoint m =
    let t = m.next_handle in
    record m {
      tunnels =
          insert endpoint.tunnel_id
            (record {
              handle = t;
              broker_endpoint = endpoint.broker_endpoint;
              cluster_endpoint = m.traefik_tunnel_addr;
            })
            m.tunnels;
      routines =
          insert t
            (record {
              tunnel_id = endpoint.tunnel_id;
              broker_endpoint = endpoint.broker_endpoint;
              connected = false;
              closed = false;
            })
            m.routines;
      next_handle = t + 1;
    }

-- `Close` and `delete`, for the tunnel of an ID.
unfoldable pub remove_tunnel : String → Tunnel → Manager → Manager
unfolding close
remove_tunnel id tun m =
    let closed = close tun.handle m in record closed { tunnels = delete id closed.tunnels }

-- One endpoint of the first loop of `updateTunnels`.
unfoldable pub update_endpoint : Endpoint → Manager → Manager
unfolding launch_tunnel remove_tunnel
update_endpoint endpoint m = elim (lookup endpoint.tunnel_id m.tunnels) [
  | none ↦ launch_tunnel endpoint m
  | some tun ↦
      if not (tun.broker_endpoint == endpoint.broker_endpoint)
      then launch_tunnel endpoint (remove_tunnel endpoint.tunnel_id tun m)
      else m
]

unfoldable pub update_endpoints : List Endpoint → Manager → Manager
unfolding update_endpoint
update_endpoints [] m = m
update_endpoints (endpoint ∷ endpoints) m = update_endpoints endpoints (update_endpoint endpoint m)

-- `_, found := currentTunnels[id]`
abbrev pub is_current : List Endpoint → String → Bool
is_current endpoints id = any (λ e. e.tunnel_id == id) endpoints

-- The second loop, over the tunnels that are left to look at.
unfoldable pub drop_tunnels : List Endpoint → GoMap String Tunnel → Manager → Manager
unfolding remove_tunnel
drop_tunnels endpoints [] m = m
drop_tunnels endpoints ((id, tun) ∷ rest) m =
    drop_tunnels endpoints rest (if is_current endpoints id then m else remove_tunnel id tun m)

-- `updateTunnels`; `none` is an error of `ListClusterTunnelEndpoints`.
unfoldable pub update_tunnels : Option (List Endpoint) → Manager → Manager
unfolding update_endpoints drop_tunnels
update_tunnels none m = m
update_tunnels (some endpoints) m =
    let updated = update_endpoints endpoints m in drop_tunnels endpoints updated.tunnels updated

-- The goroutine of a handle has a client.
unfoldable pub connect : ℕ → Manager → Manager
connect handle m = elim (lookup handle m.routines) [
  | none ↦ m
  | some r ↦ record m { routines = insert handle (record r { connected = true }) m.routines }
]

-- `launch` of a handle has returned: its goroutine deletes the tunnel of its ID and ends.
unfoldable pub finish : ℕ → Manager → Manager
finish handle m = elim (lookup handle m.routines) [
  | none ↦ m
  | some r ↦ record m {
    tunnels = delete r.tunnel_id m.tunnels;
    routines = delete handle m.routines;
  }
]

unfoldable pub stop_tunnels : GoMap String Tunnel → Manager → Manager
unfolding remove_tunnel
stop_tunnels [] m = m
stop_tunnels ((id, tun) ∷ rest) m = stop_tunnels rest (remove_tunnel id tun m)

-- `stop`
unfoldable pub stop : Manager → Manager
unfolding stop_tunnels
stop m = stop_tunnels m.tunnels m

-- What can happen to the manager, in any order.
pub data Step : Manager → Manager → Type 0 where
  updating : (answer : Option (List Endpoint)) (m : Manager) → Step m (update_tunnels answer m)
  connecting : (handle : ℕ) (m : Manager) → Step m (connect handle m)
  finishing : (handle : ℕ) (m : Manager) → Step m (finish handle m)
  stopping : (m : Manager) → Step m (stop m)

pub data Reachable (addr : String) : Manager → Type 0 where
  start : Reachable addr (new_manager addr)
  next : {m m' : Manager} → Reachable addr m → Step m m' → Reachable addr m'
