-- ===== src/Network/Connections.antt =====
-- Dropped connections: `dropConnection`, `restoreConnection`, `restoreAllConnections` and
-- `isConnectionActive`. A connection is directed.
pub mod Laws
use painless_mesh_simulator.Prelude.{ℕ, Bool, not, []}
use painless_mesh_simulator.Platform.{Platform}
use painless_mesh_simulator.StdMap.{insert, erase, contains, pair_key}
use painless_mesh_simulator.MinQueue.{MinQueue}
use painless_mesh_simulator.Network.State.{Network, DelayedMessage, delivery_key}

module _ ⦃p : Platform⦄ ⦃queues : MinQueue DelayedMessage delivery_key⦄ where
  unfoldable pub drop_connection : ℕ → ℕ → Network → Network
  drop_connection from to net = record net {
    dropped_connections = insert (from, to) tt net.dropped_connections;
  }

  unfoldable pub restore_connection : ℕ → ℕ → Network → Network
  restore_connection from to net = record net {
    dropped_connections = erase (from, to) net.dropped_connections;
  }

  unfoldable pub restore_all_connections : Network → Network
  restore_all_connections net = record net { dropped_connections = [] }

  unfoldable pub is_connection_active : ℕ → ℕ → Network → Bool
  is_connection_active from to net = not (contains (from, to) net.dropped_connections)
