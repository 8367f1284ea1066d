-- ===== src/Network/Connections/Laws.antt =====
-- The dropped connections are a set of directed links.
use painless_mesh_simulator.Prelude.{ℕ, ◌≡◌, refl, true, not, ◌&&◌, ◌||◌, arith}
use painless_mesh_simulator.Platform.{Platform}
use painless_mesh_simulator.StdMap.{find, contains, pair_key}
use painless_mesh_simulator.StdMap.Laws.{find-insert, find-erase}
use painless_mesh_simulator.MinQueue.{MinQueue}
use painless_mesh_simulator.Network.State.{
  Network, DelayedMessage, delivery_key, ConnectionKey, same_link,
}
use painless_mesh_simulator.Network.Connections.{
  drop_connection, restore_connection, restore_all_connections, is_connection_active,
}

module _ ⦃p : Platform⦄ ⦃queues : MinQueue DelayedMessage delivery_key⦄ where
  pub active-drop :
      (a b from to : ℕ) (net : Network)
      → is_connection_active a b (drop_connection from to net)
        ≡ not (same_link a b from to) && is_connection_active a b net
  unfolding is_connection_active drop_connection contains
  active-drop a b from to net =
      ground (arith, find-insert {K = ConnectionKey} (a, b) (from, to) tt net.dropped_connections)

  pub active-restore :
      (a b from to : ℕ) (net : Network)
      → is_connection_active a b (restore_connection from to net)
        ≡ same_link a b from to || is_connection_active a b net
  unfolding is_connection_active restore_connection contains
  active-restore a b from to net =
      ground (arith, find-erase {K = ConnectionKey} (a, b) (from, to) net.dropped_connections)

  -- Dropping a link makes that link inactive and no other, restoring it makes that link active and
  -- no other, and restoring all makes every link active.
  pub connection_laws :
      (a b from to : ℕ) (net : Network)
      → (is_connection_active a b (drop_connection from to net)
          ≡ not (same_link a b from to) && is_connection_active a b net)
        × (is_connection_active a b (restore_connection from to net)
            ≡ same_link a b from to || is_connection_active a b net)
        × (is_connection_active a b (restore_all_connections net) ≡ true)
  unfolding is_connection_active restore_all_connections contains find
  connection_laws a b from to net =
      (active-drop a b from to net, active-restore a b from to net, refl)
