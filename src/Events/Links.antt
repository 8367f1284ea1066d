-- ===== src/Events/Links.antt =====
-- The events on one connection: dropping and restoring it.
use painless_mesh_simulator.Prelude.{ℕ, ◌≡◌, refl, Bool, not, ◌&&◌, ◌||◌, arith}
use painless_mesh_simulator.Result.{ok, ◌⨾◌}
use painless_mesh_simulator.Platform.{Platform}
use painless_mesh_simulator.Devices.{Devices}
use painless_mesh_simulator.StdMap.{pair_key}
use painless_mesh_simulator.MinQueue.{MinQueue}
use painless_mesh_simulator.Network.State.{Network, DelayedMessage, delivery_key, same_link}
use painless_mesh_simulator.Network.Connections.{
  is_connection_active, drop_connection, restore_connection,
}
use painless_mesh_simulator.Network.Connections.Laws.{active-drop, active-restore}
use painless_mesh_simulator.Events.{
  connection_drop, connection_restore, World, execute, drop_both, restore_both,
}

-- The connection from a to b joins these two nodes.
abbrev pub joins : ℕ → ℕ → ℕ → ℕ → Bool
joins a b x y = same_link a b x y || same_link a b y x

module _ ⦃p : Platform⦄ ⦃d : Devices⦄ ⦃queues : MinQueue DelayedMessage delivery_key⦄ where
  active-drop_both :
      (a b x y : ℕ) (net : Network)
      → is_connection_active a b (drop_both x y net)
        ≡ not (joins a b x y) && is_connection_active a b net
  unfolding drop_both
  active-drop_both a b x y net =
      ground (arith, active-drop a b y x (drop_connection x y net), active-drop a b x y net)

  active-restore_both :
      (a b x y : ℕ) (net : Network)
      → is_connection_active a b (restore_both x y net)
        ≡ joins a b x y || is_connection_active a b net
  unfolding restore_both
  active-restore_both a b x y net =
      ground
        (arith, active-restore a b y x (restore_connection x y net), active-restore a b x y net)

  -- Dropping or restoring the connection of two nodes never throws, does so in both directions, and
  -- leaves every other connection and the nodes as they are. Restoring what was dropped leaves the
  -- activity of a connection between other nodes as it was, and activates this one.
  drop_and_restore :
      (clock : ℕ × ℕ) (x y : ℕ) (world : World)
      → let dropped = execute clock (connection_drop x y) world in
        let restored = execute clock (connection_restore x y) world in
        let both =
          (execute clock (connection_drop x y) ⨾ execute clock (connection_restore x y)) world in
        (dropped.0 ≡ ok tt)
        × (restored.0 ≡ ok tt)
        × (both.0 ≡ ok tt)
        × (dropped.1.manager ≡ world.manager)
        × (restored.1.manager ≡ world.manager)
        × ((a b : ℕ)
            → (is_connection_active a b dropped.1.network
                ≡ not (joins a b x y) && is_connection_active a b world.network)
              × (is_connection_active a b restored.1.network
                  ≡ joins a b x y || is_connection_active a b world.network)
              × (is_connection_active a b both.1.network
                  ≡ joins a b x y || is_connection_active a b world.network))
  unfolding execute
  drop_and_restore clock x y world = (
    refl,
    refl,
    refl,
    refl,
    refl,
    λ a b. (
      active-drop_both a b x y world.network,
      active-restore_both a b x y world.network,
      ground (
        arith,
        active-restore_both a b x y (drop_both x y world.network),
        active-drop_both a b x y world.network,
      ),
    ),
  )
