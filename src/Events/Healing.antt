-- ===== src/Events/Healing.antt =====
-- The event that heals a network.
use painless_mesh_simulator.Prelude.{ℕ, ◌≡◌, refl, true, [], ◌∷◌, map, arith}
use painless_mesh_simulator.Result.{ok}
use painless_mesh_simulator.Platform.{Platform}
use painless_mesh_simulator.Devices.{Devices}
use painless_mesh_simulator.StdMap
use painless_mesh_simulator.StdMap.{StdMap, ℕ_key, same, pair_key}
use painless_mesh_simulator.MinQueue.{MinQueue}
use painless_mesh_simulator.Network.State.{DelayedMessage, delivery_key}
use painless_mesh_simulator.Network.Connections.{is_connection_active}
use painless_mesh_simulator.Network.Connections.Laws.{connection_laws}
use painless_mesh_simulator.Node.{VirtualNode, set_partition_id}
use painless_mesh_simulator.NodeManager.{NodeManager, get_node, on_nodes}
use painless_mesh_simulator.Events.{network_heal, World, execute}
use painless_mesh_simulator.Events.Partitions.{mapped}

module _ ⦃p : Platform⦄ ⦃d : Devices⦄ ⦃queues : MinQueue DelayedMessage delivery_key⦄ where
  find-on_nodes :
      (f : VirtualNode → VirtualNode) (a : ℕ) (nodes : StdMap ℕ VirtualNode)
      → StdMap.find a (map (λ e. (e.0, f e.1)) nodes) ≡ mapped f (StdMap.find a nodes)
  unfolding StdMap.find
  find-on_nodes f a [] = refl
  find-on_nodes f a ((i, x) ∷ nodes) = ground (arith, find-on_nodes f a nodes)

  heal-get :
      (a : ℕ) (manager : NodeManager)
      → get_node a (on_nodes (set_partition_id 0) manager)
        ≡ mapped (set_partition_id 0) (get_node a manager)
  unfolding get_node
  heal-get a manager = find-on_nodes (set_partition_id 0) a manager.nodes

  -- Healing never throws. After it every connection is active, also those that were dropped one by
  -- one, every node is in partition 0, and nothing else of a node changes.
  pub heal_restores :
      (clock : ℕ × ℕ) (world : World)
      → let (result, after) = execute clock network_heal world in
        (result ≡ ok tt)
        × ((a b : ℕ) → is_connection_active a b after.network ≡ true)
        × ((a : ℕ)
            → get_node a after.manager ≡ mapped (set_partition_id 0) (get_node a world.manager))
  unfolding execute
  heal_restores clock world =
      (refl, (λ a b. (connection_laws a b a b world.network).2), λ a. heal-get a world.manager)
