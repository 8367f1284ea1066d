-- ===== src/Events/Validity.antt =====
-- The invariant of the node manager under the events.
use painless_mesh_simulator.Prelude.{
  ℕ, suc, ◌≡◌, refl, ◌∙◌, true, false, List, [], ◌∷◌, some, String, arith, Option-cases, inl, inr,
}
use painless_mesh_simulator.Result.{Step, always}
use painless_mesh_simulator.Platform.{Platform}
use painless_mesh_simulator.Devices.{Devices}
use painless_mesh_simulator.StdMap.{ℕ_key}
use painless_mesh_simulator.MinQueue.{MinQueue}
use painless_mesh_simulator.Network.State.{DelayedMessage, delivery_key}
use painless_mesh_simulator.Node.{
  VirtualNode, start, stop, crash, restart, set_running, set_partition_id,
}
use painless_mesh_simulator.NodeManager.{NodeManager, get_node, set_node}
use painless_mesh_simulator.NodeManager.Invariant.{
  IsValid, SameIds-IsValid, SameIds-map, start-id, stop-id,
}
use painless_mesh_simulator.Events.{
  Event, node_start, node_stop, node_crash, node_restart, connection_drop, connection_restore,
  connection_degrade, network_partition, network_heal, World, execute, with_node, when_running,
  mark_node, mark_group, mark_groups,
}
use painless_mesh_simulator.Events.Nodes.{insert-SameIds}

module _ ⦃p : Platform⦄ ⦃d : Devices⦄ ⦃queues : MinQueue DelayedMessage delivery_key⦄ where
  set_node-IsValid :
      (id : ℕ) (node node' : VirtualNode) (manager : NodeManager)
      → IsValid manager
      → get_node id manager ≡ some node
      → node'.node_id ≡ node.node_id
      → IsValid (set_node id node' manager)
  unfolding get_node set_node
  set_node-IsValid id node node' manager v h e =
      SameIds-IsValid manager _ (insert-SameIds id node node' manager.nodes v.sorted h e) v

  crash-id : (now : ℕ) (node : VirtualNode) → (crash now node).node_id ≡ node.node_id
  unfolding crash set_running
  crash-id now node = ground arith

  restart-id :
      (now later : ℕ) (node : VirtualNode) → (restart now later node).1.node_id ≡ node.node_id
  unfolding restart
  restart-id now later node = start-id later (stop now node) ∙ stop-id now node

  with_node-IsValid :
      (verb : String) (id : ℕ) (f : Step VirtualNode) (manager : NodeManager)
      → ((node : VirtualNode) → (f node).1.node_id ≡ node.node_id)
      → IsValid manager
      → IsValid (with_node verb id f manager).1
  unfolding with_node
  with_node-IsValid verb id f manager h v = elim (Option-cases (get_node id manager)) [
    | inl e ↦ rw (e, with_node) v
    | inr (node, e) ↦ rw (e, with_node) (set_node-IsValid id node (f node).1 manager v e (h node))
  ]

  set_partition_id-id :
      (i : ℕ) (node : VirtualNode) → (set_partition_id i node).node_id ≡ node.node_id
  unfolding set_partition_id
  set_partition_id-id i node = refl

  mark_node-IsValid :
      (i id : ℕ) (manager : NodeManager) → IsValid manager → IsValid (mark_node i id manager)
  unfolding mark_node
  mark_node-IsValid i id manager v = elim (Option-cases (get_node id manager)) [
    | inl e ↦ rw (e, mark_node) v
    | inr (node, e) ↦
        rw (e, mark_node) (set_node-IsValid id node _ manager v e (set_partition_id-id _ node))
  ]

  mark_group-IsValid :
      (i : ℕ) (group : List ℕ) (manager : NodeManager)
      → IsValid manager
      → IsValid (mark_group i group manager)
  unfolding mark_group
  mark_group-IsValid i [] manager v = v
  mark_group-IsValid i (id ∷ group) manager v =
      mark_group-IsValid i group (mark_node i id manager) (mark_node-IsValid i id manager v)

  mark_groups-IsValid :
      (i : ℕ) (groups : List (List ℕ)) (manager : NodeManager)
      → IsValid manager
      → IsValid (mark_groups i groups manager)
  unfolding mark_groups
  mark_groups-IsValid i [] manager v = v
  mark_groups-IsValid i (group ∷ groups) manager v =
      mark_groups-IsValid (suc i) groups (mark_group i group manager)
        (mark_group-IsValid i group manager v)

  -- Every event, whether it throws or not, keeps the invariant of the node manager: identifiers in
  -- rising order, each node under its own identifier, none of them 0, and at most 1000 nodes.
  pub execute-IsValid :
      (clock : ℕ × ℕ) (e : Event) (world : World)
      → IsValid world.manager
      → IsValid (execute clock e world).1.manager
  unfolding execute
  execute-IsValid (now, later) (node_start id) world v =
      with_node-IsValid "start" id (when_running false (start now)) world.manager
        (λ node. ground (arith, start-id now node)) v
  execute-IsValid (now, later) (node_stop id graceful) world v =
      with_node-IsValid "stop" id (when_running true (always (stop now))) world.manager
        (λ node. ground (arith, stop-id now node)) v
  execute-IsValid (now, later) (node_crash id) world v =
      with_node-IsValid "crash" id (when_running true (always (crash now))) world.manager
        (λ node. ground (arith, crash-id now node)) v
  execute-IsValid (now, later) (node_restart id) world v =
      with_node-IsValid "restart" id (restart now later) world.manager (restart-id now later) v
  execute-IsValid (now, later) (connection_drop x y) world v = v
  execute-IsValid (now, later) (connection_restore x y) world v = v
  execute-IsValid (now, later) (connection_degrade x y l q) world v = v
  execute-IsValid (now, later) (network_partition groups) world v =
      mark_groups-IsValid 0 groups world.manager v
  execute-IsValid (now, later) network_heal world v =
      SameIds-IsValid world.manager _
        (SameIds-map (set_partition_id 0) world.manager.nodes (set_partition_id-id 0)) v
