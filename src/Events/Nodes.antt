-- ===== src/Events/Nodes.antt =====
-- The events on one node, and the invariant of the node manager under all events.
use Prim.Native.String.{◌++◌ as ◌+++◌}
use painless_mesh_simulator.Prelude.{
  ℕ, ◌<◌, ◌≡◌, ◌≢◌, refl, ◌∙◌, true, false, [], ◌∷◌, Option, none, some, String, arith,
  Option-cases, inl, inr, if◌then◌else◌, add32,
}
use painless_mesh_simulator.Result.{Exception, Result, ok, err, runtime_error, Step, always}
use painless_mesh_simulator.Text.{to_string}
use painless_mesh_simulator.Platform.{Platform}
use painless_mesh_simulator.Devices.{Devices}
use painless_mesh_simulator.StdMap
use painless_mesh_simulator.StdMap.{StdMap, ℕ_key, same}
use painless_mesh_simulator.StdMap.Laws.{find-insert, find-insert_self, IsSorted, Above, eq_of_same}
use painless_mesh_simulator.MinQueue.{MinQueue}
use painless_mesh_simulator.Network.State.{DelayedMessage, delivery_key}
use painless_mesh_simulator.Node.{
  VirtualNode, start, stop, crash, restart, set_running, prepare, setup_firmware,
  route_callbacks_to_firmware, firmware_map,
}
use painless_mesh_simulator.NodeManager.{NodeManager, get_node, set_node}
use painless_mesh_simulator.NodeManager.Invariant.{SameIds, SameIds-refl}
use painless_mesh_simulator.Events.{
  Event, node_start, node_stop, node_crash, node_restart, connection_drop, connection_restore,
  connection_degrade, network_partition, network_heal, World, execute, on_manager, with_node,
  when_running,
}

module _ ⦃p : Platform⦄ ⦃d : Devices⦄ ⦃queues : MinQueue DelayedMessage delivery_key⦄ where
  -- The node that an event is about, and the verb of its complaint.
  abbrev about : Event → Option (ℕ × String)
  about (node_start id) = some (id, "start")
  about (node_stop id graceful) = some (id, "stop")
  about (node_crash id) = some (id, "crash")
  about (node_restart id) = some (id, "restart")
  about _ = none

  -- What the set-up of the node's firmware throws, where it is still to be done.
  abbrev setup_error : VirtualNode → Option Exception
  setup_error node = elim node.firmware [
    | none ↦ none
    | some f ↦
        if node.firmware_initialized
        then none
        else (d.setup (d.initialize node.node_id (firmware_map node.config) f)).1
  ]

  abbrev throws : Option Exception → Result (Unit {0})
  throws none = ok tt
  throws (some e) = err e

  -- A node that does not run starts if it has a mesh and its firmware can be set up.
  abbrev pub start_result : VirtualNode → Result (Unit {0})
  start_result node =
      if node.has_mesh
      then throws (setup_error node)
      else err (runtime_error "Mesh instance not initialized")

  -- What the event makes of the node.
  abbrev AfterEvent : Event → VirtualNode → Result (Unit {0}) → VirtualNode → Type 0
  AfterEvent (node_start id) node result node' =
      (result ≡ (if node.running then ok tt else start_result node))
      × (result ≡ ok tt → node'.running ≡ true)
      × (node.running ≡ true → (result ≡ ok tt) × (node' ≡ node))
      × (node'.metrics.crash_count ≡ node.metrics.crash_count)
  AfterEvent (node_stop id graceful) node result node' =
      (result ≡ ok tt)
      × (node'.running ≡ false)
      × (node'.metrics.crash_count ≡ node.metrics.crash_count)
  AfterEvent (node_crash id) node result node' =
      (result ≡ ok tt)
      × (node'.running ≡ false)
      × (node'.metrics.crash_count
          ≡ (if node.running then add32 node.metrics.crash_count 1 else node.metrics.crash_count))
  AfterEvent (node_restart id) node result node' =
      (result ≡ start_result node)
      × (result ≡ ok tt → node'.running ≡ true)
      × (node'.metrics.crash_count ≡ node.metrics.crash_count)
  AfterEvent _ node result node' = Unit

  start-crashes :
      (now : ℕ) (node : VirtualNode)
      → (start now node).1.metrics.crash_count ≡ node.metrics.crash_count
  unfolding start prepare setup_firmware route_callbacks_to_firmware set_running
  start-crashes now node = ground arith

  start-running :
      (now : ℕ) (node : VirtualNode)
      → (start now node).0 ≡ ok tt
      → (start now node).1.running ≡ true
  unfolding start set_running
  start-running now node h = ground arith

  start-result :
      (now : ℕ) (node : VirtualNode) → node.running ≡ false → (start now node).0 ≡ start_result node
  unfolding start prepare setup_firmware route_callbacks_to_firmware set_running
  start-result now node h = ground (arith, h)

  stop-running : (now : ℕ) (node : VirtualNode) → (stop now node).running ≡ false
  unfolding stop set_running
  stop-running now node = ground arith

  stop-crashes :
      (now : ℕ) (node : VirtualNode)
      → (stop now node).metrics.crash_count ≡ node.metrics.crash_count
  unfolding stop set_running
  stop-crashes now node = ground arith

  crash-running : (now : ℕ) (node : VirtualNode) → (crash now node).running ≡ false
  unfolding crash set_running
  crash-running now node = ground arith

  crash-crashes :
      (now : ℕ) (node : VirtualNode)
      → (crash now node).metrics.crash_count
        ≡ (if node.running then add32 node.metrics.crash_count 1 else node.metrics.crash_count)
  unfolding crash set_running
  crash-crashes now node = ground arith

  restart-running :
      (now later : ℕ) (node : VirtualNode)
      → (restart now later node).0 ≡ ok tt
      → (restart now later node).1.running ≡ true
  unfolding restart
  restart-running now later node h = start-running later (stop now node) h

  stop-start_result :
      (now : ℕ) (node : VirtualNode) → start_result (stop now node) ≡ start_result node
  unfolding stop set_running
  stop-start_result now node = ground arith

  restart-result :
      (now later : ℕ) (node : VirtualNode) → (restart now later node).0 ≡ start_result node
  unfolding restart
  restart-result now later node =
      start-result later (stop now node) (stop-running now node) ∙ stop-start_result now node

  restart-crashes :
      (now later : ℕ) (node : VirtualNode)
      → (restart now later node).1.metrics.crash_count ≡ node.metrics.crash_count
  unfolding restart
  restart-crashes now later node = start-crashes later (stop now node) ∙ stop-crashes now node

  -- The call that an event makes on its node.
  abbrev on_node : ℕ × ℕ → Event → Step VirtualNode
  on_node (now, later) (node_start id) = when_running false (start now)
  on_node (now, later) (node_stop id graceful) = when_running true (always (stop now))
  on_node (now, later) (node_crash id) = when_running true (always (crash now))
  on_node (now, later) (node_restart id) = restart now later
  on_node clock _ = always (λ node. node)

  on_node-AfterEvent :
      (clock : ℕ × ℕ) (e : Event) (node : VirtualNode)
      → AfterEvent e node (on_node clock e node).0 (on_node clock e node).1
  on_node-AfterEvent (now, later) (node_start id) node = (
    ground (arith, start-result now node),
    ground (arith, start-running now node),
    ground arith,
    ground (arith, start-crashes now node),
  )
  on_node-AfterEvent (now, later) (node_stop id graceful) node =
      ground (arith, stop-running now node, stop-crashes now node)
  on_node-AfterEvent (now, later) (node_crash id) node =
      ground (arith, crash-running now node, crash-crashes now node)
  on_node-AfterEvent (now, later) (node_restart id) node = (
    restart-result now later node,
    restart-running now later node,
    restart-crashes now later node,
  )
  on_node-AfterEvent (now, later) (connection_drop x y) node = tt
  on_node-AfterEvent (now, later) (connection_restore x y) node = tt
  on_node-AfterEvent (now, later) (connection_degrade x y l q) node = tt
  on_node-AfterEvent (now, later) (network_partition groups) node = tt
  on_node-AfterEvent (now, later) network_heal node = tt

  -- What is found at the node: an error and no change where it is missing, else the changed node.
  abbrev pub FoundNode :
      Event → ℕ → String → Option VirtualNode → Result (Unit {0}) → Option VirtualNode → Type 0
  FoundNode e id verb none result found =
      (result
        ≡ err (
            runtime_error
              ("Cannot " +++ verb +++ " node " +++ to_string id +++ ": node not found")))
      × (found ≡ none)
  FoundNode e id verb (some node) result found =
      (node' : VirtualNode) × (found ≡ some node') × AfterEvent e node result node'

  with_node-outcome :
      (clock : ℕ × ℕ) (e : Event) (id : ℕ) (verb : String) (manager : NodeManager)
      → let (result, after) = with_node verb id (on_node clock e) manager in
        ((j : ℕ) → j ≢ id → get_node j after ≡ get_node j manager)
        × FoundNode e id verb (get_node id manager) result (get_node id after)
  unfolding with_node get_node set_node
  with_node-outcome clock e id verb manager = elim (Option-cases (StdMap.find id manager.nodes)) [
    | inl h ↦ rw (h, with_node, get_node) ((λ j ne. refl), ground (arith, h))
    | inr (node, h) ↦
        rw (h, with_node, get_node)
          (
            (λ j ne. ground (
              arith,
              ne,
              eq_of_same {K = ℕ} j id,
              find-insert {K = ℕ} j id (on_node clock e node).1 manager.nodes,
            )),
            (
              (on_node clock e node).1,
              find-insert_self {K = ℕ} id (on_node clock e node).1 manager.nodes,
              on_node-AfterEvent clock e node,
            ),
          )
  ]

  execute-about :
      (clock : ℕ × ℕ) (e : Event) (id : ℕ) (verb : String) (world : World)
      → about e ≡ some (id, verb)
      → execute clock e world ≡ on_manager (with_node verb id (on_node clock e)) world
  unfolding execute
  execute-about (now, later) (node_start i) id verb world h = ground (arith, h)
  execute-about (now, later) (node_stop i graceful) id verb world h = ground (arith, h)
  execute-about (now, later) (node_crash i) id verb world h = ground (arith, h)
  execute-about (now, later) (node_restart i) id verb world h = ground (arith, h)
  execute-about (now, later) (connection_drop x y) id verb world h = ground (arith, h)
  execute-about (now, later) (connection_restore x y) id verb world h = ground (arith, h)
  execute-about (now, later) (connection_degrade x y l q) id verb world h = ground (arith, h)
  execute-about (now, later) (network_partition groups) id verb world h = ground (arith, h)
  execute-about (now, later) network_heal id verb world h = ground (arith, h)

  -- Starting, stopping, crashing and restarting a node. A node that the manager does not have makes
  -- the event throw a `runtime_error` that names it, and nothing is found then either. Else a start of a
  -- running node does nothing, and a start of another one and every restart, also of a node that runs,
  -- throw only where the node has no mesh or the set-up of its firmware, which is still to be done,
  -- throws; without an exception the node runs then. A stop and a crash never throw and leave it not
  -- running. Of the four only a crash of a running node counts a crash (a 32-bit number). No other node
  -- and no part of the network changes.
  pub node_event_outcome :
      (clock : ℕ × ℕ) (e : Event) (id : ℕ) (verb : String) (world : World)
      → about e ≡ some (id, verb)
      → let (result, after) = execute clock e world in
        (after.network ≡ world.network)
        × ((j : ℕ) → j ≢ id → get_node j after.manager ≡ get_node j world.manager)
        × FoundNode e id verb (get_node id world.manager) result (get_node id after.manager)
  node_event_outcome clock e id verb world h =
      let outcome = with_node-outcome clock e id verb world.manager in
      rw (execute-about clock e id verb world h) (refl, outcome.0, outcome.1)

  find-Above :
      (k j : ℕ) (m : StdMap ℕ VirtualNode) → k < j → Above {K = ℕ} j m → StdMap.find k m ≡ none
  unfolding StdMap.find
  find-Above k j [] h a = refl
  find-Above k j ((i, z) ∷ m) h a = ground (arith, find-Above k j m h a.1)

  -- A node stored again under its own identifier, changed but not renamed.
  pub insert-SameIds :
      (k : ℕ) (x y : VirtualNode) (m : StdMap ℕ VirtualNode)
      → IsSorted {K = ℕ} m
      → StdMap.find k m ≡ some x
      → y.node_id ≡ x.node_id
      → SameIds m (StdMap.insert k y m)
  unfolding StdMap.find StdMap.insert
  insert-SameIds k x y [] s h e = ground (arith, h)
  insert-SameIds k x y ((i, z) ∷ m) s h e =
      ground (arith, SameIds-refl m, insert-SameIds k x y m s.1, find-Above k i m)
