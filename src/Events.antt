-- ===== src/Events.antt =====
-- The events of a scenario, include/simulator/event.hpp and src/scenario/events: each one changes the
-- node manager or the network simulator that it is executed on. The text on the console is left out.
pub mod Links
pub mod Degrade
pub mod Groups
pub mod Partitions
pub mod Healing
pub mod Nodes
pub mod Validity
use Prim.Native.String.{◌++◌ as ◌+++◌}
use painless_mesh_simulator.Prelude.{
  ℕ, zero, suc, ◌+◌, String, Bool, true, false, not, List, [], ◌∷◌, Option, none, some, length, leb,
  cast32, mul32, if◌then◌else◌,
}
use painless_mesh_simulator.Result.{
  Exception, invalid_argument, runtime_error, Result, ok, err, require, ◌>>=◌, ◌>>◌, Step, ◌⨾◌,
  always, checked,
}
use painless_mesh_simulator.Text.{to_string}
use painless_mesh_simulator.Platform.{Platform}
use painless_mesh_simulator.Devices.{Devices}
use painless_mesh_simulator.MinQueue.{MinQueue}
use painless_mesh_simulator.Network.State.{Network, DelayedMessage, delivery_key}
use painless_mesh_simulator.Network.Config.{DistributionType, LatencyConfig, PacketLossConfig}
use painless_mesh_simulator.Network.Latency.{set_latency}
use painless_mesh_simulator.Network.Loss.{set_packet_loss}
use painless_mesh_simulator.Network.Connections.{
  drop_connection, restore_connection, restore_all_connections,
}
use painless_mesh_simulator.Node.{VirtualNode, start, stop, crash, restart, set_partition_id}
use painless_mesh_simulator.NodeManager.{NodeManager, get_node, set_node, on_nodes}

module _ ⦃p : Platform⦄ where
  -- The classes derived from `Event`, each with its fields.
  pub data Event : Type 0 where
    node_start : (node_id : ℕ) → Event
    node_stop : (node_id : ℕ) (graceful : Bool) → Event
    node_crash : (node_id : ℕ) → Event
    node_restart : (node_id : ℕ) → Event
    connection_drop : (from_node to_node : ℕ) → Event
    connection_restore : (from_node to_node : ℕ) → Event
    connection_degrade : (from_node to_node latency_ms : ℕ) (packet_loss : p.Float) → Event
    network_partition : (partition_groups : List (List ℕ)) → Event
    network_heal : Event

  -- The first empty group, counted from i.
  unfoldable pub empty_group : ℕ → List (List ℕ) → Option ℕ
  empty_group i [] = none
  empty_group i ([] ∷ groups) = some i
  empty_group i ((id ∷ ids) ∷ groups) = empty_group (suc i) groups

  -- The constructor of `NetworkPartitionEvent`.
  unfoldable pub partition_event : List (List ℕ) → Result Event
  partition_event groups = do
    require (leb 2 (length groups))
        (invalid_argument "NetworkPartitionEvent requires at least 2 partition groups")
    elim (empty_group 0 groups) [
      | none ↦ ok (network_partition groups)
      | some i ↦ err (
          invalid_argument
            ("NetworkPartitionEvent: partition group " +++ to_string i +++ " is empty"))
    ]

module _ ⦃p : Platform⦄ ⦃queues : MinQueue DelayedMessage delivery_key⦄ where
  -- The latency and the packet loss of a degraded connection.
  unfoldable pub degraded_latency : ℕ → LatencyConfig
  degraded_latency latency_ms = record {
    min_ms = latency_ms;
    max_ms = mul32 latency_ms 2;
    distribution = DistributionType.uniform;
  }

  unfoldable pub degraded_loss : p.Float → PacketLossConfig
  degraded_loss packet_loss = record {
    probability = packet_loss;
    burst_mode = false;
    burst_length = 3;
  }

  unfoldable pub degrade : ℕ → ℕ → ℕ → p.Float → Step Network
  degrade from to latency_ms packet_loss =
      checked (set_latency from to (degraded_latency latency_ms))
      ⨾ checked (set_latency to from (degraded_latency latency_ms))
      ⨾ checked (set_packet_loss from to (degraded_loss packet_loss))
      ⨾ checked (set_packet_loss to from (degraded_loss packet_loss))

  unfoldable pub drop_both : ℕ → ℕ → Network → Network
  drop_both from to net = drop_connection to from (drop_connection from to net)

  unfoldable pub restore_both : ℕ → ℕ → Network → Network
  restore_both from to net = restore_connection to from (restore_connection from to net)

  -- dropConnectionsBetweenGroups: the inner loop, and the outer one.
  unfoldable pub drop_to_group : ℕ → List ℕ → Network → Network
  drop_to_group node1 [] net = net
  drop_to_group node1 (node2 ∷ group2) net = drop_to_group node1 group2 (drop_both node1 node2 net)

  unfoldable pub drop_connections_between_groups : List ℕ → List ℕ → Network → Network
  drop_connections_between_groups [] group2 net = net
  drop_connections_between_groups (node1 ∷ group1) group2 net =
      drop_connections_between_groups group1 group2 (drop_to_group node1 group2 net)

  -- The loop over j, for one i, and the loop over i.
  unfoldable pub drop_to_groups : List ℕ → List (List ℕ) → Network → Network
  drop_to_groups group [] net = net
  drop_to_groups group (other ∷ groups) net =
      drop_to_groups group groups (drop_connections_between_groups group other net)

  unfoldable pub drop_groups : List (List ℕ) → Network → Network
  drop_groups [] net = net
  drop_groups (group ∷ groups) net = drop_groups groups (drop_to_groups group groups net)

module _ ⦃p : Platform⦄ ⦃d : Devices⦄ ⦃queues : MinQueue DelayedMessage delivery_key⦄ where
  -- The two objects that `execute` gets.
  pub record World : Type 0 where
    pub manager : NodeManager
    pub network : Network

  abbrev pub on_manager : Step NodeManager → Step World
  on_manager f world =
      let (result, manager) = f world.manager in (result, record world { manager = manager })

  abbrev on_network : Step Network → Step World
  on_network f world =
      let (result, network) = f world.network in (result, record world { network = network })

  -- Look the node up, and call it through its pointer; `verb` is for the text of the exception.
  unfoldable pub with_node : String → ℕ → Step VirtualNode → Step NodeManager
  with_node verb node_id f manager = elim (get_node node_id manager) [
    | none ↦ (
      err (
          runtime_error
            ("Cannot " +++ verb +++ " node " +++ to_string node_id +++ ": node not found")),
      manager,
    )
    | some node ↦ let (result, node') = f node in (result, set_node node_id node' manager)
  ]

  abbrev pub when_running : Bool → Step VirtualNode → Step VirtualNode
  when_running wanted f node =
      if node.running
      then (if wanted then f node else (ok tt, node))
      else (if wanted then (ok tt, node) else f node)

  unfoldable pub mark_node : ℕ → ℕ → NodeManager → NodeManager
  mark_node i node_id manager = elim (get_node node_id manager) [
    | none ↦ manager
    | some node ↦ set_node node_id (set_partition_id (cast32 (i + 1)) node) manager
  ]

  unfoldable pub mark_group : ℕ → List ℕ → NodeManager → NodeManager
  mark_group i [] manager = manager
  mark_group i (node_id ∷ group) manager = mark_group i group (mark_node i node_id manager)

  unfoldable pub mark_groups : ℕ → List (List ℕ) → NodeManager → NodeManager
  mark_groups i [] manager = manager
  mark_groups i (group ∷ groups) manager = mark_groups (suc i) groups (mark_group i group manager)

  -- execute(manager, network) of each class. A clock reading is an argument where it is needed.
  abbrev execute_node_start : ℕ → ℕ → Step World
  execute_node_start node_id now =
      on_manager (with_node "start" node_id (when_running false (start now)))

  -- `graceful` only changes the text on the console.
  abbrev execute_node_stop : ℕ → Bool → ℕ → Step World
  execute_node_stop node_id graceful now =
      on_manager (with_node "stop" node_id (when_running true (always (stop now))))

  abbrev execute_node_crash : ℕ → ℕ → Step World
  execute_node_crash node_id now =
      on_manager (with_node "crash" node_id (when_running true (always (crash now))))

  abbrev execute_node_restart : ℕ → ℕ × ℕ → Step World
  execute_node_restart node_id (now, later) =
      on_manager (with_node "restart" node_id (restart now later))

  abbrev execute_connection_drop : ℕ → ℕ → Step World
  execute_connection_drop from to = on_network (always (drop_both from to))

  abbrev execute_connection_restore : ℕ → ℕ → Step World
  execute_connection_restore from to = on_network (always (restore_both from to))

  abbrev execute_connection_degrade : ℕ → ℕ → ℕ → p.Float → Step World
  execute_connection_degrade from to latency_ms packet_loss =
      on_network (degrade from to latency_ms packet_loss)

  abbrev execute_network_partition : List (List ℕ) → Step World
  execute_network_partition groups =
      on_network (always (drop_groups groups)) ⨾ on_manager (always (mark_groups 0 groups))

  abbrev execute_network_heal : Step World
  execute_network_heal =
      on_network (always restore_all_connections)
      ⨾ on_manager (always (on_nodes (set_partition_id 0)))

  -- The virtual call. An event reads the clock once, but for a restart, which reads it twice.
  unfoldable pub execute : ℕ × ℕ → Event → Step World
  execute (now, later) (node_start node_id) = execute_node_start node_id now
  execute (now, later) (node_stop node_id graceful) = execute_node_stop node_id graceful now
  execute (now, later) (node_crash node_id) = execute_node_crash node_id now
  execute clock (node_restart node_id) = execute_node_restart node_id clock
  execute clock (connection_drop from to) = execute_connection_drop from to
  execute clock (connection_restore from to) = execute_connection_restore from to
  execute clock (connection_degrade from to latency_ms packet_loss) =
      execute_connection_degrade from to latency_ms packet_loss
  execute clock (network_partition groups) = execute_network_partition groups
  execute clock network_heal = execute_network_heal
