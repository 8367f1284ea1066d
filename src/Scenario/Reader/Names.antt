-- ===== src/Scenario/Reader/Names.antt =====
-- The names of enumerators in a scenario file: stringToTopologyType, stringToEventAction and the two
-- functions for latency distributions.
use Prim.Native.String.{◌++◌}
use painless_mesh_simulator.Prelude.{String, Option, none, some, ◌||◌, str_eq, if◌then◌else◌}
use painless_mesh_simulator.Result.{Result, ok, err, invalid_argument, runtime_error}
use painless_mesh_simulator.Text.Lower.{lower}
use painless_mesh_simulator.Network.Config.{DistributionType}
use painless_mesh_simulator.Scenario.{TopologyType, EventAction}

unfoldable pub distribution_type_to_string : DistributionType → String
distribution_type_to_string DistributionType.uniform = "uniform"
distribution_type_to_string DistributionType.normal = "normal"
distribution_type_to_string DistributionType.exponential = "exponential"

unfoldable pub string_to_distribution_type : String → Result DistributionType
string_to_distribution_type str =
    let name = lower str in
    if str_eq name "uniform"
    then ok DistributionType.uniform
    else if str_eq name "normal" || str_eq name "gaussian"
    then ok DistributionType.normal
    else if str_eq name "exponential"
    then ok DistributionType.exponential
    else err (invalid_argument ("Unknown distribution type: " ++ str))

unfoldable pub string_to_topology_type : String → TopologyType
string_to_topology_type type_str =
    let name = lower type_str in
    if str_eq name "random"
    then TopologyType.random
    else if str_eq name "star"
    then TopologyType.star
    else if str_eq name "ring"
    then TopologyType.ring
    else if str_eq name "mesh"
    then TopologyType.mesh
    else if str_eq name "custom"
    then TopologyType.custom
    else TopologyType.random

-- The action of a name in lower case.
unfoldable pub named_action : String → Option EventAction
named_action name =
    if str_eq name "stop_node"
    then some EventAction.stop_node
    else if str_eq name "start_node"
    then some EventAction.start_node
    else if str_eq name "restart_node"
    then some EventAction.restart_node
    else if str_eq name "crash_node"
    then some EventAction.crash_node
    else if str_eq name "node_crash"
    then some EventAction.crash_node
    else if str_eq name "remove_node"
    then some EventAction.remove_node
    else if str_eq name "add_nodes"
    then some EventAction.add_nodes
    else if str_eq name "partition_network"
    then some EventAction.partition_network
    else if str_eq name "heal_partition"
    then some EventAction.heal_partition
    else if str_eq name "break_link"
    then some EventAction.break_link
    else if str_eq name "restore_link"
    then some EventAction.restore_link
    else if str_eq name "inject_message"
    then some EventAction.inject_message
    else if str_eq name "set_network_quality"
    then some EventAction.set_network_quality
    else if str_eq name "connection_drop"
    then some EventAction.connection_drop
    else if str_eq name "connection_restore"
    then some EventAction.connection_restore
    else if str_eq name "connection_degrade"
    then some EventAction.connection_degrade
    else none

unfoldable pub string_to_event_action : String → Result EventAction
unfolding named_action
string_to_event_action action_str = elim (named_action (lower action_str)) [
  | some action ↦ ok action
  | none ↦ err (runtime_error ("Unknown event action: " ++ action_str))
]
