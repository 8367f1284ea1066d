-- ===== src/Samples/ReaderRuns.antt =====
-- The theorems on the scenario reader at concrete inputs.
use painless_mesh_simulator.Prelude.{ℕ, ◌+◌, ◌≡◌, ◌↔◌, refl, List, [], ◌∷◌, some, String, length}
use painless_mesh_simulator.Result.{ok}
use painless_mesh_simulator.Text.Lower.{lower}
use painless_mesh_simulator.Network.Config.{
  DistributionType, LatencyConfig, loss_default, bandwidth_default,
}
use painless_mesh_simulator.Scenario.{
  EventAction, ScenarioConfig, NodeConfigExtended, NodeTemplate, ConnectionLatencyConfig,
  ConnectionPacketLossConfig, ConnectionBandwidthConfig,
}
use painless_mesh_simulator.Scenario.Reader.Yaml.{get, sequence_at, read_each}
use painless_mesh_simulator.Scenario.Reader.Names.{
  string_to_event_action, string_to_distribution_type, distribution_type_to_string,
}
use painless_mesh_simulator.Scenario.Reader.ActionNames.{IsNameOf, string_to_event_action_iff}
use painless_mesh_simulator.Scenario.Reader.Chosen.{ConnectionsOf}
use painless_mesh_simulator.Scenario.Reader.NetworkSection.{
  distribution_or, parse_default_latency, parse_connection_latency, parse_latency, parse_structured,
  parse_default_loss, parse_connection_loss, parse_default_bandwidth, parse_connection_bandwidth,
}
use painless_mesh_simulator.Scenario.Reader.Inherited.{
  LatencyChosen, LossChosen, BandwidthChosen, connections_inherit,
}
use painless_mesh_simulator.Scenario.Reader.Loader.{
  load_from_string, simulation_default, network_default, topology_default, metrics_default, section,
}
use painless_mesh_simulator.Scenario.Reader.NodeSection.{
  node_default, parse_node, parse_template, with_config_section,
}
use painless_mesh_simulator.Scenario.Templates.{generate_node_id}
use painless_mesh_simulator.Scenario.Reader.LoadedNodes.{Sorted, loaded_nodes}
use painless_mesh_simulator.Samples.{sample_platform}
use painless_mesh_simulator.Samples.YamlTree.{Tree, tree_yaml, latency_tree, empty_tree}

string_to_event_action_iff_example :
    (string_to_event_action "NODE_Crash" ≡ ok EventAction.crash_node)
    ↔ IsNameOf EventAction.crash_node (lower "NODE_Crash")
string_to_event_action_iff_example = string_to_event_action_iff "NODE_Crash" EventAction.crash_node

abbrev default_latency : LatencyConfig
default_latency = record { min_ms = 20; max_ms = 50; distribution = DistributionType.normal }

abbrev latencies : List ConnectionLatencyConfig
latencies =
    record {
      from = "a";
      to = "";
      config = record { min_ms = 20; max_ms = 90; distribution = DistributionType.normal };
    }
    ∷ []

read_latency : parse_latency latency_tree ≡ ok (default_latency, latencies)
unfolding parse_latency parse_default_latency get sequence_at read_each parse_connection_latency
    distribution_or string_to_distribution_type lower distribution_type_to_string
read_latency = refl

read_loss :
    parse_structured loss_default parse_default_loss parse_connection_loss empty_tree
    ≡ ok (loss_default, [])
unfolding parse_structured sequence_at read_each
read_loss = refl

read_bandwidth :
    parse_structured bandwidth_default parse_default_bandwidth parse_connection_bandwidth empty_tree
    ≡ ok (bandwidth_default, [])
unfolding parse_structured sequence_at read_each
read_bandwidth = refl

connections_inherit_example :
    ConnectionsOf
      (λ n (c : ConnectionLatencyConfig). LatencyChosen default_latency n c.config)
      latency_tree
      latencies
    × ConnectionsOf
        (λ n (c : ConnectionPacketLossConfig). LossChosen loss_default n c.config)
        empty_tree
        []
    × ConnectionsOf
        (λ n (c : ConnectionBandwidthConfig). BandwidthChosen bandwidth_default n c.config)
        empty_tree
        []
connections_inherit_example =
    connections_inherit latency_tree empty_tree empty_tree default_latency latencies loss_default []
      bandwidth_default [] read_latency read_loss read_bandwidth

abbrev read_node : String → NodeConfigExtended
read_node id = record node_default { id = id; node_id = 7 }

abbrev sensors : NodeTemplate
sensors = record {
  template_name = "sensor";
  count = 3;
  id_prefix = "sensor-";
  base_config = record node_default { node_type = "sensor" };
}

abbrev read_scenario : ScenarioConfig
read_scenario = record {
  simulation = simulation_default;
  network = network_default;
  nodes = read_node "gateway" ∷ read_node "sink" ∷ [];
  templates = sensors ∷ [];
  topology = topology_default;
  events = [];
  metrics = metrics_default;
}

abbrev hash : String → ℕ
hash s = 7

read_document : load_from_string hash "nodes" "earlier" ≡ (some read_scenario, "earlier")
unfolding load_from_string section sequence_at parse_node get read_each with_config_section
    parse_template generate_node_id node_default
read_document = refl

loaded_nodes_example :
    (◌≡◌ {A = String} "earlier" "earlier")
    × ((root : Tree) × (items : List Tree) × (tree_yaml.load "nodes" ≡ ok root)
        × (sequence_at root "nodes" ≡ ok items)
        × Sorted hash items read_scenario.nodes read_scenario.templates
        × (length read_scenario.nodes + length read_scenario.templates ≡ length items))
loaded_nodes_example = loaded_nodes hash "nodes" "earlier" "earlier" read_scenario read_document
