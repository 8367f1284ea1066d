-- ===== src/Scenario/Reader/Loader.antt =====
-- `loadFromString`, `loadFromFile` and `validate`. The loader's state is its last error.
use Prim.Native.String.{◌++◌}
use painless_mesh_simulator.Prelude.{
  ℕ, String, Bool, true, false, List, [], ◌∷◌, Option, none, some, if◌then◌else◌, length, str_eq,
}
use painless_mesh_simulator.Platform.{Platform}
use painless_mesh_simulator.Result.{
  Exception, invalid_argument, out_of_range, runtime_error, yaml_exception, Result, ok, err, ◌>>=◌,
}
use painless_mesh_simulator.Text.{to_string}
use painless_mesh_simulator.Network.Config.{latency_default, loss_default, bandwidth_default}
use painless_mesh_simulator.Scenario.{
  TopologyType, NodeConfigExtended, NodeTemplate, SimulationConfig, NetworkConfig, TopologyConfig,
  MetricsConfig, ScenarioConfig, ValidationError,
}
use painless_mesh_simulator.Scenario.Validation.{get_validation_errors}
use painless_mesh_simulator.Scenario.Reader.Yaml.{Yaml, sequence_at, read_each}
use painless_mesh_simulator.Scenario.Reader.NetworkSection.{parse_network}
use painless_mesh_simulator.Scenario.Reader.NodeSection.{parse_node, parse_template}
use painless_mesh_simulator.Scenario.Reader.Sections.{
  parse_simulation, parse_topology, parse_event, parse_metrics,
}

module _ ⦃p : Platform⦄ where
  -- The structs as their default constructors leave them.
  unfoldable pub simulation_default : SimulationConfig
  simulation_default = record {
    name = "";
    description = "";
    duration = 0;
    time_scale = p.float.of_ℕ 1;
    seed = 0;
  }

  unfoldable pub network_default : NetworkConfig
  network_default = record {
    default_latency = latency_default;
    specific_latencies = [];
    default_packet_loss = loss_default;
    specific_packet_losses = [];
    default_bandwidth = bandwidth_default;
    specific_bandwidths = [];
    packet_loss = p.float.of_ℕ 0;
    bandwidth = 1000000;
  }

  unfoldable pub topology_default : TopologyConfig
  topology_default = record {
    topology_type = TopologyType.random;
    hub = none;
    density = p.float.div (p.float.of_ℕ 3) (p.float.of_ℕ 10);
    bidirectional = true;
    connections = [];
  }

  -- The text of the validation errors.
  unfoldable error_lines : List ValidationError → String
  error_lines [] = ""
  error_lines (e ∷ errors) =
      ("\n  - "
        ++ e.field
        ++ ": "
        ++ e.message
        ++ (if str_eq e.suggestion "" then "" else " (" ++ e.suggestion ++ ")"))
      ++ error_lines errors

  -- The result and the last error.
  unfoldable validate : ScenarioConfig → String → Bool × String
  unfolding error_lines
  validate config last_error = elim (get_validation_errors config) [
    | [] ↦ (true, last_error)
    | e ∷ errors ↦ (
      false,
      ("Configuration validation failed with " ++ to_string (length (e ∷ errors)) ++ " error(s):")
          ++ error_lines (e ∷ errors),
    )
  ]

unfoldable pub metrics_default : MetricsConfig
metrics_default = record { output = ""; interval = 5; collect = []; export_formats = [] }

-- The message for what the two handlers of loadFromString catch.
unfoldable load_error : Exception → String
load_error (yaml_exception what) = "YAML parsing error: " ++ what
load_error (invalid_argument what) = "Configuration error: " ++ what
load_error (out_of_range what) = "Configuration error: " ++ what
load_error (runtime_error what) = "Configuration error: " ++ what

module _ ⦃p : Platform⦄ ⦃y : Yaml⦄ where
  -- A section under its key, or its default.
  unfoldable pub section : {A : Type 0} → (y.Node → Result A) → y.Node → String → A → Result A
  section parse root key default = do
    found ← y.at root key
    elim found [ none ↦ ok default | some node ↦ parse node ]

  -- A turn of the loop over the nodes section, before the rest of the loop: an item with the key
  -- "template" is a template.
  unfoldable pub add_item :
      (String → ℕ)
      → Option y.Node
      → y.Node
      → Result (List NodeConfigExtended × List NodeTemplate)
      → Result (List NodeConfigExtended × List NodeTemplate)
  add_item hash (some name) item rest = do
    tmpl ← parse_template item
    (nodes, templates) ← rest
    ok (nodes, tmpl ∷ templates)
  add_item hash none item rest = do
    node ← parse_node hash item
    (nodes, templates) ← rest
    ok (node ∷ nodes, templates)

  unfoldable pub parse_nodes :
      (String → ℕ) → List y.Node → Result (List NodeConfigExtended × List NodeTemplate)
  unfolding add_item
  parse_nodes hash [] = ok ([], [])
  parse_nodes hash (item ∷ items) = do
    found ← y.at item "template"
    add_item hash found item (parse_nodes hash items)

  unfoldable pub parse_root : (String → ℕ) → y.Node → Result ScenarioConfig
  unfolding parse_nodes
  parse_root hash root = do
    simulation ← section parse_simulation root "simulation" simulation_default
    network ← section parse_network root "network" network_default
    node_items ← sequence_at root "nodes"
    nodes ← parse_nodes hash node_items
    topology ← section parse_topology root "topology" topology_default
    event_items ← sequence_at root "events"
    events ← read_each parse_event event_items
    metrics ← section parse_metrics root "metrics" metrics_default
    ok (record {
      simulation = simulation;
      network = network;
      nodes = nodes.0;
      templates = nodes.1;
      topology = topology;
      events = events;
      metrics = metrics;
    })

  -- The end of loadFromString, with its two handlers: the result and the last error.
  unfoldable pub handle : String → Result ScenarioConfig → Option ScenarioConfig × String
  unfolding load_error
  handle last_error (ok config) = (some config, last_error)
  handle last_error (err e) = (none, load_error e)

  unfoldable pub load_from_string : (String → ℕ) → String → String → Option ScenarioConfig × String
  unfolding parse_root handle
  load_from_string hash yaml_content last_error =
      handle last_error (y.load yaml_content >>= λ root. parse_root hash root)

  -- The contents of the file, or `none` where it cannot be opened.
  unfoldable pub load_from_file :
      (String → ℕ) → String → Option String → String → Option ScenarioConfig × String
  unfolding load_from_string
  load_from_file hash filepath none last_error = (none, "Failed to open file: " ++ filepath)
  load_from_file hash filepath (some contents) last_error =
      load_from_string hash contents last_error
