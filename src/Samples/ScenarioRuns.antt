-- ===== src/Samples/ScenarioRuns.antt =====
-- The theorems on scenarios at concrete inputs.
use Prim.Native.String.{len, ◌++◌ as ◌+++◌}
use painless_mesh_simulator.Prelude.{
  ℕ, ◌+◌, ◌<◌, ◌≡◌, ◌≢◌, refl, true, false, List, [], ◌∷◌, ◌++◌, none, some, String, length,
  get_elem?, All, ◌↔◌,
}
use painless_mesh_simulator.Text.{to_string}
use painless_mesh_simulator.Network.Config.{DistributionType, BandwidthConfig, bandwidth_default}
use painless_mesh_simulator.Network.Latency.{set_default_latency, set_latency}
use painless_mesh_simulator.Network.Loss.{set_default_packet_loss, set_packet_loss}
use painless_mesh_simulator.Scenario.{
  TopologyType, EventAction, NetworkConfig, NodeConfigExtended, NodeTemplate, EventConfig,
  ScenarioConfig,
}
use painless_mesh_simulator.Scenario.Validation.{
  get_validation_errors, validate_simulation, validate_network, validate_node, duplicate_ids,
  validate_hub, validate_topology, validate_event, validate_latency_at, validate_loss_at,
  validate_ends,
}
use painless_mesh_simulator.Scenario.ValidScenario.{IsValidScenario}
use painless_mesh_simulator.Scenario.NoErrors.{no_errors_iff_valid}
use painless_mesh_simulator.Scenario.Templates.{
  generate_node_id, expand_templates, total_count, expand_templates_lem,
}
use painless_mesh_simulator.Scenario.Accepted.{Returns, accepted_settings_are_taken}
use painless_mesh_simulator.Samples.{sample_platform, message_queue, sample_network}

abbrev pub sensor : String → NodeConfigExtended
sensor id = record {
  id = id;
  node_id = 17;
  node_type = "sensor";
  firmware = "SimpleBroadcast";
  position = [];
  mesh_prefix = "TestMesh";
  mesh_password = "password";
  mesh_port = 5555;
  firmware_config = [];
  sensor_interval = none;
  mqtt_broker = none;
  mqtt_port = none;
  mqtt_topic_prefix = none;
}

abbrev sensors : NodeTemplate
sensors = record {
  template_name = "sensor";
  count = 3;
  id_prefix = "sensor-";
  base_config = sensor "";
}

abbrev stop_hub : EventConfig
stop_hub = record {
  time = 30;
  action = EventAction.stop_node;
  target = "hub";
  targets = [];
  description = "";
  groups = [];
  from = "";
  to = "";
  payload = "";
  quality = 1000;
  count = 0;
  template_name = "";
  id_prefix = "";
  graceful = true;
  delay = 0;
  latency = 500;
  packet_loss = 300;
}

abbrev sample_settings : NetworkConfig
sample_settings = record {
  default_latency = record { min_ms = 10; max_ms = 50; distribution = DistributionType.normal };
  specific_latencies =
      record {
        from = "hub";
        to = "leaf";
        config = record { min_ms = 5; max_ms = 5; distribution = DistributionType.uniform };
      }
      ∷ [];
  default_packet_loss = record { probability = 10; burst_mode = false; burst_length = 3 };
  specific_packet_losses = [];
  default_bandwidth = bandwidth_default;
  specific_bandwidths = [];
  packet_loss = 10;
  bandwidth = 1000000;
}

abbrev pub sample_scenario : ScenarioConfig
sample_scenario = record {
  simulation = record {
    name = "star";
    description = "";
    duration = 60;
    time_scale = 1000;
    seed = 1;
  };
  network = sample_settings;
  nodes = sensor "hub" ∷ sensor "leaf" ∷ [];
  templates = sensors ∷ [];
  topology = record {
    topology_type = TopologyType.star;
    hub = some "hub";
    density = 300;
    bidirectional = true;
    connections = [];
  };
  events = stop_hub ∷ [];
  metrics = record { output = ""; interval = 5; collect = []; export_formats = [] };
}

no_errors : get_validation_errors sample_scenario ≡ []
unfolding get_validation_errors validate_simulation validate_network validate_node duplicate_ids
    validate_hub validate_topology validate_event validate_latency_at validate_loss_at validate_ends
no_errors = refl

no_errors_iff_valid_example :
    (get_validation_errors sample_scenario ≡ []) ↔ IsValidScenario sample_scenario
no_errors_iff_valid_example = no_errors_iff_valid sample_scenario

accepted_settings_are_taken_example :
    Returns (set_default_latency sample_settings.default_latency sample_network)
    × Returns (set_default_packet_loss sample_settings.default_packet_loss sample_network)
    × All
        (λ c. Returns (set_latency 1 2 c.config sample_network))
        sample_settings.specific_latencies
    × All
        (λ c. Returns (set_packet_loss 1 2 c.config sample_network))
        sample_settings.specific_packet_losses
accepted_settings_are_taken_example =
    accepted_settings_are_taken sample_scenario 1 2 sample_network no_errors

abbrev no_bucket : BandwidthConfig
no_bucket = record { max_bytes_per_sec = 100; max_messages_per_sec = 0; bucket_size = 0 }

expand_templates_lem_example :
    let after = expand_templates len sample_scenario in
    (after ≡ record sample_scenario { nodes = after.nodes })
    × (length after.nodes ≡ 2 + total_count (sensors ∷ []))
    × ((i : ℕ) → i < 2 → get_elem? after.nodes i ≡ get_elem? sample_scenario.nodes i)
    × ((before : List NodeTemplate) (tmpl : NodeTemplate) (rest : List NodeTemplate) (j : ℕ)
        → sensors ∷ [] ≡ before ++ tmpl ∷ rest
        → j < tmpl.count
        → (node : NodeConfigExtended) × (get_elem? after.nodes (2 + (total_count before + j))
            ≡ some node)
          × (node.id ≡ tmpl.id_prefix +++ to_string j)
          × (node.node_id ≡ generate_node_id len node.id)
          × (node.node_id ≢ 0)
          × (node.node_id < 2147483648)
          × (node.node_type ≡ tmpl.base_config.node_type)
          × (node.position ≡ tmpl.base_config.position)
          × (node.sensor_interval ≡ tmpl.base_config.sensor_interval)
          × (node.mqtt_broker ≡ tmpl.base_config.mqtt_broker)
          × (node.mqtt_port ≡ tmpl.base_config.mqtt_port)
          × (node.mqtt_topic_prefix ≡ tmpl.base_config.mqtt_topic_prefix)
          × (node.firmware ≡ tmpl.base_config.firmware)
          × (node.mesh_prefix ≡ tmpl.base_config.mesh_prefix)
          × (node.mesh_password ≡ tmpl.base_config.mesh_password)
          × (node.mesh_port ≡ tmpl.base_config.mesh_port)
          × (node.firmware_config ≡ tmpl.base_config.firmware_config))
expand_templates_lem_example = expand_templates_lem len sample_scenario
