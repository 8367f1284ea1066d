-- ===== src/Scenario/Validation.antt =====
-- The validation of a scenario, `getValidationErrors` of src/config/config_loader.cpp. The vector that
-- the checks of the source append to is the list of what each of them appends.
use Prim.Native.String.{◌++◌ as ◌+++◌}
use painless_mesh_simulator.Prelude.{
  ℕ, suc, Bool, true, false, not, ◌&&◌, ◌||◌, String, List, [], ◌∷◌, ◌++◌, map, Option, none, some,
  str_eq, ◌==◌, ltb, if◌then◌else◌,
}
use painless_mesh_simulator.Text.{to_string}
use painless_mesh_simulator.Platform.{Platform}
use painless_mesh_simulator.Network.Config.{is_valid_latency, is_valid_loss}
use painless_mesh_simulator.Scenario.{
  TopologyType, EventAction, ConnectionLatencyConfig, ConnectionPacketLossConfig, NetworkConfig,
  SimulationConfig, NodeConfigExtended, TopologyConfig, EventConfig, ScenarioConfig,
  ValidationError,
}

-- `if (bad) { ValidationError err; ...; errors.push_back(err); }`
abbrev pub report : Bool → String → String → String → List ValidationError
report bad field message suggestion =
    if bad then record { field = field; message = message; suggestion = suggestion } ∷ [] else []

-- s.empty()
abbrev pub empty : String → Bool
empty s = str_eq s ""

-- std::find on the identifiers, and the search loops
abbrev pub has_id : String → List String → Bool
has_id s [] = false
has_id s (x ∷ xs) = str_eq x s || has_id s xs

abbrev pub node_ids : List NodeConfigExtended → List String
node_ids = map (λ n. n.id)

-- A check of each member, and one that also gets its index.
abbrev pub for_each : {A : Type 0} → (A → List ValidationError) → List A → List ValidationError
for_each f [] = []
for_each f (x ∷ xs) = f x ++ for_each f xs

abbrev pub for_each_at :
    {A : Type 0} → (ℕ → A → List ValidationError) → ℕ → List A → List ValidationError
for_each_at f i [] = []
for_each_at f i (x ∷ xs) = f i x ++ for_each_at f (suc i) xs

-- The ends of a connection with its own settings; `section` is the part of the network section.
unfoldable pub validate_ends : String → ℕ → String → String → List ValidationError
validate_ends section i from to =
    report (empty from)
      ("network." +++ section +++ ".specific_connections[" +++ to_string i +++ "].from")
      "Source node ID cannot be empty" "Specify a valid node ID"
    ++ report (empty to)
        ("network." +++ section +++ ".specific_connections[" +++ to_string i +++ "].to")
        "Destination node ID cannot be empty" "Specify a valid node ID"

unfoldable pub validate_latency_at : ℕ → ConnectionLatencyConfig → List ValidationError
validate_latency_at i conn =
    validate_ends "latency" i conn.from conn.to
    ++ report (not (is_valid_latency conn.config))
        ("network.latency.specific_connections[" +++ to_string i +++ "]")
        ("Minimum latency cannot be greater than maximum for connection " +++ conn.from +++ " -> "
          +++ conn.to)
        "Set min <= max"

unfoldable pub validate_node : NodeConfigExtended → List ValidationError
validate_node config =
    report (empty config.id) "node.id" "Node ID is required"
      "Provide a unique identifier for each node"
    ++ report (empty config.mesh_prefix) "node.config.mesh_prefix"
        ("Mesh prefix is required for node: " +++ config.id) "Set mesh_prefix in node configuration"
    ++ report (empty config.mesh_password) "node.config.mesh_password"
        ("Mesh password is required for node: " +++ config.id)
        "Set mesh_password in node configuration"
    ++ report (config.mesh_port == 0) "node.config.mesh_port"
        ("Invalid mesh port for node: " +++ config.id)
        "Use default port 5555 or specify a valid port"

-- The loop over the nodes; `seen` are the identifiers of those before, the last one first.
unfoldable pub duplicate_ids : List String → List String → List ValidationError
duplicate_ids seen [] = []
duplicate_ids seen (id ∷ ids) =
    report (has_id id seen) "nodes" ("Duplicate node ID: " +++ id) "Ensure all node IDs are unique"
    ++ duplicate_ids (id ∷ seen) ids

unfoldable pub validate_connection : List String → String × String → List ValidationError
validate_connection ids (first, second) =
    report (not (has_id first ids)) "topology.connections"
      ("Connection references non-existent node: " +++ first) "Ensure all connection nodes exist"
    ++ report (not (has_id second ids)) "topology.connections"
        ("Connection references non-existent node: " +++ second) "Ensure all connection nodes exist"

-- The hub of a star.
unfoldable pub validate_hub : Option String → List String → List ValidationError
validate_hub (some hub) ids =
    report (not (has_id hub ids)) "topology.hub" ("Hub node not found: " +++ hub)
      "Ensure hub node ID matches an existing node"
validate_hub none ids =
    report true "topology.hub" "Hub node required for star topology"
      "Specify which node should be the central hub"

-- v.empty()
abbrev pub no_elements {ℓ} : {A : Type ℓ} → List A → Bool
no_elements [] = true
no_elements (x ∷ xs) = false

module _ ⦃p : Platform⦄ where
  -- value < 0.0f || value > 1.0f
  abbrev pub outside_unit : p.Float → Bool
  outside_unit value = p.float.lt value (p.float.of_ℕ 0) || p.float.lt (p.float.of_ℕ 1) value

  unfoldable pub validate_simulation : SimulationConfig → List ValidationError
  validate_simulation config =
      report (empty config.name) "simulation.name" "Simulation name is required"
        "Add a descriptive name for your simulation"
      ++ report (p.float.le config.time_scale (p.float.of_ℕ 0)) "simulation.time_scale"
          "Time scale must be positive" "Use 1.0 for real-time, >1.0 for faster simulation"

  unfoldable pub validate_loss_at : ℕ → ConnectionPacketLossConfig → List ValidationError
  validate_loss_at i conn =
      validate_ends "packet_loss" i conn.from conn.to
      ++ report (not (is_valid_loss conn.config))
          ("network.packet_loss.specific_connections[" +++ to_string i +++ "]")
          ("Invalid packet loss configuration for connection " +++ conn.from +++ " -> " +++ conn.to)
          "Probability must be 0.0-1.0, burst_length must be > 0"

  unfoldable pub validate_network : NetworkConfig → List ValidationError
  validate_network config =
      report (not (is_valid_latency config.default_latency)) "network.latency.default"
        "Minimum latency cannot be greater than maximum" "Set min <= max"
      ++ for_each_at validate_latency_at 0 config.specific_latencies
      ++ report (not (is_valid_loss config.default_packet_loss)) "network.packet_loss.default"
          "Invalid packet loss configuration"
          "Probability must be 0.0-1.0, burst_length must be > 0"
      ++ for_each_at validate_loss_at 0 config.specific_packet_losses
      ++ report (outside_unit config.packet_loss) "network.packet_loss"
          "Packet loss must be between 0.0 and 1.0" "Use 0.01 for 1% packet loss"
      ++ report (config.bandwidth == 0) "network.bandwidth" "Bandwidth cannot be zero"
          "Specify bandwidth in bits per second"

  unfoldable pub validate_topology : TopologyConfig → List String → List ValidationError
  validate_topology config ids = elim config.topology_type [
    | TopologyType.star ↦ validate_hub config.hub ids
    | TopologyType.random ↦
        report (outside_unit config.density) "topology.density"
          "Density must be between 0.0 and 1.0" "Use 0.3 for sparse, 0.7 for dense networks"
    | TopologyType.custom ↦
        report (no_elements config.connections) "topology.connections"
          "Custom topology requires connection definitions"
          "Add connections array with [node1, node2] pairs"
        ++ for_each (validate_connection ids) config.connections
    | _ ↦ []
  ]

  abbrev pub sets_quality : EventAction → Bool
  sets_quality EventAction.set_network_quality = true
  sets_quality _ = false

  unfoldable pub validate_event : ℕ → List String → EventConfig → List ValidationError
  validate_event duration ids config =
      report (ltb 0 duration && ltb duration config.time) "event.time"
        ("Event time "
          +++ to_string config.time
          +++ "s exceeds simulation duration "
          +++ to_string duration
          +++ "s")
        "Ensure all event times are within simulation duration"
      ++ report (not (empty config.target) && not (has_id config.target ids)) "event.target"
          ("Event references non-existent node: " +++ config.target) "Ensure target node exists"
      ++ report (sets_quality config.action && outside_unit config.quality) "event.quality"
          "Network quality must be between 0.0 and 1.0" "Use 0.0 for worst, 1.0 for best quality"

  unfoldable pub get_validation_errors : ScenarioConfig → List ValidationError
  get_validation_errors config =
      validate_simulation config.simulation
      ++ validate_network config.network
      ++ for_each validate_node config.nodes
      ++ duplicate_ids [] (node_ids config.nodes)
      ++ report (no_elements config.nodes) "nodes" "No nodes defined"
          "Add at least one node or template"
      ++ validate_topology config.topology (node_ids config.nodes)
      ++ for_each (validate_event config.simulation.duration (node_ids config.nodes)) config.events
