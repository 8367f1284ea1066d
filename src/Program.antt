-- ===== src/Program.antt =====
-- The main program, src/main.cpp, between the parsed options and the simulation loop.
pub mod Launch
pub mod Overrides
pub mod Run
pub mod Created
pub mod ExitCodes
pub mod Simulation
use Prim.Native.String.{◌++◌ as ◌+++◌}
use painless_mesh_simulator.Prelude.{
  ℕ, zero, suc, String, Bool, true, false, not, ◌||◌, List, [], ◌∷◌, Option, none, some, str_eq,
  if◌then◌else◌,
}
use painless_mesh_simulator.Result.{Exception, Result, ok, err, ◌>>=◌}
use painless_mesh_simulator.Platform.{Platform}
use painless_mesh_simulator.Devices.{Devices}
use painless_mesh_simulator.Cli.{CliOptions}
use painless_mesh_simulator.Node.{NodeConfig}
use painless_mesh_simulator.NodeManager.{NodeManager, node_manager, create_node}
use painless_mesh_simulator.Scenario.{
  NodeConfigExtended, SimulationConfig, MetricsConfig, ScenarioConfig, ValidationError,
}
use painless_mesh_simulator.Scenario.Validation.{get_validation_errors}
use painless_mesh_simulator.Scenario.Templates.{expand_templates}

module _ ⦃p : Platform⦄ where
  abbrev pub or_else {ℓ} : {A : Type ℓ} → Option A → A → A
  or_else none a = a
  or_else (some b) a = b

  unfoldable pub apply_cli_overrides : CliOptions → ScenarioConfig → ScenarioConfig
  apply_cli_overrides options config = record config {
    simulation = record (config.simulation) {
      duration = or_else options.duration config.simulation.duration;
      time_scale = or_else options.time_scale config.simulation.time_scale;
    };
    metrics =
        if str_eq options.output_dir ""
        then config.metrics
        else record (config.metrics) { output = options.output_dir +++ "/metrics.csv" };
  }

  -- From a loaded scenario to the one that is validated; `hash` is std::hash.
  unfoldable pub prepare_scenario : (String → ℕ) → CliOptions → ScenarioConfig → ScenarioConfig
  prepare_scenario hash options config =
      let expanded : ScenarioConfig = elim config.templates [
        | [] ↦ config
        | t ∷ ts ↦ expand_templates hash config
      ] in
      apply_cli_overrides options expanded

-- The configuration of a node that `main` passes on.
unfoldable pub node_config : NodeConfigExtended → NodeConfig
node_config c = record {
  node_id = c.node_id;
  mesh_prefix = c.mesh_prefix;
  mesh_password = c.mesh_password;
  mesh_port = c.mesh_port;
  firmware = c.firmware;
  firmware_config = c.firmware_config;
}

module _ ⦃p : Platform⦄ ⦃d : Devices⦄ where
  -- The loop that creates the nodes; an exception ends it. `clock` are the readings of the clock.
  unfoldable pub create_nodes : (ℕ → ℕ) → List NodeConfigExtended → NodeManager → Result NodeManager
  create_nodes clock [] manager = ok manager
  create_nodes clock (c ∷ configs) manager = elim (create_node (node_config c) (clock 0) manager) [
    | ok (node, manager') ↦ create_nodes (λ i. clock (suc i)) configs manager'
    | err e ↦ err e
  ]

  -- What the program does with a scenario that was loaded: it returns with this exit code, or goes on
  -- with this node manager.
  pub data Launched : Type 0 where
    exits : ℕ → Launched
    runs : NodeManager → Launched

  -- No validation error is found.
  abbrev pub no_errors : List ValidationError → Bool
  no_errors [] = true
  no_errors (e ∷ es) = false

  unfoldable pub launch_nodes : (ℕ → ℕ) → List NodeConfigExtended → Launched
  launch_nodes clock configs = elim (create_nodes clock configs node_manager) [
    | ok manager ↦ runs manager
    | err e ↦ exits 1
  ]

  unfoldable pub launch_scenario : (String → ℕ) → (ℕ → ℕ) → CliOptions → ScenarioConfig → Launched
  launch_scenario hash clock options loaded =
      let config = prepare_scenario hash options loaded in
      if not (no_errors (get_validation_errors config))
      then exits 2
      else if options.validate_only
      then exits 0
      else launch_nodes clock config.nodes

  -- `main` from the parsed options up to the last node that is created; `loaded` is what the reader
  -- makes of the scenario file.
  unfoldable pub launch : (String → ℕ) → (ℕ → ℕ) → CliOptions → Option ScenarioConfig → Launched
  launch hash clock options loaded =
      if options.help || options.version
      then exits 0
      else elim loaded [ none ↦ exits 1 | some config ↦ launch_scenario hash clock options config ]
