-- ===== src/Samples/ProgramRuns.antt =====
-- The theorems on the main program at concrete inputs.
use Prim.Native.String.{len}
use painless_mesh_simulator.Prelude.{
  ◌↔◌, inr, ℕ, ◌+◌, ◌≡◌, refl, false, List, [], ◌∷◌, none, some, length, All, arith,
}
use painless_mesh_simulator.NodeManager.{NodeManager, get_node_count}
use painless_mesh_simulator.Scenario.{NodeConfigExtended, ScenarioConfig}
use painless_mesh_simulator.Scenario.Validation.{
  get_validation_errors, validate_simulation, validate_network, validate_node, duplicate_ids,
  validate_hub, validate_topology, validate_event, validate_latency_at, validate_loss_at,
  validate_ends,
}
use painless_mesh_simulator.Result.{ok}
use painless_mesh_simulator.Cli.{
  CliOptions, VariablesMap, variables, parse_options, parse_command_line,
}
use painless_mesh_simulator.Cli.Accepted.{AcceptedOptions, parse_command_line_lem}
use painless_mesh_simulator.Program.Overrides.{overrides_keep_valid}
use painless_mesh_simulator.Program.{apply_cli_overrides, prepare_scenario, launch, runs, exits}
use painless_mesh_simulator.Program.Launch.{
  HaveIds, Has, Runs, launch_creates_nodes, launch_exits_on_collision,
}
use painless_mesh_simulator.Samples.{sample_platform, sample_devices}
use painless_mesh_simulator.Samples.ScenarioRuns.{sensor, sample_scenario}

abbrev pub options : CliOptions
options = record {
  config_file = "scenario.yaml";
  duration = some 120;
  log_level = "INFO";
  output_dir = "results/";
  ui_mode = "none";
  validate_only = false;
  help = false;
  version = false;
  time_scale = none;
}

options-Runs : Runs options
options-Runs = record { help = refl; version = refl; validate_only = refl }

abbrev numbered : ℕ → List NodeConfigExtended
numbered n = record (sensor "hub") { node_id = 17 } ∷ record (sensor "leaf") { node_id = n } ∷ []

abbrev loaded : ℕ → ScenarioConfig
loaded n = record sample_scenario { nodes = numbered n; templates = [] }

-- As it is validated: with the duration and the output of the options.
abbrev prepared : ℕ → ScenarioConfig
prepared n = record (loaded n) {
  simulation = record {
    name = "star";
    description = "";
    duration = 120;
    time_scale = 1000;
    seed = 1;
  };
  metrics = record {
    output = "results//metrics.csv";
    interval = 5;
    collect = [];
    export_formats = [];
  };
}

is_prepared : (n : ℕ) → prepare_scenario len options (loaded n) ≡ prepared n
unfolding prepare_scenario apply_cli_overrides
is_prepared n = refl

prepared_has_no_errors : (n : ℕ) → get_validation_errors (prepared n) ≡ []
unfolding get_validation_errors validate_simulation validate_network validate_node duplicate_ids
    validate_hub validate_topology validate_event validate_latency_at validate_loss_at validate_ends
prepared_has_no_errors n = refl

launch_creates_nodes_example :
    (manager : NodeManager) × (launch len (λ i. 100 + i) options (some (loaded 18)) ≡ runs manager)
    × (get_node_count manager ≡ length (numbered 18))
    × All (λ (c : NodeConfigExtended). Has c.node_id manager) (numbered 18)
launch_creates_nodes_example =
    launch_creates_nodes len (λ i. 100 + i) options (loaded 18) (prepared 18) (is_prepared 18)
      options-Runs (prepared_has_no_errors 18)
      ((ground arith, (ground arith, tt), (ground arith, tt, tt))) ((refl, (refl, tt)))
      (omega arith)

collision : ¬ HaveIds (numbered 17)
collision (nonzero, (apart, rest), others) = apart refl

launch_exits_on_collision_example : launch len (λ i. 100 + i) options (some (loaded 17)) ≡ exits 1
launch_exits_on_collision_example =
    launch_exits_on_collision len (λ i. 100 + i) options (loaded 17) (prepared 17) (is_prepared 17)
      options-Runs (prepared_has_no_errors 17) collision

abbrev pub arguments : VariablesMap
arguments = record {
  help = false;
  version = false;
  config = some "scenario.yaml";
  duration = some 120;
  log_level = "INFO";
  output = "results/";
  ui = "none";
  validate_only = false;
  time_scale = none;
}

parse_command_line_lem_example :
    (parse_command_line (variables arguments) ≡ ok options) ↔ AcceptedOptions arguments options
parse_command_line_lem_example = parse_command_line_lem arguments options refl refl

pub arguments_parsed : parse_command_line (variables arguments) ≡ ok options
unfolding parse_command_line parse_options
arguments_parsed = refl

overrides_keep_valid_example :
    let after = apply_cli_overrides options (prepared 18) in
    (get_validation_errors after ≡ [])
    × (after.network ≡ (prepared 18).network)
    × (after.nodes ≡ (prepared 18).nodes)
    × (after.topology ≡ (prepared 18).topology)
    × (after.events ≡ (prepared 18).events)
    × (after.templates ≡ (prepared 18).templates)
    × (after.simulation ≡ record ((prepared 18).simulation) {
      duration = after.simulation.duration;
      time_scale = after.simulation.time_scale;
    })
    × (after.metrics ≡ record ((prepared 18).metrics) { output = after.metrics.output })
unfolding apply_cli_overrides
overrides_keep_valid_example =
    overrides_keep_valid arguments options (prepared 18) refl refl arguments_parsed
      (prepared_has_no_errors 18) (inr (omega arith), tt)
