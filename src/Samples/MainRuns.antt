-- ===== src/Samples/MainRuns.antt =====
-- The exit codes of whole runs of the program.
use painless_mesh_simulator.Prelude.{
  ◌+◌, String, ◌≡◌, ◌↔◌, refl, true, false, [], ◌∷◌, some, str_eq, none, if◌then◌else◌,
}
use painless_mesh_simulator.Cli.{variables, parse_command_line, parse_options}
use painless_mesh_simulator.Scenario.Reader.Loader.{
  load_from_file, section, network_default, topology_default,
}
use painless_mesh_simulator.Scenario.Reader.Sections.{parse_simulation}
use painless_mesh_simulator.Scenario.Reader.Yaml.{get, sequence_at, read_each, get_optional}
use painless_mesh_simulator.Scenario.Reader.NodeSection.{
  parse_node, with_config_section, parse_config_section, firmware_entries, node_default,
}
use painless_mesh_simulator.Program.{
  prepare_scenario, apply_cli_overrides, node_config, launch, launch_scenario, launch_nodes,
  create_nodes,
}
use painless_mesh_simulator.Scenario.Validation.{
  get_validation_errors, validate_simulation, validate_network, validate_node, duplicate_ids,
  validate_topology, validate_event, validate_latency_at, validate_loss_at, validate_ends,
}
use painless_mesh_simulator.Program.Simulation.{simulate, simulation_loop, start_simulation}
use painless_mesh_simulator.NodeManager.{
  node_manager, with_config_firmware, create_node, start_all, start_nodes, start_if_stopped,
  establish_connectivity, connect_nodes, update_all,
}
use painless_mesh_simulator.Node.{
  virtual_node, start, prepare, setup_firmware, route_callbacks_to_firmware, set_running,
  connect_to, update,
}
use painless_mesh_simulator.StdMap
use painless_mesh_simulator.Scenario.Templates.{generate_node_id}
use painless_mesh_simulator.Scenario.ValidScenario.{IsValidScenario}
use painless_mesh_simulator.Program.Run.{Surroundings, main}
use painless_mesh_simulator.Program.ExitCodes.{ReadAs, Succeeds, exit_codes}
use painless_mesh_simulator.Samples.{sample_platform, sample_devices}
use painless_mesh_simulator.Samples.YamlTree.{tree_yaml}
use painless_mesh_simulator.Samples.ProgramRuns.{options, arguments, arguments_parsed}

-- The file "scenario.yaml" with these contents, and a loop that a signal ends in its second turn.
abbrev surroundings : String → Surroundings
surroundings contents = record {
  hash = λ text. if str_eq text "gateway" then 17 else 18;
  file = λ path. if str_eq path "scenario.yaml" then some contents else none;
  clock = λ i. 100 + i;
  started = 200;
  stopped = 900;
  rand = λ i. 3;
  ticks = record { running = true; elapsed = 1 } ∷ record { running = false; elapsed = 1 } ∷ [];
}

exit_codes_example :
    let w = surroundings "pair" in
    let code = main w (variables arguments) in
    ((code ≡ some 2) ↔ ReadAs w options (λ config. ¬ IsValidScenario config))
    × ((code ≡ some 0)
        ↔ ReadAs w options (λ config. IsValidScenario config × Succeeds w options config))
exit_codes_example =
    exit_codes (surroundings "pair") (variables arguments) options arguments_parsed refl refl

-- A scenario that is valid is run to its end.
code_of_pair : main (surroundings "pair") (variables arguments) ≡ some 0
unfolding main parse_command_line parse_options load_from_file section parse_simulation get
    sequence_at read_each get_optional parse_node with_config_section parse_config_section
    firmware_entries node_default launch launch_scenario launch_nodes create_nodes
    get_validation_errors validate_simulation validate_network validate_node duplicate_ids
    validate_topology validate_event validate_latency_at validate_loss_at validate_ends simulate
    simulation_loop start_simulation create_node start_all start_nodes start_if_stopped
    establish_connectivity connect_nodes update_all virtual_node start prepare setup_firmware
    route_callbacks_to_firmware set_running connect_to update prepare_scenario apply_cli_overrides
    network_default topology_default node_config generate_node_id StdMap.contains node_manager
    StdMap.insert with_config_firmware
code_of_pair = refl
