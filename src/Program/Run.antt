-- ===== src/Program/Run.antt =====
-- `main` of src/main.cpp as one run, from the command line to the exit code.
use painless_mesh_simulator.Prelude.{ℕ, String, List, Option, none, some}
use painless_mesh_simulator.Result.{Result, ok, err}
use painless_mesh_simulator.Platform.{Platform}
use painless_mesh_simulator.Devices.{Devices}
use painless_mesh_simulator.Cli.{CliOptions, Arguments, parse_command_line}
use painless_mesh_simulator.NodeManager.{NodeManager}
use painless_mesh_simulator.Scenario.{ScenarioConfig}
use painless_mesh_simulator.Scenario.Reader.Yaml.{Yaml}
use painless_mesh_simulator.Scenario.Reader.Loader.{load_from_file}
use painless_mesh_simulator.Program.{Launched, exits, runs, prepare_scenario, launch}
use painless_mesh_simulator.Program.Simulation.{Tick, simulate}

-- What a run finds around it.
pub record Surroundings : Type 0 where
  -- std::hash
  pub hash : String → ℕ
  -- the contents of the files that can be opened
  pub file : String → Option String
  -- the clock while nodes are created, when they are started and when they are stopped
  pub clock : ℕ → ℕ
  pub started : ℕ
  pub stopped : ℕ
  -- std::rand
  pub rand : ℕ → ℕ
  -- the turns of the loop to come
  pub ticks : List Tick

module _ ⦃p : Platform⦄ ⦃d : Devices⦄ where
  -- The exit code behind the simulation; an exception ends in the handler of `main`.
  unfoldable pub exit_code : Option (Result (ℕ × NodeManager)) → Option ℕ
  exit_code none = none
  exit_code (some (err e)) = some 1
  exit_code (some (ok last)) = some 0

  -- Behind the creation of the nodes.
  unfoldable pub run_launched : Surroundings → ℕ → Launched → Option ℕ
  unfolding exit_code
  run_launched w duration (exits code) = some code
  run_launched w duration (runs manager) =
      exit_code (simulate w.started w.stopped w.rand duration w.ticks manager)

module _ ⦃p : Platform⦄ ⦃d : Devices⦄ ⦃y : Yaml⦄ where
  -- What the reader makes of the scenario file; a new ConfigLoader has no last error.
  unfoldable pub read_scenario : Surroundings → CliOptions → Option ScenarioConfig
  read_scenario w options =
      (load_from_file w.hash options.config_file (w.file options.config_file) "").0

  unfoldable pub run_scenario : Surroundings → CliOptions → Option ScenarioConfig → Option ℕ
  unfolding run_launched
  run_scenario w options none = run_launched w 0 (launch w.hash w.clock options none)
  run_scenario w options (some loaded) =
      run_launched w (prepare_scenario w.hash options loaded).simulation.duration
        (launch w.hash w.clock options (some loaded))

  -- The exit code, or `none` where the loop still runs behind the last turn that is given.
  unfoldable pub main : Surroundings → Arguments → Option ℕ
  unfolding run_scenario read_scenario
  main w arguments = elim (parse_command_line arguments) [
    | err e ↦ some 1
    | ok options ↦ run_scenario w options (read_scenario w options)
  ]
