-- ===== src/Program/ExitCodes.antt =====
-- The exit codes of a whole run of the program.
use painless_mesh_simulator.Prelude.{
  ℕ, ◌≡◌, ◌↔◌, subst, ◌⊎◌, inl, inr, refl, ◌∙◌, sym, Bool, true, false, String, Option, none, some,
  if◌then◌else◌, arith,
}
use painless_mesh_simulator.Result.{ok}
use painless_mesh_simulator.Platform.{Platform}
use painless_mesh_simulator.Devices.{Devices}
use painless_mesh_simulator.Cli.{CliOptions, Arguments, parse_command_line}
use painless_mesh_simulator.Scenario.{ScenarioConfig}
use painless_mesh_simulator.Scenario.Validation.{get_validation_errors}
use painless_mesh_simulator.Scenario.ValidScenario.{IsValidScenario}
use painless_mesh_simulator.Scenario.Reader.Yaml.{Yaml}
use painless_mesh_simulator.Program.{
  prepare_scenario, no_errors, launch_nodes, launch_scenario, launch, exits,
}
use painless_mesh_simulator.Program.Created.{
  Codes, Codes-two, Codes-zero, valid_of_errors, errors_of_invalid, Simulated, launched_codes,
}
use painless_mesh_simulator.Program.Run.{
  Surroundings, run_launched, read_scenario, run_scenario, main,
}

module _ ⦃p : Platform⦄ ⦃d : Devices⦄ ⦃y : Yaml⦄ where
  -- The nodes are not created for --validate-only.
  abbrev pub Succeeds : Surroundings → CliOptions → ScenarioConfig → Type 0
  Succeeds w options config =
      (options.validate_only ≡ true) ⊎ ((options.validate_only ≡ false) × Simulated w config)

  -- What a launch with this scenario does, by the errors and --validate-only.
  launch_cases :
      (hash : String → ℕ) (clock : ℕ → ℕ) (options : CliOptions) (loaded : ScenarioConfig)
      → options.help ≡ false
      → options.version ≡ false
      → launch hash clock options (some loaded) ≡ (
          let config = prepare_scenario hash options loaded in
          if no_errors (get_validation_errors config)
          then (if options.validate_only then exits 0 else launch_nodes clock config.nodes)
          else exits 2)
  unfolding launch launch_scenario
  launch_cases hash clock options loaded h v = ground (arith, h, v)

  Succeeds-Codes :
      (w : Surroundings) (options : CliOptions) (config : ScenarioConfig) {code : Option ℕ}
      {V : Type 0}
      → options.validate_only ≡ false
      → Codes code V (Simulated w config)
      → Codes code V (Succeeds w options config)
  Succeeds-Codes w options config off (two, zero) = (
    two,
    (
      (λ e. let (v, s) = zero.0 e in (v, inr (off, s))),
      (λ t. zero.1 (t.0, elim t.1 [ inl on ↦ absurd (cc) | inr (_, s) ↦ s ])),
    ),
  )

  -- By the errors that were found and by --validate-only.
  flagged_codes :
      (w : Surroundings) (options : CliOptions) (config : ScenarioConfig) (clean only : Bool)
      → no_errors (get_validation_errors config) ≡ clean
      → options.validate_only ≡ only
      → Codes
          (run_launched w config.simulation.duration (
            if clean
            then (if only then exits 0 else launch_nodes w.clock config.nodes)
            else exits 2))
          (IsValidScenario config)
          (Succeeds w options config)
  unfolding run_launched
  flagged_codes w options config false only errors e =
      Codes-two (errors_of_invalid config _ refl errors)
  flagged_codes w options config true true errors e =
      Codes-zero (valid_of_errors config _ refl errors) (inl e)
  flagged_codes w options config true false errors e =
      Succeeds-Codes w options config e
        (launched_codes w config (valid_of_errors config _ refl errors))

  scenario_codes :
      (w : Surroundings) (options : CliOptions) (loaded : ScenarioConfig)
      → options.help ≡ false
      → options.version ≡ false
      → let config = prepare_scenario w.hash options loaded in
        Codes
          (run_scenario w options (some loaded))
          (IsValidScenario config)
          (Succeeds w options config)
  unfolding run_scenario
  scenario_codes w options loaded h v =
      let config = prepare_scenario w.hash options loaded in
      subst
        (λ l.
          Codes (run_launched w config.simulation.duration l) (IsValidScenario config)
            (Succeeds w options config))
        (sym (launch_cases w.hash w.clock options loaded h v))
        (flagged_codes w options config _ _ refl refl)

  -- The scenario file is read as a scenario of this kind.
  abbrev pub ReadAs : Surroundings → CliOptions → (ScenarioConfig → Type 0) → Type 0
  ReadAs w options P =
      (loaded : ScenarioConfig) × (read_scenario w options ≡ some loaded)
      × P (prepare_scenario w.hash options loaded)

  unread_code :
      (w : Surroundings) (options : CliOptions)
      → options.help ≡ false
      → options.version ≡ false
      → run_scenario w options none ≡ some 1
  unfolding run_scenario run_launched launch
  unread_code w options h v = rw (launch, h, v) refl

  ReadAs-unique :
      (w : Surroundings) (options : CliOptions) (P : ScenarioConfig → Type 0)
      (loaded : ScenarioConfig)
      → read_scenario w options ≡ some loaded
      → ReadAs w options P
      → P (prepare_scenario w.hash options loaded)
  ReadAs-unique w options P loaded e (other, e', holds) =
      subst (λ c. P (prepare_scenario w.hash options c)) (same (sym e' ∙ e)) holds
    where
      same : ◌≡◌ {A = Option ScenarioConfig} (some other) (some loaded) → other ≡ loaded
      same h = cc

  read_codes :
      (w : Surroundings) (options : CliOptions) (found : Option ScenarioConfig)
      → read_scenario w options ≡ found
      → options.help ≡ false
      → options.version ≡ false
      → let code = run_scenario w options found in
        ((code ≡ some 2) ↔ ReadAs w options (λ config. ¬ IsValidScenario config))
        × ((code ≡ some 0)
            ↔ ReadAs w options (λ config. IsValidScenario config × Succeeds w options config))
  read_codes w options none e h v =
      let one = unread_code w options h v in
      (
        ((λ c. absurd (ground (arith, one, c))), (λ t. absurd (none_some (sym e ∙ t.1)))),
        ((λ c. absurd (ground (arith, one, c))), (λ t. absurd (none_some (sym e ∙ t.1)))),
      )
    where
      none_some : {c : ScenarioConfig} → ◌≡◌ {A = Option ScenarioConfig} none (some c) → ⊥
      none_some h = cc
  read_codes w options (some loaded) e h v =
      let (two, zero) = scenario_codes w options loaded h v in
      (
        (
          (λ c. (loaded, e, two.0 c)),
          (λ t. two.1 (ReadAs-unique w options (λ config. ¬ IsValidScenario config) loaded e t)),
        ),
        (
          (λ c. (loaded, e, zero.0 c)),
          (λ t. zero.1 (
              ReadAs-unique w options (λ config. IsValidScenario config × Succeeds w options config)
                loaded e t)),
        ),
      )

  -- The exit code of a run whose command line is accepted, without --help and --version. It is 2 exactly
  -- when the scenario file is read and the scenario, with its templates expanded and the overrides
  -- applied, is not a valid one. It is 0 exactly when the file is read, that scenario is valid, and either
  -- --validate-only is given or all its nodes were created, with numeric identifiers that differ and are
  -- not 0, and the simulation ended, with no node that runs.
  pub exit_codes :
      (w : Surroundings) (arguments : Arguments) (options : CliOptions)
      → parse_command_line arguments ≡ ok options
      → options.help ≡ false
      → options.version ≡ false
      → let code = main w arguments in
        ((code ≡ some 2) ↔ ReadAs w options (λ config. ¬ IsValidScenario config))
        × ((code ≡ some 0)
            ↔ ReadAs w options (λ config. IsValidScenario config × Succeeds w options config))
  unfolding main
  exit_codes w arguments options e h v = rw (main, e) (read_codes w options _ refl h v)
