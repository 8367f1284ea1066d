-- ===== src/Program/Overrides.antt =====
-- The overrides of the command line and the validation of the scenario.
use painless_mesh_simulator.Prelude.{
  ℕ, ◌≤◌, ◌≡◌, refl, ap, ◌⊎◌, String, false, Option, none, some, List, [], ◌∷◌, All, arith,
}
use painless_mesh_simulator.Result.{ok}
use painless_mesh_simulator.Platform.{Platform}
use painless_mesh_simulator.Cli.{CliOptions, VariablesMap, variables, parse_command_line}
use painless_mesh_simulator.Cli.Accepted.{parse_command_line_lem}
use painless_mesh_simulator.Scenario.{EventConfig, ScenarioConfig}
use painless_mesh_simulator.Scenario.Validation.{get_validation_errors, node_ids}
use painless_mesh_simulator.Scenario.ValidScenario.{IsEvent}
use painless_mesh_simulator.Scenario.NoErrors.{no_errors_iff_valid}
use painless_mesh_simulator.Program.{apply_cli_overrides, or_else}

module _ ⦃p : Platform⦄ where
  -- The event comes within this duration, where 0 has no end.
  abbrev InTime : ℕ → EventConfig → Type 0
  InTime duration e = (duration ≡ 0) ⊎ (e.time ≤ duration)

  events-InTime :
      (before after : ℕ) (ids : List String) (events : List EventConfig)
      → All (InTime after) events
      → All (IsEvent before ids) events
      → All (IsEvent after ids) events
  events-InTime before after ids [] l v = tt
  events-InTime before after ids (e ∷ es) (l, ls) ((_, target, quality), vs) =
      ((l, target, quality), events-InTime before after ids es ls vs)

  scaled :
      (o : Option p.Float) (t : p.Float)
      → ((s : p.Float) → o ≡ some s → p.float.le s (p.float.of_ℕ 0) ≡ false)
      → p.float.le t (p.float.of_ℕ 0) ≡ false
      → p.float.le (or_else o t) (p.float.of_ℕ 0) ≡ false
  scaled none t h v = v
  scaled (some s) t h v = h s refl

  -- The overrides of an accepted command line, without --help and --version, leave a scenario without
  -- validation errors without them, if its events come within the duration that it then has. They change
  -- no more than the duration, the time scale and the output of the metrics.
  pub overrides_keep_valid :
      (vm : VariablesMap) (options : CliOptions) (config : ScenarioConfig)
      → vm.help ≡ false
      → vm.version ≡ false
      → parse_command_line (variables vm) ≡ ok options
      → get_validation_errors config ≡ []
      → All (InTime (apply_cli_overrides options config).simulation.duration) config.events
      → let after = apply_cli_overrides options config in
        (get_validation_errors after ≡ [])
        × (after.network ≡ config.network)
        × (after.nodes ≡ config.nodes)
        × (after.topology ≡ config.topology)
        × (after.events ≡ config.events)
        × (after.templates ≡ config.templates)
        × (after.simulation ≡ record (config.simulation) {
          duration = after.simulation.duration;
          time_scale = after.simulation.time_scale;
        })
        × (after.metrics ≡ record (config.metrics) { output = after.metrics.output })
  unfolding apply_cli_overrides
  overrides_keep_valid vm options config h v parsed valid in_time =
      let a = (parse_command_line_lem vm options h v).0 parsed in
      let old = (no_errors_iff_valid config).0 valid in
      let time_scales : (s : p.Float)
          → options.time_scale ≡ some s
          → p.float.le s (p.float.of_ℕ 0) ≡ false =
        λ s e. a.time_scale s (ground (arith, ap (λ (o : CliOptions). o.time_scale) a.copied, e)) in
      (
        (no_errors_iff_valid (apply_cli_overrides options config)).1 (record {
          name = old.name;
          time_scale =
              scaled options.time_scale config.simulation.time_scale time_scales old.time_scale;
          default_latency = old.default_latency;
          latencies = old.latencies;
          default_loss = old.default_loss;
          losses = old.losses;
          legacy_loss = old.legacy_loss;
          bandwidth = old.bandwidth;
          some_node = old.some_node;
          nodes = old.nodes;
          distinct = old.distinct;
          topology = old.topology;
          events =
              events-InTime config.simulation.duration _ (node_ids config.nodes) config.events
                in_time old.events;
        }),
        refl,
        refl,
        refl,
        refl,
        refl,
        refl,
        ground arith,
      )
