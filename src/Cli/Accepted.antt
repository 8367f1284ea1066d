-- ===== src/Cli/Accepted.antt =====
-- The command lines that are accepted, and their overrides of a scenario.
use painless_mesh_simulator.Prelude.{
  ◌≡◌, refl, ◌⊎◌, ◌↔◌, inl, inr, String, true, false, Option, none, some, eq_iff, arith,
  Option-cases,
}
use painless_mesh_simulator.Result.{ok}
use painless_mesh_simulator.Platform.{Platform}
use painless_mesh_simulator.Cli.{
  CliOptions, VariablesMap, variables, is_log_level, is_ui_mode, is_time_scale, parse_options,
  parse_command_line,
}

module _ ⦃p : Platform⦄ where
  -- The options that a run without --help and --version gets.
  pub record AcceptedOptions (vm : VariablesMap) (options : CliOptions) : Type 0 where
    pub config : vm.config ≡ some options.config_file
    pub log_level :
        (vm.log_level ≡ "DEBUG")
        ⊎ (vm.log_level ≡ "INFO")
        ⊎ (vm.log_level ≡ "WARN")
        ⊎ (vm.log_level ≡ "ERROR")
    pub ui : (vm.ui ≡ "none") ⊎ (vm.ui ≡ "terminal")
    pub time_scale : (t : p.Float) → vm.time_scale ≡ some t → p.float.le t (p.float.of_ℕ 0) ≡ false
    pub copied : options ≡ record {
      config_file = options.config_file;
      duration = vm.duration;
      log_level = vm.log_level;
      output_dir = vm.output;
      ui_mode = vm.ui;
      validate_only = vm.validate_only;
      help = false;
      version = false;
      time_scale = vm.time_scale;
    }

  level_cases :
      (s : String)
      → is_log_level s ≡ true
      → (s ≡ "DEBUG") ⊎ (s ≡ "INFO") ⊎ (s ≡ "WARN") ⊎ (s ≡ "ERROR")
  level_cases s h =
      ground (arith, eq_iff s "DEBUG", eq_iff s "INFO", eq_iff s "WARN", eq_iff s "ERROR", h)

  ui_cases : (s : String) → is_ui_mode s ≡ true → (s ≡ "none") ⊎ (s ≡ "terminal")
  ui_cases s h = ground (arith, eq_iff s "none", eq_iff s "terminal", h)

  is_log_level-lem :
      (s : String)
      → (s ≡ "DEBUG") ⊎ (s ≡ "INFO") ⊎ (s ≡ "WARN") ⊎ (s ≡ "ERROR")
      → is_log_level s ≡ true
  is_log_level-lem s h =
      ground (arith, eq_iff s "DEBUG", eq_iff s "INFO", eq_iff s "WARN", eq_iff s "ERROR", h)

  is_ui_mode-lem : (s : String) → (s ≡ "none") ⊎ (s ≡ "terminal") → is_ui_mode s ≡ true
  is_ui_mode-lem s h = ground (arith, eq_iff s "none", eq_iff s "terminal", h)

  is_time_scale-lem :
      (o : Option p.Float)
      → ((t : p.Float) → o ≡ some t → p.float.le t (p.float.of_ℕ 0) ≡ false)
      → is_time_scale o ≡ true
  is_time_scale-lem none h = refl
  is_time_scale-lem (some t) h = ground (arith, h t refl)

  time_scale_positive :
      (o : Option p.Float) (t : p.Float)
      → is_time_scale o ≡ true
      → o ≡ some t
      → p.float.le t (p.float.of_ℕ 0) ≡ false
  time_scale_positive o t h e = ground (arith, h, e)

  parse_options-AcceptedOptions :
      (vm : VariablesMap) (options : CliOptions)
      → parse_options vm ≡ ok options
      → AcceptedOptions vm options
  unfolding parse_options
  parse_options-AcceptedOptions vm options h = elim (Option-cases vm.config) [
    | inl e ↦ absurd (ground (arith, e, h))
    | inr (file, e) ↦ record {
      config = ground (arith, e, h);
      log_level = level_cases vm.log_level (ground (arith, e, h));
      ui = ui_cases vm.ui (ground (arith, e, h));
      time_scale = λ t. time_scale_positive vm.time_scale t (ground (arith, e, h));
      copied = ground (arith, e, h);
    }
  ]

  AcceptedOptions-parse_options :
      (vm : VariablesMap) (options : CliOptions)
      → AcceptedOptions vm options
      → parse_options vm ≡ ok options
  unfolding parse_options
  AcceptedOptions-parse_options vm options a = ground (
    arith,
    a.config,
    is_log_level-lem vm.log_level a.log_level,
    is_ui_mode-lem vm.ui a.ui,
    is_time_scale-lem vm.time_scale a.time_scale,
    a.copied,
  )

  -- Without --help and --version the command line is accepted with these options if and only if a
  -- configuration file is given, the log level and the UI mode are among the known ones, and a time
  -- scale, if given, is not 0 or below; and the options are then those of the arguments.
  pub parse_command_line_lem :
      (vm : VariablesMap) (options : CliOptions)
      → vm.help ≡ false
      → vm.version ≡ false
      → (parse_command_line (variables vm) ≡ ok options) ↔ AcceptedOptions vm options
  unfolding parse_command_line
  parse_command_line_lem vm options h v = (
    (λ e. parse_options-AcceptedOptions vm options (ground (arith, h, v, e))),
    λ a. ground (arith, h, v, AcceptedOptions-parse_options vm options a),
  )
