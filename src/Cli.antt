-- ===== src/Cli.antt =====
-- The command line, src/cli/cli_parser.cpp and include/simulator/cli_options.hpp. Boost.Program_options
-- reads the arguments.
pub mod Accepted
use Prim.Native.String.{◌++◌ as ◌+++◌}
use painless_mesh_simulator.Prelude.{
  ℕ, String, Bool, true, false, not, ◌||◌, Option, none, some, str_eq, if◌then◌else◌,
}
use painless_mesh_simulator.Result.{Exception, runtime_error, Result, ok, err, require, ◌>>=◌, ◌>>◌}
use painless_mesh_simulator.Platform.{Platform}

module _ ⦃p : Platform⦄ where
  -- CLIOptions
  pub record CliOptions : Type 0 where
    pub config_file : String
    pub duration : Option ℕ
    pub log_level : String
    pub output_dir : String
    pub ui_mode : String
    pub validate_only : Bool
    pub help : Bool
    pub version : Bool
    pub time_scale : Option p.Float

  -- What po::variables_map holds of the described options, with the defaults that the descriptions
  -- give to some of them.
  pub record VariablesMap : Type 0 where
    pub help : Bool
    pub version : Bool
    pub config : Option String
    pub duration : Option ℕ
    pub log_level : String
    pub output : String
    pub ui : String
    pub validate_only : Bool
    pub time_scale : Option p.Float

  -- What po::store and po::notify do with the arguments: they throw a po::error with this text, or
  -- fill the map.
  pub data Arguments : Type 0 where
    po_error : String → Arguments
    variables : VariablesMap → Arguments

  unfoldable pub default_options : CliOptions
  default_options = record {
    config_file = "";
    duration = none;
    log_level = "INFO";
    output_dir = "results/";
    ui_mode = "none";
    validate_only = false;
    help = false;
    version = false;
    time_scale = none;
  }

  abbrev pub is_log_level : String → Bool
  is_log_level s = str_eq s "DEBUG" || str_eq s "INFO" || str_eq s "WARN" || str_eq s "ERROR"

  abbrev pub is_ui_mode : String → Bool
  is_ui_mode s = str_eq s "none" || str_eq s "terminal"

  abbrev pub is_time_scale : Option p.Float → Bool
  is_time_scale none = true
  is_time_scale (some t) = not (p.float.le t (p.float.of_ℕ 0))

  -- The part behind --help and --version.
  unfoldable pub parse_options : VariablesMap → Result CliOptions
  parse_options vm = elim vm.config [
    | none ↦
        err
          (runtime_error "Configuration file is required. Use --config <file> or --help for usage.")
    | some config_file ↦ do
      require (is_log_level vm.log_level) (
          runtime_error
            ("Invalid log level: " +++ vm.log_level +++ ". Must be DEBUG, INFO, WARN, or ERROR"))
      require (is_ui_mode vm.ui)
          (runtime_error ("Invalid UI mode: " +++ vm.ui +++ ". Must be 'none' or 'terminal'"))
      require (is_time_scale vm.time_scale) (runtime_error "Time scale must be greater than 0")
      ok (record {
        config_file = config_file;
        duration = vm.duration;
        log_level = vm.log_level;
        output_dir = vm.output;
        ui_mode = vm.ui;
        validate_only = vm.validate_only;
        help = false;
        version = false;
        time_scale = vm.time_scale;
      })
  ]

  unfoldable pub parse_command_line : Arguments → Result CliOptions
  parse_command_line (po_error what) = err (runtime_error ("Command-line parse error: " +++ what))
  parse_command_line (variables vm) =
      if vm.help
      then ok (record default_options { help = true })
      else if vm.version
      then ok (record default_options { version = true })
      else parse_options vm
