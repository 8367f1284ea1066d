-- ===== src/Firmware/LibraryValidation/State.antt =====
-- The state of the validation firmware, and the helpers of its tests.
use Prim.Native.String.{◌++◌}
use painless_mesh_simulator.Prelude.{
  ℕ, String, Bool, false, List, [], Option, none, some, if◌then◌else◌, add64, cast32,
}
use painless_mesh_simulator.Prelude.Int.{ℤ}
use painless_mesh_simulator.Platform.{Platform}
use painless_mesh_simulator.Result.{
  Result, ok, err, Exception, invalid_argument, out_of_range, runtime_error, yaml_exception,
}
use painless_mesh_simulator.StdMap.{StdMap, StdSet}
use painless_mesh_simulator.Firmware.{FirmwareBase, firmware_base}
use painless_mesh_simulator.Firmware.Report.{
  TestResult, test_result, ValidationReport, validation_report, add_result, record_test,
}

pub data ValidationPhase : Type 0 where
  initialization mesh_formation message_tests time_sync_tests topology_tests : ValidationPhase
  resilience_tests complete : ValidationPhase

-- What the steady clock measures for the test with a name, in milliseconds.
abbrev pub Stopwatch : Type 0
Stopwatch = String → ℕ

-- e.what()
unfoldable pub what : Exception → String
what (invalid_argument text) = text
what (out_of_range text) = text
what (runtime_error text) = text
what (yaml_exception text) = text

-- A test function that returns, or throws.
unfoldable pub test_api : Stopwatch → String → Result Bool → TestResult
test_api elapsed api_name (ok passed) = record (test_result api_name passed "") {
  duration_ms = cast32 (elapsed api_name);
  details = if passed then "" else "Test condition not met";
}
test_api elapsed api_name (err e) = record (test_result api_name false ("Exception: " ++ what e)) {
  duration_ms = cast32 (elapsed api_name);
}

module _ ⦃p : Platform⦄ where
  -- `expected_nodes_` is never used.
  pub record LibraryValidationFirmware : Type 0 where
    pub base : FirmwareBase
    pub is_coordinator : Bool
    pub detailed_logging : Bool
    pub test_duration_ms : ℕ
    pub phase : ValidationPhase
    pub report : ValidationReport
    pub connected_nodes : StdSet ℕ
    pub messages_from_node : StdMap ℕ ℕ
    pub time_adjustments : List ℤ
    pub initial_node_time : ℕ
    pub phase_start_time : ℕ

  unfoldable pub library_validation_firmware : LibraryValidationFirmware
  library_validation_firmware = record {
    base = firmware_base "LibraryValidation";
    is_coordinator = false;
    detailed_logging = false;
    test_duration_ms = 30000;
    phase = ValidationPhase.initialization;
    report = validation_report;
    connected_nodes = [];
    messages_from_node = [];
    time_adjustments = [];
    initial_node_time = 0;
    phase_start_time = 0;
  }

  -- report_.addResult(result), and report_.coverage.recordTest of the interface that is named, if any.
  unfoldable pub judge :
      Option String → TestResult → LibraryValidationFirmware → LibraryValidationFirmware
  judge none result f = record f { report = add_result result f.report }
  judge (some api) result f =
      let added = add_result result f.report in
      record f { report = record added { coverage = record_test api result.passed added.coverage } }

  unfoldable pub record_message : Bool → LibraryValidationFirmware → LibraryValidationFirmware
  record_message sent f =
      let r = f.report in
      record f {
        report =
            if sent
            then record r { total_messages_sent = add64 r.total_messages_sent 1 }
            else record r { total_messages_received = add64 r.total_messages_received 1 };
      }
