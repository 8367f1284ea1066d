-- ===== src/Firmware/Report.antt =====
-- The report of the validation firmware, include/simulator/firmware/library_validation_firmware.hpp:
-- ApiCoverage and ValidationReport.
pub mod Counts
use painless_mesh_simulator.Prelude.{
  ℕ, String, Bool, true, false, ◌&&◌, List, [], ◌∷◌, ◌++◌, if◌then◌else◌, ◌==◌, ltb, add32,
}
use painless_mesh_simulator.TextMap
use painless_mesh_simulator.Platform.{Platform}

pub record TestResult : Type 0 where
  pub test_name : String
  pub passed : Bool
  pub details : String
  pub duration_ms : ℕ

-- The constructor.
unfoldable pub test_result : String → Bool → String → TestResult
test_result name pass detail = record {
  test_name = name;
  passed = pass;
  details = detail;
  duration_ms = 0;
}

pub record ApiCoverage : Type 0 where
  pub total_apis : ℕ
  pub tested_apis : ℕ
  pub passed_apis : ℕ
  pub failed_apis : ℕ
  pub api_status : List (String × Bool)

unfoldable pub record_test : String → Bool → ApiCoverage → ApiCoverage
record_test api_name passed c = record c {
  tested_apis = add32 c.tested_apis 1;
  passed_apis = if passed then add32 c.passed_apis 1 else c.passed_apis;
  failed_apis = if passed then c.failed_apis else add32 c.failed_apis 1;
  api_status = TextMap.insert api_name passed c.api_status;
}

module _ ⦃p : Platform⦄ where
  unfoldable get_pass_rate : ApiCoverage → p.Double
  get_pass_rate c =
      if c.tested_apis == 0
      then p.double.of_ℕ 0
      else p.double.mul (p.double.div (p.double.of_ℕ c.passed_apis) (p.double.of_ℕ c.tested_apis))
          (p.double.of_ℕ 100)

  pub record ValidationReport : Type 0 where
    pub all_tests_passed : Bool
    pub total_tests : ℕ
    pub passed_tests : ℕ
    pub failed_tests : ℕ
    pub coverage : ApiCoverage
    pub total_messages_sent : ℕ
    pub total_messages_received : ℕ
    pub message_loss_count : ℕ
    pub message_loss_rate : p.Double
    pub avg_time_sync_error_us : ℕ
    pub max_time_sync_error_us : ℕ
    pub topology_change_count : ℕ
    pub test_results : List TestResult

  -- With `total_apis` of 25, as the firmware's constructor sets it.
  unfoldable pub validation_report : ValidationReport
  validation_report = record {
    all_tests_passed = false;
    total_tests = 0;
    passed_tests = 0;
    failed_tests = 0;
    coverage = record {
      total_apis = 25;
      tested_apis = 0;
      passed_apis = 0;
      failed_apis = 0;
      api_status = [];
    };
    total_messages_sent = 0;
    total_messages_received = 0;
    message_loss_count = 0;
    message_loss_rate = p.double.of_ℕ 0;
    avg_time_sync_error_us = 0;
    max_time_sync_error_us = 0;
    topology_change_count = 0;
    test_results = [];
  }

  unfoldable pub add_result : TestResult → ValidationReport → ValidationReport
  add_result result r = record r {
    test_results = r.test_results ++ (result ∷ []);
    total_tests = add32 r.total_tests 1;
    passed_tests = if result.passed then add32 r.passed_tests 1 else r.passed_tests;
    failed_tests = if result.passed then r.failed_tests else add32 r.failed_tests 1;
  }

  unfoldable pub finalize : ValidationReport → ValidationReport
  finalize r = record r {
    all_tests_passed = r.failed_tests == 0 && ltb 0 r.total_tests;
    message_loss_rate =
        if ltb 0 r.total_messages_sent
        then p.double.mul
            (p.double.div (p.double.of_ℕ r.message_loss_count)
              (p.double.of_ℕ r.total_messages_sent))
            (p.double.of_ℕ 100)
        else r.message_loss_rate;
  }
