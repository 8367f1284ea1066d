-- ===== src/Firmware/LibraryValidation/Quiet.antt =====
-- The operations of the validation firmware that are no tests.
use painless_mesh_simulator.Prelude.{ℕ, ◌≡◌, String, arith}
use painless_mesh_simulator.Prelude.Int.{ℤ}
use painless_mesh_simulator.Platform.{Platform}
use painless_mesh_simulator.Firmware.LibraryValidation.State.{
  LibraryValidationFirmware, record_message,
}
use painless_mesh_simulator.Firmware.LibraryValidation.Phases.{check_expected_messages}
use painless_mesh_simulator.Firmware.LibraryValidation.Callbacks.{
  on_receive, on_new_connection, on_changed_connections, on_node_time_adjusted,
}

module _ ⦃p : Platform⦄ where
  -- From f to g nothing changes that the tests and the phases read or write.
  pub record Quiet (f g : LibraryValidationFirmware) : Type 0 where
    pub same_results : g.report.test_results ≡ f.report.test_results
    pub same_total : g.report.total_tests ≡ f.report.total_tests
    pub same_passed : g.report.passed_tests ≡ f.report.passed_tests
    pub same_failed : g.report.failed_tests ≡ f.report.failed_tests
    pub same_coverage : g.report.coverage ≡ f.report.coverage
    pub same_rate : g.report.message_loss_rate ≡ f.report.message_loss_rate
    pub same_verdict : g.report.all_tests_passed ≡ f.report.all_tests_passed
    pub same_phase : g.phase ≡ f.phase
    pub same_role : g.is_coordinator ≡ f.is_coordinator
    pub same_duration : g.test_duration_ms ≡ f.test_duration_ms
    pub same_start : g.phase_start_time ≡ f.phase_start_time

  pub receive-Quiet :
      (from : ℕ) (message : String) (f : LibraryValidationFirmware)
      → Quiet f (on_receive from message f)
  unfolding on_receive record_message
  receive-Quiet from message f = ground arith

  pub connection-Quiet :
      (node_id : ℕ) (f : LibraryValidationFirmware) → Quiet f (on_new_connection node_id f)
  unfolding on_new_connection
  connection-Quiet node_id f = ground arith

  pub change-Quiet : (f : LibraryValidationFirmware) → Quiet f (on_changed_connections f)
  unfolding on_changed_connections
  change-Quiet f = ground arith

  pub adjustment-Quiet :
      (offset : ℤ) (f : LibraryValidationFirmware) → Quiet f (on_node_time_adjusted offset f)
  unfolding on_node_time_adjusted
  adjustment-Quiet offset f = ground arith

  pub check-Quiet : (f : LibraryValidationFirmware) → Quiet f (check_expected_messages f)
  unfolding check_expected_messages
  check-Quiet f = ground arith
