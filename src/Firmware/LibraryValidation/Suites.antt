-- ===== src/Firmware/LibraryValidation/Suites.antt =====
-- The test suites of the validation firmware. `elapsed` is the stopwatch of the tests, and `answers`
-- what the mesh answers meanwhile.
use Prim.Native.String.{◌++◌}
use painless_mesh_simulator.Prelude.{
  ℕ, ◌/◌, Bool, true, false, not, ◌&&◌, List, [], ◌∷◌, none, some, length, if◌then◌else◌, ◌==◌, ltb,
  leb, add32, cast32,
}
use painless_mesh_simulator.Prelude.Int.{ℤ, abs}
use painless_mesh_simulator.Platform.{Platform}
use painless_mesh_simulator.Result.{ok}
use painless_mesh_simulator.Text.{to_string}
use painless_mesh_simulator.Firmware.{
  FirmwareBase, MeshAnswers, get_node_time, get_node_list, send_broadcast, send_single,
}
use painless_mesh_simulator.Firmware.Report.{test_result}
use painless_mesh_simulator.Firmware.LibraryValidation.State.{
  LibraryValidationFirmware, Stopwatch, test_api, judge, record_message,
}

-- The sum and the greatest of the errors, both as `uint32_t`.
unfoldable time_errors : ℕ → ℕ → List ℤ → ℕ × ℕ
time_errors total_error max_error [] = (total_error, max_error)
time_errors total_error max_error (offset ∷ offsets) =
    let error = abs offset in
    time_errors (add32 total_error error) (if ltb max_error error then error else max_error) offsets

unfoldable pub all_non_zero : List ℕ → Bool
all_non_zero [] = true
all_non_zero (node_id ∷ nodes) = not (node_id == 0) && all_non_zero nodes

module _ ⦃p : Platform⦄ where
  abbrev on_base :
      (FirmwareBase → FirmwareBase) → LibraryValidationFirmware → LibraryValidationFirmware
  on_base send f = record f { base = send f.base }

  unfoldable pub measure_time_errors :
      List ℤ → LibraryValidationFirmware → LibraryValidationFirmware
  unfolding time_errors
  measure_time_errors [] f = f
  measure_time_errors (first ∷ others) f =
      let (total_error, max_error) = time_errors 0 0 (first ∷ others) in
      record f {
        report = record (f.report) {
          avg_time_sync_error_us = cast32 (total_error / length (first ∷ others));
          max_time_sync_error_us = max_error;
        };
      }

module _ ⦃p : Platform⦄ (elapsed : Stopwatch) (answers : MeshAnswers) where
  unfoldable pub test_mesh_lifecycle : LibraryValidationFirmware → LibraryValidationFirmware
  test_mesh_lifecycle f =
      judge (some "getNodeList()") (test_api elapsed "getNodeList()" (ok true)) (
        judge (some "getNodeTime()")
          (test_api elapsed "getNodeTime()" (ok (ltb 0 (get_node_time answers f.base))))
          (judge none (test_api elapsed "getNodeId()" (ok (not (f.base.node_id == 0)))) (
            judge (some "init()")
              (test_api elapsed "init()" (ok (f.base.has_mesh && f.base.initialized))) f)))

  unfoldable pub broadcast_test : LibraryValidationFirmware → LibraryValidationFirmware
  broadcast_test f =
      let message = "VALIDATION_BROADCAST:" ++ to_string f.base.node_id in
      judge (some "sendBroadcast()") (test_api elapsed "sendBroadcast(String)" (ok true))
        (record_message true (on_base (send_broadcast message) f))

  -- The result is added once more at the end.
  unfoldable pub single_test : ℕ → LibraryValidationFirmware → LibraryValidationFirmware
  single_test target f =
      let message = "VALIDATION_SINGLE:" ++ to_string f.base.node_id in
      let result = test_api elapsed "sendSingle(uint32_t, String)" (ok true) in
      judge none result (
        judge (some "sendSingle()") result
          (record_message true (on_base (send_single target message) f)))

  -- The suite with this list of nodes.
  unfoldable pub send_tests : List ℕ → LibraryValidationFirmware → LibraryValidationFirmware
  unfolding broadcast_test single_test
  send_tests [] f =
      judge none (test_result "sendBroadcast()" false "No nodes to broadcast to")
        (judge none (test_result "sendSingle()" false "No nodes to send to") f)
  send_tests (target ∷ others) f = single_test target (broadcast_test f)

  unfoldable pub test_message_sending : LibraryValidationFirmware → LibraryValidationFirmware
  unfolding send_tests
  test_message_sending f = send_tests (get_node_list answers f.base) f

  unfoldable pub test_message_reception : LibraryValidationFirmware → LibraryValidationFirmware
  test_message_reception f =
      judge none
        (test_api elapsed "Multi-node reception" (ok (ltb 1 (length f.messages_from_node))))
        (judge (some "onReceive()")
          (test_api elapsed "onReceive() callback" (ok (ltb 0 f.report.total_messages_received))) f)

  unfoldable pub test_connection_management : LibraryValidationFirmware → LibraryValidationFirmware
  test_connection_management f =
      judge none
        (test_api elapsed "getNodeList() accuracy"
          (ok (leb (length f.connected_nodes) (length (get_node_list answers f.base)))))
        (judge (some "onChangedConnections()")
          (test_api elapsed "onChangedConnections() callback"
            (ok (ltb 0 f.report.topology_change_count)))
          (judge (some "onNewConnection()")
            (test_api elapsed "onNewConnection() callback" (ok (ltb 0 (length f.connected_nodes))))
            f))

  unfoldable pub test_time_synchronization : LibraryValidationFirmware → LibraryValidationFirmware
  test_time_synchronization f = measure_time_errors f.time_adjustments (
      judge none
        (test_api elapsed "getNodeTime() progression"
          (ok (ltb f.initial_node_time (get_node_time answers f.base))))
        (judge (some "onNodeTimeAdjusted()")
          (test_api elapsed "onNodeTimeAdjusted() callback"
            (ok (ltb 0 (length f.time_adjustments))))
          f))

  unfoldable pub test_topology_discovery : LibraryValidationFirmware → LibraryValidationFirmware
  test_topology_discovery f =
      judge none
        (test_api elapsed "Node list consistency"
          (ok (all_non_zero (get_node_list answers f.base))))
        (judge none
          (test_api elapsed "Topology change detection" (ok (ltb 0 f.report.topology_change_count)))
          f)

  unfoldable pub test_network_resilience : LibraryValidationFirmware → LibraryValidationFirmware
  test_network_resilience f =
      judge none
        (test_api elapsed "Message delivery rate"
          (ok (p.double.lt f.report.message_loss_rate (p.double.of_ℕ 10))))
        (judge none
          (test_api elapsed "Mesh stability" (ok (ltb 0 (length (get_node_list answers f.base)))))
          f)
