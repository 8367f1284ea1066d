-- ===== src/Firmware/LibraryValidation/Operations.antt =====
-- The calls that the mesh and the scheduler make on the validation firmware, in the order of time.
use painless_mesh_simulator.Prelude.{
  ℕ, suc, String, List, [], ◌∷◌, if◌then◌else◌, leb, sub32, cast32,
}
use painless_mesh_simulator.Prelude.Int.{ℤ}
use painless_mesh_simulator.Platform.{Platform}
use painless_mesh_simulator.Firmware.{MeshAnswers}
use painless_mesh_simulator.Firmware.LibraryValidation.State.{
  LibraryValidationFirmware, ValidationPhase, Stopwatch,
}
use painless_mesh_simulator.Firmware.LibraryValidation.Phases.{
  run_validation_tests, check_expected_messages,
}
use painless_mesh_simulator.Firmware.LibraryValidation.Callbacks.{
  on_receive, on_new_connection, on_changed_connections, on_node_time_adjusted,
}

pub data Operation : Type 0 where
  received : ℕ → String → Operation
  connected : ℕ → Operation
  connections_changed : Operation
  time_adjusted : ℤ → Operation
  expected_checked : Operation
  -- a run of the task of `runValidationTests`, with millis() before and after the tests
  tests_run : Stopwatch → MeshAnswers → ℕ → ℕ → Operation

module _ ⦃p : Platform⦄ where
  unfoldable pub operate : Operation → LibraryValidationFirmware → LibraryValidationFirmware
  operate (received from message) f = on_receive from message f
  operate (connected node_id) f = on_new_connection node_id f
  operate connections_changed f = on_changed_connections f
  operate (time_adjusted offset) f = on_node_time_adjusted offset f
  operate expected_checked f = check_expected_messages f
  operate (tests_run elapsed answers now later) f = run_validation_tests elapsed answers now later f

  unfoldable pub operate_all :
      List Operation → LibraryValidationFirmware → LibraryValidationFirmware
  unfolding operate
  operate_all [] f = f
  operate_all (operation ∷ operations) f = operate_all operations (operate operation f)

abbrev pub rank : ValidationPhase → ℕ
rank ValidationPhase.initialization = 0
rank ValidationPhase.mesh_formation = 1
rank ValidationPhase.message_tests = 2
rank ValidationPhase.time_sync_tests = 3
rank ValidationPhase.topology_tests = 4
rank ValidationPhase.resilience_tests = 5
rank ValidationPhase.complete = 6

-- The runs of the test task that find a phase over, which lasts this long and began at this time. A
-- run that does so begins the next phase, also after the last one.
unfoldable pub due_runs : ℕ → ℕ → List Operation → ℕ
due_runs duration start [] = 0
due_runs duration start (tests_run elapsed answers now later ∷ operations) =
    let due = due_runs duration (cast32 later) operations in
    let early = due_runs duration start operations in
    if leb duration (sub32 (cast32 now) start) then suc due else early
due_runs duration start (operation ∷ operations) = due_runs duration start operations
