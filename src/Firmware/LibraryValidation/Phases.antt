-- ===== src/Firmware/LibraryValidation/Phases.antt =====
-- The phases of the validation firmware, its set-up and its periodic tasks. A `uint32_t` that the code
-- takes from millis() is converted; `now` and `later` are its values before and after the tests.
use text.Mathlib.Text.{◌==◌ as str_eq}
use painless_mesh_simulator.Prelude.{
  ℕ, String, Bool, List, [], ◌∷◌, none, some, if◌then◌else◌, ◌==◌, ◌≡◌, refl, ◌∙◌, ap, true, false,
  leb, sub32, mul32, cast32, add64,
}
use painless_mesh_simulator.Platform.{Platform}
use painless_mesh_simulator.Result.{Result, ok, err, Step}
use painless_mesh_simulator.StdMap
use painless_mesh_simulator.StdMap.{StdMap, ℕ_key}
use painless_mesh_simulator.Text.Stoul.{stoul}
use painless_mesh_simulator.Firmware.{
  FirmwareBase, MeshAnswers, add_task, enable_task, disable_task, log, get_config, get_node_time,
}
use painless_mesh_simulator.Firmware.Report.{finalize}
use painless_mesh_simulator.Firmware.LibraryValidation.State.{
  LibraryValidationFirmware, ValidationPhase, Stopwatch,
}
use painless_mesh_simulator.Firmware.LibraryValidation.Suites.{
  test_mesh_lifecycle, test_message_sending, test_message_reception, test_connection_management,
  test_time_synchronization, test_topology_discovery, test_network_resilience,
}

if_same {ℓ} : {A : Type ℓ} (b : Bool) (a : A) → (if b then a else a) ≡ a
if_same true a = refl
if_same false a = refl

abbrev start_task : String → FirmwareBase → FirmwareBase
start_task task base = log (enable_task task) (log (add_task task) base)

-- The loop of `checkExpectedMessages`: `operator[]` puts a 0 where a node has no entry.
unfoldable pub check_node : ℕ → StdMap ℕ ℕ → ℕ → StdMap ℕ ℕ × ℕ
check_node node_id messages lost = elim (StdMap.find node_id messages) [
  | none ↦ (StdMap.insert node_id 0 messages, add64 lost 1)
  | some n ↦ (messages, if n == 0 then add64 lost 1 else lost)
]

unfoldable pub check_nodes : List ℕ → StdMap ℕ ℕ → ℕ → StdMap ℕ ℕ × ℕ
unfolding check_node
check_nodes [] messages lost = (messages, lost)
check_nodes (node_id ∷ nodes) messages lost =
    let (messages', lost') = check_node node_id messages lost in check_nodes nodes messages' lost'

module _ ⦃p : Platform⦄ where
  unfoldable pub finish : LibraryValidationFirmware → LibraryValidationFirmware
  finish f = record f { phase = ValidationPhase.complete; report = finalize f.report }

  unfoldable pub end_phase :
      Stopwatch
      → MeshAnswers
      → ValidationPhase
      → LibraryValidationFirmware
      → LibraryValidationFirmware
  unfolding finish
  end_phase elapsed answers ValidationPhase.initialization f = record f {
    phase = ValidationPhase.mesh_formation;
  }
  end_phase elapsed answers ValidationPhase.mesh_formation f =
      record (test_connection_management elapsed answers f) {
        phase = ValidationPhase.message_tests;
      }
  end_phase elapsed answers ValidationPhase.message_tests f =
      record (test_message_reception elapsed answers (test_message_sending elapsed answers f)) {
        phase = ValidationPhase.time_sync_tests;
      }
  end_phase elapsed answers ValidationPhase.time_sync_tests f =
      record (test_time_synchronization elapsed answers f) {
        phase = ValidationPhase.topology_tests;
      }
  end_phase elapsed answers ValidationPhase.topology_tests f =
      record (test_topology_discovery elapsed answers f) {
        phase = ValidationPhase.resilience_tests;
      }
  end_phase elapsed answers ValidationPhase.resilience_tests f =
      finish (test_network_resilience elapsed answers f)
  end_phase elapsed answers ValidationPhase.complete f = record f {
    base =
        log (disable_task "status_report_task_") (
          log (disable_task "message_test_task_")
            (log (disable_task "test_progress_task_") f.base));
  }

  unfoldable pub progress_to_next_phase :
      Stopwatch → MeshAnswers → ℕ → LibraryValidationFirmware → LibraryValidationFirmware
  unfolding end_phase
  progress_to_next_phase elapsed answers later f = record (end_phase elapsed answers f.phase f) {
    phase_start_time = cast32 later;
  }

  unfoldable pub run_validation_tests :
      Stopwatch → MeshAnswers → ℕ → ℕ → LibraryValidationFirmware → LibraryValidationFirmware
  unfolding progress_to_next_phase
  run_validation_tests elapsed answers now later f =
      let progressed = progress_to_next_phase elapsed answers later f in
      if f.is_coordinator
      then if leb f.test_duration_ms (sub32 (cast32 now) f.phase_start_time) then progressed else f
      else f

  -- The two outcomes for a coordinator, and that of a participant.
  pub tests_due :
      (elapsed : Stopwatch) (answers : MeshAnswers) (now later : ℕ) (f : LibraryValidationFirmware)
      → f.is_coordinator ≡ true
      → leb f.test_duration_ms (sub32 (cast32 now) f.phase_start_time) ≡ true
      → run_validation_tests elapsed answers now later f
        ≡ progress_to_next_phase elapsed answers later f
  unfolding run_validation_tests
  tests_due elapsed answers now later f c e =
      let progressed = progress_to_next_phase elapsed answers later f in
      ap
        (λ b.
          if b
          then if leb f.test_duration_ms (sub32 (cast32 now) f.phase_start_time)
            then progressed
            else f
          else f)
        c
      ∙ ap (λ b. if b then progressed else f) e

  pub tests_early :
      (elapsed : Stopwatch) (answers : MeshAnswers) (now later : ℕ) (f : LibraryValidationFirmware)
      → leb f.test_duration_ms (sub32 (cast32 now) f.phase_start_time) ≡ false
      → run_validation_tests elapsed answers now later f ≡ f
  unfolding run_validation_tests
  tests_early elapsed answers now later f e =
      ap
        (λ b.
          if f.is_coordinator
          then if b then progress_to_next_phase elapsed answers later f else f
          else f)
        e
      ∙ if_same f.is_coordinator f

  pub tests_participant :
      (elapsed : Stopwatch) (answers : MeshAnswers) (now later : ℕ) (f : LibraryValidationFirmware)
      → f.is_coordinator ≡ false
      → run_validation_tests elapsed answers now later f ≡ f
  unfolding run_validation_tests
  tests_participant elapsed answers now later f c =
      ap
        (λ b.
          if b
          then if leb f.test_duration_ms (sub32 (cast32 now) f.phase_start_time)
            then progress_to_next_phase elapsed answers later f
            else f
          else f)
        c

  unfoldable schedule_tasks : Bool → FirmwareBase → FirmwareBase
  schedule_tasks coordinator base =
      let tested = start_task "message_test_task_" (start_task "test_progress_task_" base) in
      if base.has_scheduler
      then start_task "status_report_task_" (if coordinator then tested else base)
      else base

  -- `setup` with what `std::stoul` makes of the duration; `before` is what the mesh answers before the
  -- first tests.
  unfoldable pub set_up :
      Stopwatch → MeshAnswers → MeshAnswers → ℕ → Result ℕ → Step LibraryValidationFirmware
  unfolding schedule_tasks
  set_up elapsed before answers now duration f =
      let coordinator = str_eq (get_config "role" "participant" f.base) "coordinator" in
      let configured = record f {
        is_coordinator = coordinator;
        detailed_logging = str_eq (get_config "enable_detailed_logging" "false" f.base) "true";
      } in
      elim duration [
        | err e ↦ (err e, configured)
        | ok seconds ↦ (
          ok tt,
          test_mesh_lifecycle elapsed answers (record configured {
            base = schedule_tasks coordinator f.base;
            test_duration_ms = mul32 (cast32 seconds) 1000;
            initial_node_time = get_node_time before f.base;
            phase_start_time = cast32 now;
            phase = ValidationPhase.initialization;
          }),
        )
      ]

  unfoldable pub setup : Stopwatch → MeshAnswers → MeshAnswers → ℕ → Step LibraryValidationFirmware
  unfolding set_up
  setup elapsed before answers now f =
      set_up elapsed before answers now (stoul (get_config "test_duration" "30" f.base)) f

  unfoldable pub check_expected_messages : LibraryValidationFirmware → LibraryValidationFirmware
  unfolding check_nodes
  check_expected_messages f =
      let (messages, lost) =
        check_nodes (StdMap.keys f.connected_nodes) f.messages_from_node
          f.report.message_loss_count in
      record f {
        messages_from_node = messages;
        report = record (f.report) { message_loss_count = lost };
      }
