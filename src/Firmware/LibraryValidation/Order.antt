-- ===== src/Firmware/LibraryValidation/Order.antt =====
-- The phases of the validation firmware follow one another, one at each run of the test task that
-- finds the phase over.
use painless_mesh_simulator.Prelude.{
  ℕ, suc, ◌+◌, ◌≤◌, ◌≡◌, refl, ◌∙◌, sym, ap, inl, inr, min, Bool, true, List, [], ◌∷◌,
  if◌then◌else◌, leb, sub32, cast32, arith, Bool-cases,
}
use painless_mesh_simulator.Platform.{Platform}
use painless_mesh_simulator.Firmware.{MeshAnswers}
use painless_mesh_simulator.Firmware.LibraryValidation.State.{
  LibraryValidationFirmware, ValidationPhase, Stopwatch,
}
use painless_mesh_simulator.Firmware.LibraryValidation.Suites.{test_message_sending}
use painless_mesh_simulator.Firmware.LibraryValidation.Phases.{
  end_phase, finish, progress_to_next_phase, run_validation_tests, tests_due, tests_early,
}
use painless_mesh_simulator.Firmware.LibraryValidation.Judged.{
  Judged, reception-Judged, connection-Judged, topology-Judged, resilience-Judged,
  synchronization-Judged, sending-Judged,
}
use painless_mesh_simulator.Firmware.LibraryValidation.Quiet.{
  Quiet, receive-Quiet, connection-Quiet, change-Quiet, adjustment-Quiet, check-Quiet,
}
use painless_mesh_simulator.Firmware.LibraryValidation.Operations.{
  Operation, received, connected, connections_changed, time_adjusted, expected_checked, tests_run,
  operate, operate_all, rank, due_runs,
}

rank_bound : (phase : ValidationPhase) → rank phase ≤ 6
rank_bound ValidationPhase.initialization = omega arith
rank_bound ValidationPhase.mesh_formation = omega arith
rank_bound ValidationPhase.message_tests = omega arith
rank_bound ValidationPhase.time_sync_tests = omega arith
rank_bound ValidationPhase.topology_tests = omega arith
rank_bound ValidationPhase.resilience_tests = omega arith
rank_bound ValidationPhase.complete = omega arith

module _ ⦃p : Platform⦄ where
  -- The role and the duration of f are those of g.
  abbrev SameSettings : LibraryValidationFirmware → LibraryValidationFirmware → Type 0
  SameSettings f g =
      (g.is_coordinator ≡ f.is_coordinator) × (g.test_duration_ms ≡ f.test_duration_ms)

  Judged-SameSettings : {n : ℕ} {f g : LibraryValidationFirmware} → Judged n f g → SameSettings f g
  Judged-SameSettings j = (j.same_role, j.same_duration)

  sending-SameSettings :
      (elapsed : Stopwatch) (answers : MeshAnswers) (f : LibraryValidationFirmware)
      → SameSettings f (test_message_sending elapsed answers f)
  sending-SameSettings elapsed answers f = elim (sending-Judged elapsed answers f) [
    | inl j ↦ Judged-SameSettings j
    | inr j ↦ Judged-SameSettings j
  ]

  end_phase-rank :
      (elapsed : Stopwatch) (answers : MeshAnswers) (phase : ValidationPhase)
      (f : LibraryValidationFirmware)
      → f.phase ≡ phase
      → (rank (end_phase elapsed answers phase f).phase ≡ min 6 (suc (rank phase)))
        × SameSettings f (end_phase elapsed answers phase f)
  unfolding end_phase finish
  end_phase-rank elapsed answers ValidationPhase.initialization f e = (refl, (refl, refl))
  end_phase-rank elapsed answers ValidationPhase.mesh_formation f e =
      (refl, Judged-SameSettings (connection-Judged elapsed answers f))
  end_phase-rank elapsed answers ValidationPhase.message_tests f e =
      let sending = sending-SameSettings elapsed answers f in
      let reception = reception-Judged elapsed answers (test_message_sending elapsed answers f) in
      (refl, (reception.same_role ∙ sending.0, reception.same_duration ∙ sending.1))
  end_phase-rank elapsed answers ValidationPhase.time_sync_tests f e =
      (refl, Judged-SameSettings (synchronization-Judged elapsed answers f))
  end_phase-rank elapsed answers ValidationPhase.topology_tests f e =
      (refl, Judged-SameSettings (topology-Judged elapsed answers f))
  end_phase-rank elapsed answers ValidationPhase.resilience_tests f e =
      (refl, Judged-SameSettings (resilience-Judged elapsed answers f))
  end_phase-rank elapsed answers ValidationPhase.complete f e = (ap rank e, (refl, refl))

  -- The rank that a coordinator has reached, from its rank, duration and begin of the phase.
  abbrev Reaches : List Operation → LibraryValidationFirmware → LibraryValidationFirmware → Type 0
  Reaches operations f g =
      rank g.phase
      ≡ min 6 (rank f.phase + due_runs f.test_duration_ms f.phase_start_time operations)

  Quiet-Reaches :
      (operations : List Operation) (f g : LibraryValidationFirmware)
      → Quiet f g
      → Reaches operations g (operate_all operations g)
      → Reaches operations f (operate_all operations g)
  Quiet-Reaches operations f g q r = rw (← q.same_phase, ← q.same_duration, ← q.same_start) r

  progress-role :
      (elapsed : Stopwatch) (answers : MeshAnswers) (later : ℕ) (f : LibraryValidationFirmware)
      → (progress_to_next_phase elapsed answers later f).is_coordinator ≡ f.is_coordinator
  unfolding progress_to_next_phase
  progress-role elapsed answers later f = (end_phase-rank elapsed answers f.phase f refl).1.0

  due-Reaches :
      (elapsed : Stopwatch) (answers : MeshAnswers) (later : ℕ) (operations : List Operation)
      (f : LibraryValidationFirmware)
      → let g = progress_to_next_phase elapsed answers later f in
        Reaches operations g (operate_all operations g)
        → rank (operate_all operations (progress_to_next_phase elapsed answers later f)).phase
          ≡ min 6 (rank f.phase + suc (due_runs f.test_duration_ms (cast32 later) operations))
  unfolding progress_to_next_phase
  due-Reaches elapsed answers later operations f r =
      let (ranked, (role, duration)) = end_phase-rank elapsed answers f.phase f refl in
      let same = ap (λ d. due_runs d (cast32 later) operations) duration in
      omega (arith, r, ranked, same)

  tests-Reaches :
      (elapsed : Stopwatch) (answers : MeshAnswers) (now later : ℕ) (operations : List Operation)
      (f : LibraryValidationFirmware)
      → f.is_coordinator ≡ true
      → ((g : LibraryValidationFirmware)
          → g.is_coordinator ≡ true
          → Reaches operations g (operate_all operations g))
      → Reaches
          (tests_run elapsed answers now later ∷ operations)
          f
          (operate_all operations (run_validation_tests elapsed answers now later f))
  unfolding due_runs
  tests-Reaches elapsed answers now later operations f c rest =
      let reached = λ (g : LibraryValidationFirmware). rank (operate_all operations g).phase in
      let expected = λ (b : Bool). min 6 (
        rank f.phase
        + (if b
            then suc (due_runs f.test_duration_ms (cast32 later) operations)
            else due_runs f.test_duration_ms f.phase_start_time operations)) in
      elim (Bool-cases (leb f.test_duration_ms (sub32 (cast32 now) f.phase_start_time))) [
        | inl due ↦
            ap reached (tests_due elapsed answers now later f c due)
            ∙ due-Reaches elapsed answers later operations f (
                rest (progress_to_next_phase elapsed answers later f)
                  (progress-role elapsed answers later f ∙ c))
            ∙ sym (ap expected due)
        | inr early ↦
            ap reached (tests_early elapsed answers now later f early)
            ∙ rest f c
            ∙ sym (ap expected early)
      ]

  -- The phases of a coordinator follow one another in their order: whatever callbacks and runs of its
  -- tasks come, it goes on by one phase in each run of the test task that finds the current phase over,
  -- up to the last phase, and in no other call.
  pub phases_in_order :
      (operations : List Operation) (f : LibraryValidationFirmware)
      → f.is_coordinator ≡ true
      → rank (operate_all operations f).phase
        ≡ min 6 (rank f.phase + due_runs f.test_duration_ms f.phase_start_time operations)
  unfolding operate_all operate due_runs
  phases_in_order [] f c = omega (arith, rank_bound f.phase)
  phases_in_order (received from message ∷ operations) f c =
      let q = receive-Quiet from message f in
      Quiet-Reaches operations f _ q (phases_in_order operations _ (q.same_role ∙ c))
  phases_in_order (connected node_id ∷ operations) f c =
      let q = connection-Quiet node_id f in
      Quiet-Reaches operations f _ q (phases_in_order operations _ (q.same_role ∙ c))
  phases_in_order (connections_changed ∷ operations) f c =
      let q = change-Quiet f in
      Quiet-Reaches operations f _ q (phases_in_order operations _ (q.same_role ∙ c))
  phases_in_order (time_adjusted offset ∷ operations) f c =
      let q = adjustment-Quiet offset f in
      Quiet-Reaches operations f _ q (phases_in_order operations _ (q.same_role ∙ c))
  phases_in_order (expected_checked ∷ operations) f c =
      let q = check-Quiet f in
      Quiet-Reaches operations f _ q (phases_in_order operations _ (q.same_role ∙ c))
  phases_in_order (tests_run elapsed answers now later ∷ operations) f c =
      tests-Reaches elapsed answers now later operations f c (phases_in_order operations)
