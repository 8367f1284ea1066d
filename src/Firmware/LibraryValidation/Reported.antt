-- ===== src/Firmware/LibraryValidation/Reported.antt =====
-- The invariant of the report of the validation firmware, which all its operations keep.
use mathlib.Core.Path.{ap₂}
use painless_mesh_simulator.Prelude.{
  ℕ, ◌+◌, ◌%◌, ◌≤◌, ◌<◌, ◌≡◌, refl, ◌∙◌, ap, sym, subst, inl, inr, ◌&&◌, List, [], ◌∷◌, length, ltb,
  leb, ◌==◌, sub32, cast32, arith, Bool-cases,
}
use painless_mesh_simulator.Platform.{Platform}
use painless_mesh_simulator.Firmware.{MeshAnswers}
use painless_mesh_simulator.Firmware.Report.{finalize}
use painless_mesh_simulator.Firmware.Report.Counts.{Counts, passing, failing}
use painless_mesh_simulator.Firmware.LibraryValidation.State.{
  LibraryValidationFirmware, ValidationPhase, Stopwatch,
}
use painless_mesh_simulator.Firmware.LibraryValidation.Phases.{
  end_phase, finish, progress_to_next_phase, run_validation_tests, tests_due, tests_early,
  tests_participant,
}
use painless_mesh_simulator.Firmware.LibraryValidation.Judged.{
  Judged, trans, reception-Judged, connection-Judged, topology-Judged, resilience-Judged,
  synchronization-Judged, sending-Judged,
}
use painless_mesh_simulator.Firmware.LibraryValidation.Quiet.{
  Quiet, receive-Quiet, connection-Quiet, change-Quiet, adjustment-Quiet, check-Quiet,
}
use painless_mesh_simulator.Firmware.LibraryValidation.Operations.{
  Operation, received, connected, connections_changed, time_adjusted, expected_checked, tests_run,
  operate, operate_all, rank,
}

-- The results that a report has at the begin of a phase: at least so many, and at most so many.
abbrev pub results_at : ValidationPhase → ℕ
results_at ValidationPhase.initialization = 4
results_at ValidationPhase.mesh_formation = 4
results_at ValidationPhase.message_tests = 7
results_at ValidationPhase.time_sync_tests = 11
results_at ValidationPhase.topology_tests = 13
results_at ValidationPhase.resilience_tests = 15
results_at ValidationPhase.complete = 17

abbrev pub results_to : ValidationPhase → ℕ
results_to ValidationPhase.initialization = 4
results_to ValidationPhase.mesh_formation = 4
results_to ValidationPhase.message_tests = 7
results_to ValidationPhase.time_sync_tests = 12
results_to ValidationPhase.topology_tests = 14
results_to ValidationPhase.resilience_tests = 16
results_to ValidationPhase.complete = 18

module _ ⦃p : Platform⦄ where
  pub record Reported (f : LibraryValidationFirmware) : Type 0 where
    pub counts : Counts f.report
    pub at_least : results_at f.phase ≤ length f.report.test_results
    pub at_most : length f.report.test_results ≤ results_to f.phase
    pub no_rate : rank f.phase < 6 → f.report.message_loss_rate ≡ p.double.of_ℕ 0
    pub verdict :
        rank f.phase ≡ 6
        → f.report.all_tests_passed ≡ (f.report.failed_tests == 0 && ltb 0 f.report.total_tests)

  Quiet-Counts : (f g : LibraryValidationFirmware) → Quiet f g → Counts f.report → Counts g.report
  Quiet-Counts f g q c = record {
    total = q.same_total ∙ c.total ∙ ap (λ r. length r % 4294967296) (sym q.same_results);
    passed = q.same_passed ∙ c.passed ∙ ap (λ r. passing r % 4294967296) (sym q.same_results);
    failed = q.same_failed ∙ c.failed ∙ ap (λ r. failing r % 4294967296) (sym q.same_results);
    tested =
        subst (λ v. v.tested_apis ≡ (v.passed_apis + v.failed_apis) % 4294967296)
          (sym q.same_coverage) c.tested;
  }

  Quiet-Reported : (f g : LibraryValidationFirmware) → Quiet f g → Reported f → Reported g
  Quiet-Reported f g q h = record {
    counts = Quiet-Counts f g q h.counts;
    at_least = omega (arith, ap results_at q.same_phase, ap length q.same_results, h.at_least);
    at_most = omega (arith, ap results_to q.same_phase, ap length q.same_results, h.at_most);
    no_rate = λ e. q.same_rate ∙ h.no_rate (omega (arith, ap rank q.same_phase, e));
    verdict = λ e.
        q.same_verdict
        ∙ h.verdict (omega (arith, ap rank q.same_phase, e))
        ∙ ap₂ (λ a b. a == 0 && ltb 0 b) (sym q.same_failed) (sym q.same_total);
  }

  still : (f : LibraryValidationFirmware) → Judged 0 f f
  still f = record {
    counts = λ c. c;
    results = omega arith;
    same_rate = refl;
    same_verdict = refl;
    same_phase = refl;
    same_role = refl;
    same_duration = refl;
  }

  -- A phase with tests between, which ends in a phase that is not the last.
  next-Reported :
      (n : ℕ) (phase : ValidationPhase) (f g : LibraryValidationFirmware)
      → Judged n f g
      → Reported f
      → rank f.phase < 6
      → rank phase < 6
      → (results_at phase ≤ results_at f.phase + n)
      → (results_to f.phase + n ≤ results_to phase)
      → Reported (record g { phase = phase })
  next-Reported n phase f g j h a b c d = record {
    counts = j.counts h.counts;
    at_least = omega (arith, j.results, h.at_least);
    at_most = omega (arith, j.results, h.at_most);
    no_rate = λ e. j.same_rate ∙ h.no_rate a;
    verdict = λ e. absurd (omega (arith, b));
  }

  finalize-Counts : (f : LibraryValidationFirmware) → Counts f.report → Counts (finalize f.report)
  unfolding finalize
  finalize-Counts f c = ground arith

  finish-Reported :
      (f g : LibraryValidationFirmware)
      → Judged 2 f g
      → Reported f
      → f.phase ≡ ValidationPhase.resilience_tests
      → Reported (finish g)
  unfolding finish finalize
  finish-Reported f g j h e = record {
    counts = finalize-Counts g (j.counts h.counts);
    at_least = omega (arith, ap results_at e, j.results, h.at_least);
    at_most = omega (arith, ap results_to e, j.results, h.at_most);
    no_rate = λ l. absurd (omega (arith, l));
    verdict = λ l. refl;
  }

  -- The end of a phase.
  end_phase-Reported :
      (elapsed : Stopwatch) (answers : MeshAnswers) (phase : ValidationPhase)
      (f : LibraryValidationFirmware)
      → f.phase ≡ phase
      → Reported f
      → Reported (end_phase elapsed answers phase f)
  unfolding end_phase
  end_phase-Reported elapsed answers ValidationPhase.initialization f e h =
      next-Reported 0 _ f f (still f) h (omega (arith, ap rank e)) (omega arith)
        (omega (arith, ap results_at e)) (omega (arith, ap results_to e))
  end_phase-Reported elapsed answers ValidationPhase.mesh_formation f e h =
      next-Reported 3 _ f _ (connection-Judged elapsed answers f) h (omega (arith, ap rank e))
        (omega arith) (omega (arith, ap results_at e)) (omega (arith, ap results_to e))
  end_phase-Reported elapsed answers ValidationPhase.message_tests f e h =
      elim (sending-Judged elapsed answers f) [
        | inl two ↦
            next-Reported 4 _ f _ (trans 2 2 f _ _ two (reception-Judged elapsed answers _)) h
              (omega (arith, ap rank e)) (omega arith) (omega (arith, ap results_at e))
              (omega (arith, ap results_to e))
        | inr three ↦
            next-Reported 5 _ f _ (trans 3 2 f _ _ three (reception-Judged elapsed answers _)) h
              (omega (arith, ap rank e)) (omega arith) (omega (arith, ap results_at e))
              (omega (arith, ap results_to e))
      ]
  end_phase-Reported elapsed answers ValidationPhase.time_sync_tests f e h =
      next-Reported 2 _ f _ (synchronization-Judged elapsed answers f) h (omega (arith, ap rank e))
        (omega arith) (omega (arith, ap results_at e)) (omega (arith, ap results_to e))
  end_phase-Reported elapsed answers ValidationPhase.topology_tests f e h =
      next-Reported 2 _ f _ (topology-Judged elapsed answers f) h (omega (arith, ap rank e))
        (omega arith) (omega (arith, ap results_at e)) (omega (arith, ap results_to e))
  end_phase-Reported elapsed answers ValidationPhase.resilience_tests f e h =
      finish-Reported f _ (resilience-Judged elapsed answers f) h e
  end_phase-Reported elapsed answers ValidationPhase.complete f e h =
      Quiet-Reported f _ (ground arith) h

  start-Reported :
      (time : ℕ) (f : LibraryValidationFirmware)
      → Reported f
      → Reported (record f { phase_start_time = time })
  start-Reported time f h = record {
    counts = h.counts;
    at_least = h.at_least;
    at_most = h.at_most;
    no_rate = h.no_rate;
    verdict = h.verdict;
  }

  progress-Reported :
      (elapsed : Stopwatch) (answers : MeshAnswers) (later : ℕ) (f : LibraryValidationFirmware)
      → Reported f
      → Reported (progress_to_next_phase elapsed answers later f)
  unfolding progress_to_next_phase
  progress-Reported elapsed answers later f h =
      start-Reported (cast32 later) _ (end_phase-Reported elapsed answers f.phase f refl h)

  tests-Reported :
      (elapsed : Stopwatch) (answers : MeshAnswers) (now later : ℕ) (f : LibraryValidationFirmware)
      → Reported f
      → Reported (run_validation_tests elapsed answers now later f)
  tests-Reported elapsed answers now later f h = elim (Bool-cases f.is_coordinator) [
    | inr participant ↦
        subst Reported (sym (tests_participant elapsed answers now later f participant)) h
    | inl coordinator ↦
        elim (Bool-cases (leb f.test_duration_ms (sub32 (cast32 now) f.phase_start_time))) [
          | inr early ↦ subst Reported (sym (tests_early elapsed answers now later f early)) h
          | inl due ↦
              subst Reported (sym (tests_due elapsed answers now later f coordinator due))
                (progress-Reported elapsed answers later f h)
        ]
  ]

  operate-Reported :
      (operation : Operation) (f : LibraryValidationFirmware)
      → Reported f
      → Reported (operate operation f)
  unfolding operate
  operate-Reported (received from message) f h = Quiet-Reported f _ (receive-Quiet from message f) h
  operate-Reported (connected node_id) f h = Quiet-Reported f _ (connection-Quiet node_id f) h
  operate-Reported connections_changed f h = Quiet-Reported f _ (change-Quiet f) h
  operate-Reported (time_adjusted offset) f h = Quiet-Reported f _ (adjustment-Quiet offset f) h
  operate-Reported expected_checked f h = Quiet-Reported f _ (check-Quiet f) h
  operate-Reported (tests_run elapsed answers now later) f h =
      tests-Reported elapsed answers now later f h

  pub operate_all-Reported :
      (operations : List Operation) (f : LibraryValidationFirmware)
      → Reported f
      → Reported (operate_all operations f)
  unfolding operate_all
  operate_all-Reported [] f h = h
  operate_all-Reported (operation ∷ operations) f h =
      operate_all-Reported operations (operate operation f) (operate-Reported operation f h)
