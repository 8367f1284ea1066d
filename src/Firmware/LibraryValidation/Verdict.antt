-- ===== src/Firmware/LibraryValidation/Verdict.antt =====
-- What the validation firmware reports at the end.
use painless_mesh_simulator.Prelude.{
  ℕ, ◌≤◌, ◌<◌, ◌≡◌, ◌↔◌, refl, ◌∙◌, ap, sym, subst, Bool, true, ◌&&◌, List, length, All, ltb, ◌==◌,
  arith,
}
use painless_mesh_simulator.Platform.{Platform}
use painless_mesh_simulator.Result.{Result, ok, err}
use painless_mesh_simulator.Firmware.{FirmwareBase, MeshAnswers}
use painless_mesh_simulator.Firmware.Report.{validation_report, TestResult}
use painless_mesh_simulator.Firmware.Report.Counts.{
  Counts, passing, failing, all_passed_iff, passing-add-failing, new-Counts,
}
use painless_mesh_simulator.Firmware.LibraryValidation.State.{
  LibraryValidationFirmware, library_validation_firmware, ValidationPhase, Stopwatch,
}
use painless_mesh_simulator.Firmware.LibraryValidation.Phases.{setup, set_up}
use painless_mesh_simulator.Firmware.LibraryValidation.Judged.{Judged, lifecycle-Judged}
use painless_mesh_simulator.Firmware.LibraryValidation.Operations.{Operation, operate_all, rank}
use painless_mesh_simulator.Firmware.LibraryValidation.Reported.{
  Reported, results_at, results_to, operate_all-Reported,
}

module _ ⦃p : Platform⦄ where
  -- A new firmware for which only the base class is initialized.
  abbrev pub fresh : FirmwareBase → LibraryValidationFirmware
  fresh base = record library_validation_firmware { base = base }

  -- The first tests, on an empty report.
  begun-Reported :
      (f g : LibraryValidationFirmware)
      → Judged 4 f g
      → f.report ≡ validation_report
      → f.phase ≡ ValidationPhase.initialization
      → Reported g
  unfolding validation_report
  begun-Reported f g j empty phase =
      let phase' = j.same_phase ∙ phase in
      record {
        counts = j.counts (subst Counts (sym empty) new-Counts);
        at_least = omega (arith, ap results_at phase', j.results);
        at_most =
            omega (arith, ap results_to phase', j.results, ap (λ r. length r.test_results) empty);
        no_rate = λ e. j.same_rate ∙ ap (λ r. r.message_loss_rate) empty;
        verdict = λ e. absurd (omega (arith, e, ap rank phase'));
      }

  set_up-Reported :
      (elapsed : Stopwatch) (before answers : MeshAnswers) (now : ℕ) (base : FirmwareBase)
      (duration : Result ℕ) (started : LibraryValidationFirmware)
      → set_up elapsed before answers now duration (fresh base) ≡ (ok tt, started)
      → Reported started
  unfolding set_up library_validation_firmware
  set_up-Reported elapsed before answers now base (err e) started h = cc
  set_up-Reported elapsed before answers now base (ok seconds) started h =
      subst Reported (ap (λ t. t.1) h)
        (begun-Reported _ _ (lifecycle-Judged elapsed answers _) refl refl)

  pub setup-Reported :
      (elapsed : Stopwatch) (before answers : MeshAnswers) (now : ℕ) (base : FirmwareBase)
      (started : LibraryValidationFirmware)
      → setup elapsed before answers now (fresh base) ≡ (ok tt, started)
      → Reported started
  unfolding setup
  setup-Reported elapsed before answers now base started h =
      set_up-Reported elapsed before answers now base _ started h

  -- The verdict is that of these results, where they are some and no more than a counter holds.
  verdict_iff :
      (ts : List TestResult) (failed total : ℕ) (verdict : Bool)
      → verdict ≡ (failed == 0 && ltb 0 total)
      → failed ≡ failing ts
      → 0 < total
      → (verdict ≡ true) ↔ All (λ t. t.passed ≡ true) ts
  verdict_iff ts failed total verdict e f t =
      let every = all_passed_iff ts in
      (
        λ h. every.0 (ground (arith, h, e, f)),
        λ h. let none_failed = every.1 h in ground (arith, e, f, t, none_failed),
      )

  -- Whatever callbacks and runs of its tasks follow its set-up, the report of the validation firmware
  -- is right once the last phase is over: it has 17 or 18 results, the numbers of tests, of passed and
  -- of failed tests are those of these results, and `all_tests_passed` holds exactly when each of
  -- them passed.
  pub validation_verdict :
      (elapsed : Stopwatch) (before answers : MeshAnswers) (now : ℕ) (base : FirmwareBase)
      (started : LibraryValidationFirmware) (operations : List Operation)
      → setup elapsed before answers now (fresh base) ≡ (ok tt, started)
      → (operate_all operations started).phase ≡ ValidationPhase.complete
      → let r = (operate_all operations started).report in
        (17 ≤ length r.test_results)
        × (length r.test_results ≤ 18)
        × (r.total_tests ≡ length r.test_results)
        × (r.passed_tests ≡ passing r.test_results)
        × (r.failed_tests ≡ failing r.test_results)
        × ((r.all_tests_passed ≡ true) ↔ All (λ t. t.passed ≡ true) r.test_results)
  validation_verdict elapsed before answers now base started operations h e =
      let f = operate_all operations started in
      let right =
        operate_all-Reported operations started
          (setup-Reported elapsed before answers now base started h) in
      let c = right.counts in
      let sum = passing-add-failing f.report.test_results in
      let least : 17 ≤ length f.report.test_results =
        omega (arith, right.at_least, ap results_at e) in
      let most : length f.report.test_results ≤ 18 =
        omega (arith, right.at_most, ap results_to e) in
      let total : f.report.total_tests ≡ length f.report.test_results =
        omega (arith, c.total, most) in
      let failed : f.report.failed_tests ≡ failing f.report.test_results =
        omega (arith, c.failed, most, sum) in
      (
        least,
        most,
        total,
        omega (arith, c.passed, most, sum),
        failed,
        verdict_iff f.report.test_results f.report.failed_tests f.report.total_tests
            f.report.all_tests_passed (right.verdict (ap rank e)) failed
            (omega (arith, total, least)),
      )
