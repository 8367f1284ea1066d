-- ===== src/Firmware/Report/Counts.antt =====
-- The numbers of a validation report are those of its results.
use painless_mesh_simulator.Prelude.{
  ℕ, ◌+◌, ◌%◌, ◌≡◌, refl, ◌↔◌, true, List, [], ◌∷◌, ◌++◌, if◌then◌else◌, length, All, arith,
  Bool-cases, inl, inr,
}
use painless_mesh_simulator.Platform.{Platform}
use painless_mesh_simulator.Firmware.Report.{
  TestResult, ValidationReport, validation_report, add_result,
}

pub passing : List TestResult → ℕ
passing [] = 0
passing (t ∷ ts) = (if t.passed then 1 else 0) + passing ts

pub failing : List TestResult → ℕ
failing [] = 0
failing (t ∷ ts) = (if t.passed then 0 else 1) + failing ts

passing-add :
    (ts : List TestResult) (t : TestResult)
    → passing (ts ++ t ∷ []) ≡ passing ts + (if t.passed then 1 else 0)
unfolding passing
passing-add [] t = ground arith
passing-add (u ∷ ts) t = omega (arith, passing-add ts t)

failing-add :
    (ts : List TestResult) (t : TestResult)
    → failing (ts ++ t ∷ []) ≡ failing ts + (if t.passed then 0 else 1)
unfolding failing
failing-add [] t = ground arith
failing-add (u ∷ ts) t = omega (arith, failing-add ts t)

length-add : (ts : List TestResult) (t : TestResult) → length (ts ++ t ∷ []) ≡ length ts + 1
length-add [] t = refl
length-add (u ∷ ts) t = omega (arith, length-add ts t)

pub passing-add-failing : (ts : List TestResult) → passing ts + failing ts ≡ length ts
unfolding passing failing
passing-add-failing [] = omega arith
passing-add-failing (t ∷ ts) = ground (arith, passing-add-failing ts)

pub all_passed_iff : (ts : List TestResult) → (failing ts ≡ 0) ↔ All (λ t. t.passed ≡ true) ts
unfolding failing
all_passed_iff [] = (λ h. tt, λ h. refl)
all_passed_iff (t ∷ ts) = elim (Bool-cases t.passed) [
  | inl good ↦ rw good (
    λ h. (refl, (all_passed_iff ts).0 (omega (arith, h))),
    λ (e, h). omega (arith, (all_passed_iff ts).1 h),
  )
  | inr bad ↦ rw bad (λ h. absurd (omega (arith, h)), λ (e, h). cc)
]

module _ ⦃p : Platform⦄ where
  -- The counters are 32-bit numbers.
  pub record Counts (r : ValidationReport) : Type 0 where
    pub total : r.total_tests ≡ length r.test_results % 4294967296
    pub passed : r.passed_tests ≡ passing r.test_results % 4294967296
    pub failed : r.failed_tests ≡ failing r.test_results % 4294967296
    pub tested :
        r.coverage.tested_apis ≡ (r.coverage.passed_apis + r.coverage.failed_apis) % 4294967296

  pub new-Counts : Counts validation_report
  unfolding validation_report passing failing
  new-Counts = ground arith

  pub add_result-Counts :
      (t : TestResult) (r : ValidationReport) → Counts r → Counts (add_result t r)
  unfolding add_result
  add_result-Counts t r h = ground (
    arith,
    passing-add r.test_results t,
    failing-add r.test_results t,
    length-add r.test_results t,
  )

  pub length-add_result :
      (t : TestResult) (r : ValidationReport)
      → length (add_result t r).test_results ≡ length r.test_results + 1
  unfolding add_result
  length-add_result t r = length-add r.test_results t
