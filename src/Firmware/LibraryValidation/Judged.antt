-- ===== src/Firmware/LibraryValidation/Judged.antt =====
-- What the test suites of the validation firmware leave as it is, and how many results they add.
use painless_mesh_simulator.Prelude.{
  ℕ, ◌+◌, ◌≡◌, refl, ◌∙◌, ◌⊎◌, inl, inr, String, Bool, true, List, [], ◌∷◌, Option, none, some,
  length, arith,
}
use painless_mesh_simulator.Prelude.Int.{ℤ}
use painless_mesh_simulator.Platform.{Platform}
use painless_mesh_simulator.Firmware.{FirmwareBase, MeshAnswers}
use painless_mesh_simulator.Firmware.Report.{TestResult, record_test, add_result}
use painless_mesh_simulator.Firmware.Report.Counts.{Counts, add_result-Counts, length-add_result}
use painless_mesh_simulator.Firmware.LibraryValidation.State.{
  LibraryValidationFirmware, Stopwatch, judge, record_message,
}
use painless_mesh_simulator.Firmware.LibraryValidation.Suites.{
  test_mesh_lifecycle, broadcast_test, single_test, send_tests, test_message_sending,
  test_message_reception, test_connection_management, measure_time_errors,
  test_time_synchronization, test_topology_discovery, test_network_resilience,
}

module _ ⦃p : Platform⦄ where
  -- From f to g there are this many results more, and the numbers of the report stay right.
  pub record Judged (n : ℕ) (f g : LibraryValidationFirmware) : Type 0 where
    pub counts : Counts f.report → Counts g.report
    pub results : length g.report.test_results ≡ length f.report.test_results + n
    pub same_rate : g.report.message_loss_rate ≡ f.report.message_loss_rate
    pub same_verdict : g.report.all_tests_passed ≡ f.report.all_tests_passed
    pub same_phase : g.phase ≡ f.phase
    pub same_role : g.is_coordinator ≡ f.is_coordinator
    pub same_duration : g.test_duration_ms ≡ f.test_duration_ms

  pub trans :
      (m n : ℕ) (f g h : LibraryValidationFirmware)
      → Judged m f g
      → Judged n g h
      → Judged (m + n) f h
  trans m n f g h a b = record {
    counts = λ c. b.counts (a.counts c);
    results = omega (arith, a.results, b.results);
    same_rate = b.same_rate ∙ a.same_rate;
    same_verdict = b.same_verdict ∙ a.same_verdict;
    same_phase = b.same_phase ∙ a.same_phase;
    same_role = b.same_role ∙ a.same_role;
    same_duration = b.same_duration ∙ a.same_duration;
  }

  covered-Counts :
      (api : String) (passed : Bool) (f : LibraryValidationFirmware)
      → Counts f.report
      → Counts (record (f.report) { coverage = record_test api passed f.report.coverage })
  unfolding record_test
  covered-Counts api passed f h = ground arith

  judge-Judged :
      (api : Option String) (t : TestResult) (f : LibraryValidationFirmware)
      → Judged 1 f (judge api t f)
  unfolding judge add_result
  judge-Judged none t f = record {
    counts = add_result-Counts t f.report;
    results = length-add_result t f.report;
    same_rate = refl;
    same_verdict = refl;
    same_phase = refl;
    same_role = refl;
    same_duration = refl;
  }
  judge-Judged (some api) t f = record {
    counts = λ c.
        covered-Counts api t.passed (record f { report = add_result t f.report })
          (add_result-Counts t f.report c);
    results = length-add_result t f.report;
    same_rate = refl;
    same_verdict = refl;
    same_phase = refl;
    same_role = refl;
    same_duration = refl;
  }

  record_message-Judged : (f : LibraryValidationFirmware) → Judged 0 f (record_message true f)
  unfolding record_message
  record_message-Judged f = record {
    counts = λ c. ground arith;
    results = omega arith;
    same_rate = refl;
    same_verdict = refl;
    same_phase = refl;
    same_role = refl;
    same_duration = refl;
  }

  base-Judged :
      (base : FirmwareBase) (f : LibraryValidationFirmware) → Judged 0 f (record f { base = base })
  base-Judged base f = record {
    counts = λ c. c;
    results = omega arith;
    same_rate = refl;
    same_verdict = refl;
    same_phase = refl;
    same_role = refl;
    same_duration = refl;
  }

  -- Two and three results one after the other.
  twice :
      (a b : Option String) (t u : TestResult) (f : LibraryValidationFirmware)
      → Judged 2 f (judge b u (judge a t f))
  twice a b t u f = trans 1 1 f _ _ (judge-Judged a t f) (judge-Judged b u (judge a t f))

  thrice :
      (a b c : Option String) (t u v : TestResult) (f : LibraryValidationFirmware)
      → Judged 3 f (judge c v (judge b u (judge a t f)))
  thrice a b c t u v f =
      trans 2 1 f _ _ (twice a b t u f) (judge-Judged c v (judge b u (judge a t f)))

  sent-Judged :
      (base : FirmwareBase) (f : LibraryValidationFirmware)
      → Judged 0 f (record_message true (record f { base = base }))
  sent-Judged base f = trans 0 0 f _ _ (base-Judged base f) (record_message-Judged _)

  measure-Judged :
      (offsets : List ℤ) (f : LibraryValidationFirmware)
      → Judged 0 f (measure_time_errors offsets f)
  unfolding measure_time_errors
  measure-Judged [] f = record {
    counts = λ c. c;
    results = omega arith;
    same_rate = refl;
    same_verdict = refl;
    same_phase = refl;
    same_role = refl;
    same_duration = refl;
  }
  measure-Judged (first ∷ others) f = record {
    counts = λ c. ground arith;
    results = omega arith;
    same_rate = refl;
    same_verdict = refl;
    same_phase = refl;
    same_role = refl;
    same_duration = refl;
  }

  module _ (elapsed : Stopwatch) (answers : MeshAnswers) (f : LibraryValidationFirmware) where
    pub lifecycle-Judged : Judged 4 f (test_mesh_lifecycle elapsed answers f)
    unfolding test_mesh_lifecycle
    lifecycle-Judged = trans 2 2 f _ _ (twice _ _ _ _ f) (twice _ _ _ _ _)

    broadcast-Judged : Judged 1 f (broadcast_test elapsed answers f)
    unfolding broadcast_test
    broadcast-Judged = trans 0 1 f _ _ (sent-Judged _ f) (judge-Judged _ _ _)

    single-Judged : (target : ℕ) → Judged 2 f (single_test elapsed answers target f)
    unfolding single_test
    single-Judged target = trans 0 2 f _ _ (sent-Judged _ f) (twice _ _ _ _ _)

    pub reception-Judged : Judged 2 f (test_message_reception elapsed answers f)
    unfolding test_message_reception
    reception-Judged = twice _ _ _ _ f

    pub connection-Judged : Judged 3 f (test_connection_management elapsed answers f)
    unfolding test_connection_management
    connection-Judged = thrice _ _ _ _ _ _ f

    pub topology-Judged : Judged 2 f (test_topology_discovery elapsed answers f)
    unfolding test_topology_discovery
    topology-Judged = twice _ _ _ _ f

    pub resilience-Judged : Judged 2 f (test_network_resilience elapsed answers f)
    unfolding test_network_resilience
    resilience-Judged = twice _ _ _ _ f

  module _ (elapsed : Stopwatch) (answers : MeshAnswers) (f : LibraryValidationFirmware) where
    pub synchronization-Judged : Judged 2 f (test_time_synchronization elapsed answers f)
    unfolding test_time_synchronization
    synchronization-Judged = trans 2 0 f _ _ (twice _ _ _ _ f) (measure-Judged f.time_adjustments _)

    send_tests-Judged :
        (nodes : List ℕ)
        → Judged 2 f (send_tests elapsed answers nodes f)
          ⊎ Judged 3 f (send_tests elapsed answers nodes f)
    unfolding send_tests
    send_tests-Judged [] = inl (twice _ _ _ _ f)
    send_tests-Judged (target ∷ others) = inr (
        trans 1 2 f _ _ (broadcast-Judged elapsed answers f)
          (single-Judged elapsed answers _ target))

    -- The suite adds 2 results where there is no node to send to, else 3.
    pub sending-Judged :
        Judged 2 f (test_message_sending elapsed answers f)
        ⊎ Judged 3 f (test_message_sending elapsed answers f)
    unfolding test_message_sending
    sending-Judged = send_tests-Judged _
