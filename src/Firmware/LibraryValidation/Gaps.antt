-- ===== src/Firmware/LibraryValidation/Gaps.antt =====
-- Two tests of the validation firmware that do not see what they look for.
use painless_mesh_simulator.Prelude.{
  ℕ, ◌≤◌, ◌≡◌, ◌≢◌, refl, ◌∙◌, ap, sym, subst, ◌⊎◌, inl, inr, Bool, true, String, List, [], ◌∷◌,
  ◌++◌, length, Option, none, some, ltb, arith, Bool-cases, ◌==◌, lt→ltb,
}
use painless_mesh_simulator.Platform.{Platform}
use painless_mesh_simulator.Result.{ok}
use painless_mesh_simulator.StdMap.{ℕ_key, StdMap, StdSet, find, keys}
use painless_mesh_simulator.StdMap.Laws.{find-insert}
use painless_mesh_simulator.Firmware.{FirmwareBase, MeshAnswers, get_node_list}
use painless_mesh_simulator.Firmware.Report.{TestResult, test_result, add_result}
use painless_mesh_simulator.Firmware.LibraryValidation.State.{
  LibraryValidationFirmware, ValidationPhase, Stopwatch, judge, test_api,
}
use painless_mesh_simulator.Firmware.LibraryValidation.Suites.{
  test_network_resilience, test_message_reception,
}
use painless_mesh_simulator.Firmware.LibraryValidation.Phases.{
  setup, check_node, check_nodes, check_expected_messages,
}
use painless_mesh_simulator.Firmware.LibraryValidation.Operations.{Operation, operate_all, rank}
use painless_mesh_simulator.Firmware.LibraryValidation.Reported.{operate_all-Reported}
use painless_mesh_simulator.Firmware.LibraryValidation.Verdict.{fresh, setup-Reported}

-- The last result of a report: its test's name, and whether it passed.
abbrev pub last_result : List TestResult → Option (String × Bool)
last_result [] = none
last_result (t ∷ []) = some (t.test_name, t.passed)
last_result (t ∷ u ∷ ts) = last_result (u ∷ ts)

last_result-add :
    (ts : List TestResult) (t : TestResult)
    → last_result (ts ++ t ∷ []) ≡ some (t.test_name, t.passed)
last_result-add [] t = refl
last_result-add (u ∷ []) t = refl
last_result-add (u ∷ v ∷ ts) t = last_result-add (v ∷ ts) t

-- A check gives its node an entry, and keeps the others.
check_node-find :
    (n : ℕ) (messages : StdMap ℕ ℕ) (lost : ℕ)
    → (find n (check_node n messages lost).0 ≢ none)
      × ((j : ℕ) → find j messages ≢ none → find j (check_node n messages lost).0 ≢ none)
unfolding check_node
check_node-find n messages lost = (
  ground (arith, find-insert n n 0 messages),
  λ j h. ground (arith, find-insert j n 0 messages, h),
)

kept :
    (nodes : List ℕ) (messages : StdMap ℕ ℕ) (lost j : ℕ)
    → find j messages ≢ none
    → find j (check_nodes nodes messages lost).0 ≢ none
unfolding check_nodes
kept [] messages lost j h = h
kept (n ∷ nodes) messages lost j h = kept nodes _ _ j ((check_node-find n messages lost).1 j h)

find_first :
    (j n : ℕ) (u : Unit {0}) (nodes : StdSet ℕ) → (j ≡ n) ⊎ (find j ((n, u) ∷ nodes) ≡ find j nodes)
unfolding find
find_first j n u nodes = elim (Bool-cases (j == n)) [
  | inl e ↦ inl (ground arith)
  | inr e ↦ inr (ground arith)
]

entered :
    (nodes : StdSet ℕ) (messages : StdMap ℕ ℕ) (lost j : ℕ)
    → find j nodes ≢ none
    → find j (check_nodes (keys nodes) messages lost).0 ≢ none
unfolding check_nodes find
entered [] messages lost j h = absurd (h refl)
entered ((n, u) ∷ nodes) messages lost j h =
    let step = check_node-find n messages lost in
    elim (find_first j n u nodes) [
      | inl e ↦
          kept (keys nodes) _ _ j
            (subst (λ i. find i (check_node n messages lost).0 ≢ none) (sym e) step.0)
      | inr e ↦ entered nodes _ _ j (λ k. h (e ∙ k))
    ]

two_entries :
    (a b : ℕ) (messages : StdMap ℕ ℕ)
    → a ≢ b
    → find a messages ≢ none
    → find b messages ≢ none
    → 2 ≤ length messages
unfolding find
two_entries a b [] d h k = absurd (h refl)
two_entries a b ((i, v) ∷ []) d h k = ground (arith, d, h, k)
two_entries a b ((i, v) ∷ (j, w) ∷ messages) d h k = omega arith

module _ ⦃p : Platform⦄ where
  resilience_result :
      (elapsed : Stopwatch) (answers : MeshAnswers) (f : LibraryValidationFirmware)
      → last_result (test_network_resilience elapsed answers f).report.test_results
        ≡ some ("Message delivery rate", p.double.lt f.report.message_loss_rate (p.double.of_ℕ 10))
  unfolding test_network_resilience judge add_result test_api test_result
  resilience_result elapsed answers f =
      let stability =
        test_api elapsed "Mesh stability" (ok (ltb 0 (length (get_node_list answers f.base)))) in
      last_result-add (judge none stability f).report.test_results (
        test_api elapsed "Message delivery rate"
          (ok (p.double.lt f.report.message_loss_rate (p.double.of_ℕ 10))))

  -- In the phase of the resilience tests, the test of the delivery rate passes whatever callbacks and
  -- runs of tasks went before, and however many messages were counted as lost: it reads the loss rate,
  -- which is 0 until the report is finalized. (If 0.0 is less than 10.0.)
  pub delivery_rate_always_passes :
      (elapsed : Stopwatch) (before answers : MeshAnswers) (now : ℕ) (base : FirmwareBase)
      (started : LibraryValidationFirmware) (operations : List Operation)
      → p.double.lt (p.double.of_ℕ 0) (p.double.of_ℕ 10) ≡ true
      → setup elapsed before answers now (fresh base) ≡ (ok tt, started)
      → (operate_all operations started).phase ≡ ValidationPhase.resilience_tests
      → last_result
          (test_network_resilience elapsed answers
            (operate_all operations started)).report.test_results
        ≡ some ("Message delivery rate", true)
  delivery_rate_always_passes elapsed before answers now base started operations less h e =
      let f = operate_all operations started in
      let right =
        operate_all-Reported operations started
          (setup-Reported elapsed before answers now base started h) in
      resilience_result elapsed answers f
      ∙ ap (λ r. some ("Message delivery rate", p.double.lt r (p.double.of_ℕ 10)))
          (right.no_rate (omega (arith, ap rank e)))
      ∙ ap (λ b. some ("Message delivery rate", b)) less

  reception_result :
      (elapsed : Stopwatch) (answers : MeshAnswers) (f : LibraryValidationFirmware)
      → last_result (test_message_reception elapsed answers f).report.test_results
        ≡ some ("Multi-node reception", ltb 1 (length f.messages_from_node))
  unfolding test_message_reception judge add_result test_api test_result
  reception_result elapsed answers f =
      let callback =
        test_api elapsed "onReceive() callback" (ok (ltb 0 f.report.total_messages_received)) in
      last_result-add (judge (some "onReceive()") callback f).report.test_results
        (test_api elapsed "Multi-node reception" (ok (ltb 1 (length f.messages_from_node))))

  -- Once the messages that are expected have been checked while two different nodes were connected,
  -- the test of the reception from several nodes passes, whether any message was received or not: the
  -- check gives each connected node an entry in the map whose size the test reads.
  pub silent_nodes_count_as_senders :
      (elapsed : Stopwatch) (answers : MeshAnswers) (f : LibraryValidationFirmware) (a b : ℕ)
      → a ≢ b
      → find a f.connected_nodes ≢ none
      → find b f.connected_nodes ≢ none
      → last_result
          (test_message_reception elapsed answers (check_expected_messages f)).report.test_results
        ≡ some ("Multi-node reception", true)
  unfolding check_expected_messages
  silent_nodes_count_as_senders elapsed answers f a b d h k =
      let entries =
        (check_nodes (keys f.connected_nodes) f.messages_from_node f.report.message_loss_count).0 in
      let two =
        two_entries a b entries d (entered f.connected_nodes _ _ a h)
          (entered f.connected_nodes _ _ b k) in
      reception_result elapsed answers (check_expected_messages f)
      ∙ ap (λ c. some ("Multi-node reception", c)) (lt→ltb 1 (length entries) (omega (arith, two)))
