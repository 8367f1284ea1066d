-- ===== src/Samples/FirmwareRuns.antt =====
-- The theorems on firmware at concrete inputs.
use Prim.Native.String.{◌++◌}
use painless_mesh_simulator.Prelude.{
  ℕ, ◌+◌, ◌%◌, ◌≤◌, ◌≡◌, ◌↔◌, refl, inr, true, false, List, [], ◌∷◌, none, some, String, length,
  All, min, arith,
}
use painless_mesh_simulator.Prelude.Int.{negsuc}
use painless_mesh_simulator.Result.{ok}
use painless_mesh_simulator.Text.{to_string}
use painless_mesh_simulator.StdMap
use painless_mesh_simulator.StdMap.{ℕ_key}
use painless_mesh_simulator.StdMap.Laws.{IsSorted}
use painless_mesh_simulator.StdMap.TextOrder.{text_key}
use painless_mesh_simulator.Firmware.{
  FirmwareBase, MeshAnswers, get_config, get_node_list, send_single,
}
use painless_mesh_simulator.Firmware.Factory.{create, is_registered, get_registered_names}
use painless_mesh_simulator.Firmware.Factory.Refinement.{
  FactoryCall, register, unregister, run, promised, is_some, listed, factory_refines,
}
use painless_mesh_simulator.Firmware.Echo.Exchange.{
  Pair, message_to, exchanges, Counted, exchanges_lem,
}
use painless_mesh_simulator.Firmware.Report.Counts.{passing, failing}
use painless_mesh_simulator.Firmware.LibraryValidation.State.{
  LibraryValidationFirmware, library_validation_firmware, ValidationPhase, judge, record_message,
}
use painless_mesh_simulator.Firmware.LibraryValidation.Suites.{
  test_network_resilience, test_message_reception, test_mesh_lifecycle, test_connection_management,
  test_message_sending, test_time_synchronization, measure_time_errors, test_topology_discovery,
}
use painless_mesh_simulator.Firmware.LibraryValidation.Phases.{
  setup, check_expected_messages, run_validation_tests,
}
use painless_mesh_simulator.Firmware.LibraryValidation.Callbacks.{
  on_new_connection, on_receive, on_node_time_adjusted, on_changed_connections,
}
use painless_mesh_simulator.Text.Stoul.{stoul}
use painless_mesh_simulator.TextMap
use painless_mesh_simulator.Firmware.LibraryValidation.Operations.{
  Operation, received, connected, connections_changed, time_adjusted, expected_checked, tests_run,
  operate_all, rank, due_runs,
}
use painless_mesh_simulator.Firmware.LibraryValidation.Order.{phases_in_order}
use painless_mesh_simulator.Firmware.LibraryValidation.Verdict.{fresh, validation_verdict}
use painless_mesh_simulator.Firmware.LibraryValidation.Gaps.{
  last_result, delivery_rate_always_passes, silent_nodes_count_as_senders,
}
use painless_mesh_simulator.Firmware.Sketch.{wrapper}
use painless_mesh_simulator.Firmware.Sketch.Basic.{basic_ino_firmware}
use painless_mesh_simulator.Firmware.Sketch.Senders.{
  SketchCall, set_up, sent, call_all, after_set_up, from_all, from_node, basic_ino_counts,
}
use painless_mesh_simulator.Firmware.Sketch.Senders
use painless_mesh_simulator.Samples.{sample_platform}

abbrev registrations : List (FactoryCall ℕ)
registrations =
    register "EchoServer" 1
    ∷ register "EchoClient" 2
    ∷ register "EchoServer" 3
    ∷ unregister "EchoClient"
    ∷ []

factory_refines_example :
    let (results, creators) = run registrations [] in
    let (expected, table) = promised registrations (λ q. none) in
    (results ≡ expected)
    × ((name : String)
        → (create name creators ≡ table name)
          × (is_registered name creators ≡ is_some (table name))
          × (listed name (get_registered_names creators) ≡ is_some (table name)))
    × IsSorted creators
factory_refines_example = factory_refines registrations

abbrev meshed : String → ℕ → FirmwareBase
meshed name id = record {
  name = name;
  has_mesh = true;
  has_scheduler = true;
  node_id = id;
  config = ("role", "coordinator") ∷ ("test_duration", "1") ∷ [];
  initialized = true;
  calls = [];
}

abbrev echo_pair : Pair
echo_pair = (
  record {
    base = meshed "EchoClient" 5;
    server_node_id = 9;
    request_interval = 5000;
    requests_sent = 0;
    responses_received = 0;
  },
  record { base = meshed "EchoServer" 9; echo_count = 4294967295; connection_count = 1 },
)

exchanges_lem_example :
    let after = exchanges 3 echo_pair in
    let last = exchanges 4 echo_pair in
    Counted 3 echo_pair after
    × (message_to last.0.base.node_id last.1.base.calls
        ≡ some ("ECHO: " ++ ("Request #" ++ to_string after.0.requests_sent)))
exchanges_lem_example =
    exchanges_lem 3 echo_pair
      (record { client_mesh = refl; server_mesh = refl; addressed = inr refl })
      (omega arith, omega arith, omega arith)

abbrev clock : String → ℕ
clock name = 2

abbrev sample_answers : MeshAnswers
sample_answers = record {
  node_time = 77;
  node_list = 4 ∷ 5 ∷ [];
  is_bridge = false;
  has_internet = false;
}

abbrev coordinator : FirmwareBase
coordinator = meshed "LibraryValidation" 3

abbrev five_phases : List Operation
five_phases =
    connected 4
    ∷ connected 5
    ∷ connections_changed
    ∷ time_adjusted (negsuc 6)
    ∷ tests_run clock sample_answers 1100 1101
    ∷ expected_checked
    ∷ expected_checked
    ∷ tests_run clock sample_answers 1500 1501
    ∷ tests_run clock sample_answers 2200 2201
    ∷ received 4 "PING:3"
    ∷ tests_run clock sample_answers 3300 3301
    ∷ tests_run clock sample_answers 4400 4401
    ∷ tests_run clock sample_answers 5500 5501
    ∷ []

abbrev all_phases : List Operation
all_phases =
    tests_run clock sample_answers 1100 1101
    ∷ tests_run clock sample_answers 2200 2201
    ∷ tests_run clock sample_answers 3300 3301
    ∷ tests_run clock sample_answers 4400 4401
    ∷ tests_run clock sample_answers 5500 5501
    ∷ tests_run clock sample_answers 6600 6601
    ∷ connected 4
    ∷ []

abbrev started : LibraryValidationFirmware
started = (setup clock sample_answers sample_answers 100 (fresh coordinator)).1

started_well : setup clock sample_answers sample_answers 100 (fresh coordinator) ≡ (ok tt, started)
unfolding setup stoul get_config TextMap.find
started_well = refl

all_phases-complete : (operate_all all_phases started).phase ≡ ValidationPhase.complete
unfolding setup operate_all on_new_connection run_validation_tests stoul get_config TextMap.find
    test_mesh_lifecycle judge test_connection_management test_message_reception test_message_sending
    get_node_list record_message test_time_synchronization measure_time_errors
    library_validation_firmware test_topology_discovery
all_phases-complete = refl

validation_verdict_example :
    let r = (operate_all all_phases started).report in
    (17 ≤ length r.test_results)
    × (length r.test_results ≤ 18)
    × (r.total_tests ≡ length r.test_results)
    × (r.passed_tests ≡ passing r.test_results)
    × (r.failed_tests ≡ failing r.test_results)
    × ((r.all_tests_passed ≡ true) ↔ All (λ t. t.passed ≡ true) r.test_results)
validation_verdict_example =
    validation_verdict clock sample_answers sample_answers 100 coordinator started all_phases
      started_well all_phases-complete

started-coordinates : started.is_coordinator ≡ true
unfolding setup stoul get_config TextMap.find test_mesh_lifecycle judge library_validation_firmware
started-coordinates = refl

phases_in_order_example :
    rank (operate_all five_phases started).phase
    ≡ min 6 (
        rank started.phase + due_runs started.test_duration_ms started.phase_start_time five_phases)
phases_in_order_example = phases_in_order five_phases started started-coordinates

five_phases-resilience : (operate_all five_phases started).phase ≡ ValidationPhase.resilience_tests
unfolding setup operate_all on_new_connection run_validation_tests stoul get_config TextMap.find
    test_mesh_lifecycle judge test_connection_management test_message_reception test_message_sending
    get_node_list record_message test_time_synchronization measure_time_errors
    library_validation_firmware test_topology_discovery on_receive check_expected_messages
    on_node_time_adjusted on_changed_connections send_single
five_phases-resilience = refl

delivery_rate_always_passes_example :
    last_result
      (test_network_resilience clock sample_answers
        (operate_all five_phases started)).report.test_results
    ≡ some ("Message delivery rate", true)
delivery_rate_always_passes_example =
    delivery_rate_always_passes clock sample_answers sample_answers 100 coordinator started
      five_phases refl started_well five_phases-resilience

abbrev two_silent_nodes : LibraryValidationFirmware
two_silent_nodes = record started { connected_nodes = (4, tt) ∷ (5, tt) ∷ [] }

silent_nodes_count_as_senders_example :
    last_result
      (test_message_reception clock sample_answers
        (check_expected_messages two_silent_nodes)).report.test_results
    ≡ some ("Multi-node reception", true)
unfolding StdMap.find
silent_nodes_count_as_senders_example =
    silent_nodes_count_as_senders clock sample_answers two_silent_nodes 4 5 (ground arith) (λ h. cc)
      (λ h. cc)

abbrev sketch_calls : List SketchCall
sketch_calls =
    Senders.received 4 "early"
    ∷ set_up sample_answers
    ∷ Senders.received 4 "a"
    ∷ Senders.received 5 "b"
    ∷ sent 3
    ∷ Senders.received 4 "c"
    ∷ []

basic_ino_counts_example :
    let s =
      (call_all sketch_calls (wrapper (record basic_ino_firmware { base = coordinator }))).sketch in
    (s.messages_received ≡ from_all (after_set_up sketch_calls) % 4294967296)
    × ((node : ℕ)
        → StdMap.find_or 0 node s.received_from
          ≡ from_node node (after_set_up sketch_calls) % 4294967296)
basic_ino_counts_example = basic_ino_counts coordinator sketch_calls
