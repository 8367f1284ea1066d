-- ===== src/Samples/EventRuns.antt =====
-- The theorems on the events and their scheduler at concrete inputs.
use mathlib.Core.List.{Perm}
use painless_mesh_simulator.Prelude.{
  ℕ, suc, ◌+◌, ◌≤◌, ◌≡◌, ◌≢◌, refl, true, false, not, ◌&&◌, List, [], ◌∷◌, none, some, arith,
  uint32_max,
}
use painless_mesh_simulator.Result.{ok, err, invalid_argument}
use painless_mesh_simulator.StdMap.{ℕ_key}
use painless_mesh_simulator.Node.{set_partition_id}
use painless_mesh_simulator.NodeManager.{NodeManager, get_node}
use painless_mesh_simulator.NodeManager.Invariant.{IsValid}
use painless_mesh_simulator.Network.Connections.{is_connection_active}
use painless_mesh_simulator.Events.{
  node_stop, node_crash, connection_degrade, network_partition, network_heal, World, execute,
}
use painless_mesh_simulator.Events.Degrade.{DegradeOutcome, degrade_outcome}
use painless_mesh_simulator.Events.Partitions.{
  across, last_group, mapped, marked, partition_isolates,
}
use painless_mesh_simulator.Events.Healing.{heal_restores}
use painless_mesh_simulator.Events.Nodes.{FoundNode, node_event_outcome}
use painless_mesh_simulator.Events.Validity.{execute-IsValid}
use painless_mesh_simulator.EventScheduler.{
  ScheduledEvent, EventScheduler, schedule_event, process_events, clear, get_pending_event_count,
  has_pending_events, get_next_event_time,
}
use painless_mesh_simulator.EventScheduler.Process.{Processed, process_events_lem}
use painless_mesh_simulator.EventScheduler.Pending.{pending_events, schedule_event_lem}
use painless_mesh_simulator.Samples.{
  sample_platform, sample_devices, message_queue, event_queue, sample_network, sample_node,
}

abbrev sample_manager : NodeManager
sample_manager = record {
  nodes = (1, sample_node 1 true) ∷ (2, sample_node 2 true) ∷ (3, sample_node 3 false) ∷ [];
}

abbrev sample_world : World
sample_world = record { manager = sample_manager; network = sample_network }

abbrev clock : ℕ × ℕ
clock = (1000, 1001)

sample_IsValid : IsValid sample_manager
sample_IsValid = record {
  sorted = ((refl, (refl, tt)), ((refl, tt), (tt, tt)));
  keyed = (
    record { keyed = refl; nonzero = ground arith },
    (
      record { keyed = refl; nonzero = ground arith },
      (record { keyed = refl; nonzero = ground arith }, tt),
    ),
  );
  bounded = omega arith;
}

degrade_outcome_example :
    let (result, after) = execute clock (connection_degrade 1 2 500 300) sample_world in
    (after.manager ≡ sample_manager)
    × DegradeOutcome 1 2 500 300 sample_network (result, after.network)
degrade_outcome_example = degrade_outcome clock 1 2 500 300 sample_world (omega arith)

abbrev half_empty : List (List ℕ)
half_empty = (1 ∷ []) ∷ [] ∷ []

abbrev groups : List (List ℕ)
groups = (1 ∷ []) ∷ (2 ∷ 3 ∷ []) ∷ []

partition_isolates_example :
    let (result, after) = execute clock (network_partition groups) sample_world in
    (result ≡ ok tt)
    × ((a b : ℕ)
        → is_connection_active a b after.network
          ≡ not (across a b groups) && is_connection_active a b sample_network)
    × ((a : ℕ)
        → get_node a after.manager
          ≡ mapped (marked (last_group a 0 groups)) (get_node a sample_manager))
partition_isolates_example = partition_isolates clock groups sample_world

heal_restores_example :
    let (result, after) = execute clock network_heal sample_world in
    (result ≡ ok tt)
    × ((a b : ℕ) → is_connection_active a b after.network ≡ true)
    × ((a : ℕ) → get_node a after.manager ≡ mapped (set_partition_id 0) (get_node a sample_manager))
heal_restores_example = heal_restores clock sample_world

node_event_outcome_example :
    let (result, after) = execute clock (node_crash 2) sample_world in
    (after.network ≡ sample_network)
    × ((j : ℕ) → j ≢ 2 → get_node j after.manager ≡ get_node j sample_manager)
    × FoundNode
        (node_crash 2)
        2
        "crash"
        (get_node 2 sample_manager)
        result
        (get_node 2 after.manager)
node_event_outcome_example = node_event_outcome clock (node_crash 2) 2 "crash" sample_world refl

execute-IsValid_example : IsValid (execute clock (node_stop 1 true) sample_world).1.manager
execute-IsValid_example = execute-IsValid clock (node_stop 1 true) sample_world sample_IsValid

abbrev crash_later : ScheduledEvent
crash_later = record { event = node_crash 2; scheduled_time = 30 }

abbrev stop_missing : ScheduledEvent
stop_missing = record { event = node_stop 8 true; scheduled_time = 10 }

-- Two events, of which the first throws.
abbrev sample_scheduler : EventScheduler
sample_scheduler = record {
  event_queue = event_queue.push crash_later (event_queue.push stop_missing event_queue.empty);
}

abbrev clocks : ℕ → ℕ × ℕ
clocks i = (1000 + i, 1000 + i)

process_events_lem_example :
    let (executed, scheduler', world') = process_events clocks 20 sample_scheduler sample_world in
    Processed clocks 20 sample_scheduler sample_world executed scheduler' world'
process_events_lem_example = process_events_lem clocks 20 sample_scheduler sample_world

schedule_event_lem_example :
    (schedule_event none 15 sample_scheduler ≡ err (invalid_argument "Cannot schedule null event"))
    × ((scheduler' : EventScheduler) × (schedule_event (some network_heal) 15 sample_scheduler
          ≡ ok scheduler')
        × Perm
            (pending_events scheduler')
            (record { event = network_heal; scheduled_time = 15 } ∷ pending_events sample_scheduler)
        × (get_pending_event_count scheduler' ≡ suc (get_pending_event_count sample_scheduler))
        × (has_pending_events scheduler' ≡ true)
        × (get_next_event_time scheduler' ≤ 15))
    × (get_pending_event_count (clear sample_scheduler) ≡ 0)
    × (has_pending_events (clear sample_scheduler) ≡ false)
    × (get_next_event_time (clear sample_scheduler) ≡ uint32_max)
schedule_event_lem_example = schedule_event_lem network_heal 15 sample_scheduler
