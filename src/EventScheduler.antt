-- ===== src/EventScheduler.antt =====
-- The event scheduler, include/simulator/event_scheduler.hpp and src/scenario/event_scheduler.cpp.
-- The texts on the console are left out.
pub mod Process
pub mod Pending
use painless_mesh_simulator.Prelude.{
  ℕ, zero, suc, ◌+◌, Bool, true, false, not, List, [], ◌∷◌, Option, none, some, length, leb, ◌==◌,
  add32, uint32_max, if◌then◌else◌,
}
use painless_mesh_simulator.Result.{Exception, invalid_argument, Result, ok, err}
use painless_mesh_simulator.Platform.{Platform}
use painless_mesh_simulator.Devices.{Devices}
use painless_mesh_simulator.MinQueue.{MinQueue, size}
use painless_mesh_simulator.Network.State.{DelayedMessage, delivery_key}
use painless_mesh_simulator.Events.{Event, World, execute}

module _ ⦃p : Platform⦄ where
  -- An event with the time that `setScheduledTime` put into it.
  pub record ScheduledEvent : Type 0 where
    pub event : Event
    pub scheduled_time : ℕ

  -- The order of the queue, `EventComparator`.
  abbrev pub due_key : ScheduledEvent → ℕ
  due_key e = e.scheduled_time

module _ ⦃p : Platform⦄ ⦃d : Devices⦄ ⦃messages : MinQueue DelayedMessage delivery_key⦄
    ⦃events : MinQueue ScheduledEvent due_key⦄ where
  pub record EventScheduler : Type 0 where
    pub event_queue : events.Queue

  unfoldable pub event_scheduler : EventScheduler
  event_scheduler = record { event_queue = events.empty }

  -- `none` is a null pointer.
  unfoldable pub schedule_event : Option Event → ℕ → EventScheduler → Result EventScheduler
  schedule_event none time scheduler = err (invalid_argument "Cannot schedule null event")
  schedule_event (some event) time scheduler = ok (record {
    event_queue =
        events.push (record { event = event; scheduled_time = time }) scheduler.event_queue;
  })

  -- `executedCount++`, where the event did not throw.
  unfoldable pub count_executed : Result (Unit {0}) → ℕ → ℕ
  count_executed (ok u) executed = add32 executed 1
  count_executed (err e) executed = executed

  -- The loop of `processEvents`. The fuel bounds its turns, and `clocks` are the clock readings of the
  -- turns to come.
  unfoldable pub process_loop :
      ℕ → (ℕ → ℕ × ℕ) → ℕ → ℕ → events.Queue → World → ℕ × events.Queue × World
  process_loop zero clocks now executed q world = (executed, q, world)
  process_loop (suc fuel) clocks now executed q world = elim (events.pop q) [
    | none ↦ (executed, q, world)
    | some (e, rest) ↦
        let (result, world') = execute (clocks 0) e.event world in
        let later =
          process_loop fuel (λ i. clocks (suc i)) now (count_executed result executed) rest
            world' in
        if leb e.scheduled_time now then later else (executed, q, world)
  ]

  -- One turn more than there are events.
  unfoldable pub process_events :
      (ℕ → ℕ × ℕ) → ℕ → EventScheduler → World → ℕ × EventScheduler × World
  process_events clocks now scheduler world =
      let (executed, q, world') =
        process_loop (suc (size events scheduler.event_queue)) clocks now 0 scheduler.event_queue
          world in
      (executed, record { event_queue = q }, world')

  unfoldable pub get_pending_event_count : EventScheduler → ℕ
  get_pending_event_count scheduler = size events scheduler.event_queue

  unfoldable pub has_pending_events : EventScheduler → Bool
  has_pending_events scheduler = not (size events scheduler.event_queue == 0)

  unfoldable pub get_next_event_time : EventScheduler → ℕ
  get_next_event_time scheduler = elim (events.pop scheduler.event_queue) [
    | none ↦ uint32_max
    | some (e, rest) ↦ e.scheduled_time
  ]

  unfoldable pub clear : EventScheduler → EventScheduler
  clear scheduler = event_scheduler
