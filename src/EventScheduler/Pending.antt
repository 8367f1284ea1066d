-- ===== src/EventScheduler/Pending.antt =====
-- What the queries of the scheduler tell of the events that are pending.
use mathlib.Core.List.{Perm}
use painless_mesh_simulator.Prelude.{
  ℕ, suc, ◌≤◌, ◌<◌, ◌≡◌, refl, ◌⊎◌, true, false, List, [], ◌∷◌, none, some, length-append, All,
  All-map, arith, inl, inr, uint32_max,
}
use painless_mesh_simulator.Result.{ok, err, invalid_argument}
use painless_mesh_simulator.Platform.{Platform}
use painless_mesh_simulator.Devices.{Devices}
use painless_mesh_simulator.MinQueue.{MinQueue}
use painless_mesh_simulator.MinQueue.Drain.{length-perm, All-perm}
use painless_mesh_simulator.Network.State.{DelayedMessage, delivery_key}
use painless_mesh_simulator.Events.{Event, World}
use painless_mesh_simulator.EventScheduler.{
  ScheduledEvent, due_key, EventScheduler, event_scheduler, schedule_event, process_events, clear,
  get_pending_event_count, has_pending_events, get_next_event_time,
}
use painless_mesh_simulator.EventScheduler.Process.{process_events_lem}

module _ ⦃p : Platform⦄ ⦃d : Devices⦄ ⦃messages : MinQueue DelayedMessage delivery_key⦄
    ⦃events : MinQueue ScheduledEvent due_key⦄ where
  abbrev pub pending_events : EventScheduler → List ScheduledEvent
  pending_events scheduler = events.to_list scheduler.event_queue

  -- The next event time is that of a pending event that no other one comes before, or UINT32_MAX.
  abbrev NextTime : EventScheduler → Type 0
  NextTime scheduler =
      ((pending_events scheduler ≡ []) × (get_next_event_time scheduler ≡ uint32_max))
      ⊎ ((e : ScheduledEvent) × (rest : List ScheduledEvent) × Perm (pending_events scheduler)
            (e ∷ rest)
          × (get_next_event_time scheduler ≡ e.scheduled_time)
          × All (λ b. e.scheduled_time ≤ b.scheduled_time) (pending_events scheduler))

  next_time : (scheduler : EventScheduler) → NextTime scheduler
  unfolding get_next_event_time
  next_time scheduler = elim (events.pop-Pops scheduler.event_queue) [
    | inl (h, e) ↦ inl (h, rw (e, get_next_event_time) refl)
    | inr (x, rest, e, perm, least) ↦
        inr (x, events.to_list rest, perm, rw (e, get_next_event_time) refl, least)
  ]

  next_time-le :
      (e : ScheduledEvent) (rest : List ScheduledEvent) (scheduler : EventScheduler)
      → Perm (pending_events scheduler) (e ∷ rest)
      → get_next_event_time scheduler ≤ e.scheduled_time
  next_time-le e rest scheduler perm = elim (next_time scheduler) [
    | inl (h, none_left) ↦ absurd (ground (arith, length-perm perm, h))
    | inr (x, others, found, next, least) ↦ rw next (All-perm due_key x.scheduled_time perm least).0
  ]

  no_next_time :
      (scheduler : EventScheduler)
      → pending_events scheduler ≡ []
      → get_next_event_time scheduler ≡ uint32_max
  no_next_time scheduler h = elim (next_time scheduler) [
    | inl (_, e) ↦ e
    | inr (x, others, found, next, least) ↦ absurd (ground (arith, length-perm found, h))
  ]

  -- A null pointer is refused. An event that is scheduled is pending with its time beside those that
  -- were pending, the count of pending events grows by one, and the next event time is at most this
  -- time. A cleared scheduler has none, and tells UINT32_MAX.
  pub schedule_event_lem :
      (event : Event) (time : ℕ) (scheduler : EventScheduler)
      → (schedule_event none time scheduler ≡ err (invalid_argument "Cannot schedule null event"))
        × ((scheduler' : EventScheduler) × (schedule_event (some event) time scheduler
              ≡ ok scheduler')
            × Perm
                (pending_events scheduler')
                (record { event = event; scheduled_time = time } ∷ pending_events scheduler)
            × (get_pending_event_count scheduler' ≡ suc (get_pending_event_count scheduler))
            × (has_pending_events scheduler' ≡ true)
            × (get_next_event_time scheduler' ≤ time))
        × (get_pending_event_count (clear scheduler) ≡ 0)
        × (has_pending_events (clear scheduler) ≡ false)
        × (get_next_event_time (clear scheduler) ≡ uint32_max)
  unfolding schedule_event get_pending_event_count has_pending_events clear event_scheduler
  schedule_event_lem event time scheduler =
      let e : ScheduledEvent = record { event = event; scheduled_time = time } in
      let q = scheduler.event_queue in
      let grown = length-perm (events.push-perm e q) in
      (
        refl,
        (
          record { event_queue = events.push e q },
          refl,
          events.push-perm e q,
          grown,
          ground (arith, grown),
          next_time-le e (events.to_list q) (record { event_queue = events.push e q })
              (events.push-perm e q),
        ),
        ground (arith, events.to_list-empty),
        ground (arith, events.to_list-empty),
        no_next_time event_scheduler events.to_list-empty,
      )

  next_time_later :
      (now : ℕ) (scheduler : EventScheduler)
      → now < uint32_max
      → All (λ e. now < e.scheduled_time) (pending_events scheduler)
      → now < get_next_event_time scheduler
  next_time_later now scheduler h later = elim (next_time scheduler) [
    | inl (_, e) ↦ rw e h
    | inr (x, others, found, next, least) ↦
        rw next (All-perm due_key (suc now) found (All-map (λ e l. omega (arith, l)) _ later)).0
  ]

  -- After a call of `processEvents` at a time below UINT32_MAX the next event time is later than that
  -- time, and no more events are pending than before.
  next_event_is_later :
      (clocks : ℕ → ℕ × ℕ) (now : ℕ) (scheduler : EventScheduler) (world : World)
      → now < uint32_max
      → let scheduler' = (process_events clocks now scheduler world).1 in
        (now < get_next_event_time scheduler')
        × (get_pending_event_count scheduler' ≤ get_pending_event_count scheduler)
  unfolding get_pending_event_count
  next_event_is_later clocks now scheduler world h =
      let done = process_events_lem clocks now scheduler world in
      (
        next_time_later now (process_events clocks now scheduler world).1 h done.pending,
        omega (arith, length-perm done.once, length-append done.ran _),
      )
