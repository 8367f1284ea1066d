-- ===== src/EventScheduler/Process.antt =====
-- `processEvents` against its description: the due events run in chronological order, each once.
use mathlib.Core.List.{Perm}
use painless_mesh_simulator.Prelude.{
  ℕ, zero, suc, ◌+◌, ◌%◌, ◌≤◌, ◌<◌, ◌≡◌, refl, ap, ◌∙◌, List, [], ◌∷◌, ◌++◌, All, arith, leb,
  Bool-cases, Option-cases, inl, inr,
}
use painless_mesh_simulator.Result.{Result, ok, err}
use painless_mesh_simulator.Platform.{Platform}
use painless_mesh_simulator.Devices.{Devices}
use painless_mesh_simulator.MinQueue.{MinQueue, size}
use painless_mesh_simulator.MinQueue.Drain.{Rising, drain, drain-Drained}
use painless_mesh_simulator.Network.State.{DelayedMessage, delivery_key}
use painless_mesh_simulator.NodeManager.Invariant.{IsValid}
use painless_mesh_simulator.Events.{World, execute}
use painless_mesh_simulator.Events.Validity.{execute-IsValid}
use painless_mesh_simulator.EventScheduler.{
  ScheduledEvent, due_key, EventScheduler, count_executed, process_loop, process_events,
}

module _ ⦃p : Platform⦄ ⦃d : Devices⦄ ⦃messages : MinQueue DelayedMessage delivery_key⦄
    ⦃events : MinQueue ScheduledEvent due_key⦄ where
  -- The events executed one after the other, whatever they throw.
  abbrev execute_all : (ℕ → ℕ × ℕ) → List ScheduledEvent → World → World
  execute_all clocks [] world = world
  execute_all clocks (e ∷ es) world =
      execute_all (λ i. clocks (suc i)) es (execute (clocks 0) e.event world).1

  abbrev one_if_ok : Result (Unit {0}) → ℕ → ℕ
  one_if_ok (ok u) n = suc n
  one_if_ok (err e) n = n

  -- How many of them do not throw.
  abbrev successes : (ℕ → ℕ × ℕ) → List ScheduledEvent → World → ℕ
  successes clocks [] world = 0
  successes clocks (e ∷ es) world =
      let (result, world') = execute (clocks 0) e.event world in
      one_if_ok result (successes (λ i. clocks (suc i)) es world')

  count_executed-lt :
      (result : Result (Unit {0})) (executed : ℕ)
      → executed < 4294967296
      → count_executed result executed < 4294967296
  unfolding count_executed
  count_executed-lt (ok u) executed h = omega arith
  count_executed-lt (err e) executed h = h

  count_executed-add :
      (result : Result (Unit {0})) (executed later : ℕ)
      → (count_executed result executed + later) % 4294967296
        ≡ (executed + one_if_ok result later) % 4294967296
  unfolding count_executed
  count_executed-add (ok u) executed later = omega arith
  count_executed-add (err e) executed later = refl

  -- The loop is a drain of the queue whose entries are executed in the order they come out.
  process_loop-drain :
      (fuel : ℕ) (clocks : ℕ → ℕ × ℕ) (now executed : ℕ) (q : events.Queue) (world : World)
      → executed < 4294967296
      → let (ran, rest) = drain events fuel now q in
        process_loop fuel clocks now executed q world
        ≡ ((executed + successes clocks ran world) % 4294967296, rest, execute_all clocks ran world)
  unfolding process_loop drain count_executed
  process_loop-drain zero clocks now executed q world h = ground arith
  process_loop-drain (suc fuel) clocks now executed q world h = elim (Option-cases (events.pop q)) [
    | inl e ↦ rw (e, process_loop, drain) (ground arith)
    | inr ((x, rest), e) ↦ elim (Bool-cases (leb x.scheduled_time now)) [
      | inl t ↦
          rw (e, process_loop, drain, t)
            (let (result, world') = execute (clocks 0) x.event world in
              process_loop-drain fuel (λ i. clocks (suc i)) now (count_executed result executed)
                rest world' (count_executed-lt result executed h)
              ∙ ap
                  (λ n. (
                    n,
                    (drain events fuel now rest).1,
                    execute_all (λ i. clocks (suc i)) (drain events fuel now rest).0 world',
                  ))
                  (count_executed-add result executed _))
      | inr t ↦ rw (e, process_loop, drain, t) (ground arith)
    ]
  ]

  -- What a call of `processEvents` has done.
  pub record Processed (clocks : ℕ → ℕ × ℕ) (now : ℕ) (scheduler : EventScheduler) (world : World)
      (executed : ℕ) (scheduler' : EventScheduler) (world' : World) : Type 0 where
    pub ran : List ScheduledEvent
    pub once :
        Perm (events.to_list scheduler.event_queue) (ran ++ events.to_list scheduler'.event_queue)
    pub due : All (λ e. e.scheduled_time ≤ now) ran
    pub pending : All (λ e. now < e.scheduled_time) (events.to_list scheduler'.event_queue)
    pub chronological : Rising due_key ran
    pub effect : world' ≡ execute_all clocks ran world
    pub count : executed ≡ successes clocks ran world % 4294967296

  -- A call of `processEvents` ends, after as many turns as there are events or one more. It takes the
  -- events whose time has come out of the queue, each once, executes them in chronological order, also
  -- behind one that throws, and returns how many did not throw (a 32-bit number). The events of later
  -- times, and no others, stay in the queue.
  pub process_events_lem :
      (clocks : ℕ → ℕ × ℕ) (now : ℕ) (scheduler : EventScheduler) (world : World)
      → let (executed, scheduler', world') = process_events clocks now scheduler world in
        Processed clocks now scheduler world executed scheduler' world'
  unfolding process_events
  process_events_lem clocks now scheduler world =
      let q = scheduler.event_queue in
      let fuel = suc (size events q) in
      let drained = drain-Drained events fuel now q (omega arith) in
      rw (process_loop-drain fuel clocks now 0 q world (omega arith)) (record {
        ran = (drain events fuel now q).0;
        once = drained.kept;
        due = drained.due;
        pending = drained.pending;
        chronological = drained.rising;
        effect = refl;
        count = omega arith;
      })

  execute_all-IsValid :
      (clocks : ℕ → ℕ × ℕ) (es : List ScheduledEvent) (world : World)
      → IsValid world.manager
      → IsValid (execute_all clocks es world).manager
  execute_all-IsValid clocks [] world v = v
  execute_all-IsValid clocks (e ∷ es) world v =
      execute_all-IsValid (λ i. clocks (suc i)) es (execute (clocks 0) e.event world).1
        (execute-IsValid (clocks 0) e.event world v)

  -- A call of `processEvents` keeps the invariant of the node manager, whatever the events are.
  process_events-IsValid :
      (clocks : ℕ → ℕ × ℕ) (now : ℕ) (scheduler : EventScheduler) (world : World)
      → IsValid world.manager
      → IsValid (process_events clocks now scheduler world).2.manager
  process_events-IsValid clocks now scheduler world v =
      let done = process_events_lem clocks now scheduler world in
      rw (done.effect) (execute_all-IsValid clocks done.ran world v)
