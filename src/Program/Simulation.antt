-- ===== src/Program/Simulation.antt =====
-- The simulation of the main program, src/main.cpp: the loop, and the stop of all nodes behind it.
use painless_mesh_simulator.Prelude.{
  ℕ, zero, suc, ◌+◌, ◌<◌, ◌%◌, ◌≡◌, subst, ◌⊎◌, inl, inr, Bool, true, false, ◌&&◌, List, [], ◌∷◌,
  ◌++◌, Option, none, some, length, All, arith, ltb, leb, add32, if◌then◌else◌, Bool-cases,
}
use painless_mesh_simulator.Result.{Result, ok, err, Step, ◌⨾◌}
use painless_mesh_simulator.Platform.{Platform}
use painless_mesh_simulator.Devices.{Devices}
use painless_mesh_simulator.StdMap.{StdMap, ℕ_key}
use painless_mesh_simulator.Node.{VirtualNode, stop, set_running}
use painless_mesh_simulator.NodeManager.{
  NodeManager, start_all, establish_connectivity, update_all, stop_all,
}

-- What the loop sees from outside in a turn: the flag that a signal clears, read before the turn, and
-- the seconds since the start, read after the update.
pub record Tick : Type 0 where
  pub running : Bool
  pub elapsed : ℕ

-- The duration is over, where 0 has no end.
abbrev is_over : ℕ → ℕ → Bool
is_over duration elapsed = ltb 0 duration && leb duration elapsed

module _ ⦃p : Platform⦄ ⦃d : Devices⦄ where
  -- The loop along the turns to come, with the number of updates; `none` is a loop that still runs
  -- behind the last of them.
  unfoldable pub simulation_loop : ℕ → List Tick → ℕ → NodeManager → Option (ℕ × NodeManager)
  simulation_loop duration [] update_count manager = none
  simulation_loop duration (t ∷ ticks) update_count manager =
      let updated = update_all manager in
      let count = add32 update_count 1 in
      let later = simulation_loop duration ticks count updated in
      if t.running
      then (if is_over duration t.elapsed then some (count, updated) else later)
      else some (update_count, manager)

  -- startAll and establishConnectivity; an exception leaves main with the exit code 1.
  unfoldable pub start_simulation : ℕ → (ℕ → ℕ) → Step NodeManager
  start_simulation now rand = start_all now ⨾ establish_connectivity rand

  -- From the created nodes to the stopped ones.
  unfoldable pub simulate :
      ℕ → ℕ → (ℕ → ℕ) → ℕ → List Tick → NodeManager → Option (Result (ℕ × NodeManager))
  simulate started stopped rand duration ticks manager =
      let (result, ready) = start_simulation started rand manager in
      elim result [
        | err e ↦ some (err e)
        | ok u ↦ elim (simulation_loop duration ticks 0 ready) [
          | none ↦ none
          | some (count, last) ↦ some (ok (count, stop_all stopped last))
        ]
      ]

  -- The turn goes on to the next one.
  abbrev GoesOn : ℕ → Tick → Type 0
  GoesOn duration t = (t.running ≡ true) × (is_over duration t.elapsed ≡ false)

  -- This many updates, one after the other.
  abbrev pub updates : ℕ → NodeManager → NodeManager
  updates zero manager = manager
  updates (suc n) manager = updates n (update_all manager)

  loop_over :
      (duration : ℕ) (before rest : List Tick) (t : Tick) (count : ℕ) (manager : NodeManager)
      → All (GoesOn duration) before
      → t.running ≡ true
      → is_over duration t.elapsed ≡ true
      → simulation_loop duration (before ++ t ∷ rest) count manager
        ≡ some ((count + suc (length before)) % 4294967296, updates (suc (length before)) manager)
  unfolding simulation_loop
  loop_over duration [] rest t count manager go r o = ground (arith, r, o)
  loop_over duration (b ∷ before) rest t count manager (g, go) r o = ground (
    arith,
    g.0,
    g.1,
    loop_over duration before rest t (add32 count 1) (update_all manager) go r o,
  )

  loop_cleared :
      (duration : ℕ) (before rest : List Tick) (t : Tick) (count : ℕ) (manager : NodeManager)
      → count < 4294967296
      → All (GoesOn duration) before
      → t.running ≡ false
      → simulation_loop duration (before ++ t ∷ rest) count manager
        ≡ some ((count + length before) % 4294967296, updates (length before) manager)
  unfolding simulation_loop
  loop_cleared duration [] rest t count manager w go r = ground (arith, r)
  loop_cleared duration (b ∷ before) rest t count manager w (g, go) r = ground (
    arith,
    g.0,
    g.1,
    loop_cleared duration before rest t (add32 count 1) (update_all manager) (omega arith) go r,
  )

  stop-stops :
      (now : ℕ) (node : VirtualNode)
      → (if node.running then stop now node else node).running ≡ false
  unfolding stop set_running
  stop-stops now node = ground arith

  -- No node runs.
  abbrev pub IsStopped : NodeManager → Type 0
  IsStopped manager = All (λ e. e.1.running ≡ false) manager.nodes

  stop_all-IsStopped :
      (now : ℕ) (nodes : StdMap ℕ VirtualNode) → IsStopped (stop_all now (record { nodes = nodes }))
  unfolding stop_all
  stop_all-IsStopped now [] = tt
  stop_all-IsStopped now ((i, node) ∷ nodes) = (stop-stops now node, stop_all-IsStopped now nodes)

  -- Behind a simulation that ended no node runs.
  pub simulate-IsStopped :
      (started stopped duration : ℕ) (rand : ℕ → ℕ) (ticks : List Tick) (manager last : NodeManager)
      (count : ℕ)
      → simulate started stopped rand duration ticks manager ≡ some (ok (count, last))
      → IsStopped last
  unfolding simulate
  simulate-IsStopped started stopped duration rand ticks manager last count h =
      let (result, ready) = start_simulation started rand manager in
      ended result (simulation_loop duration ticks 0 ready) h
    where
      ended :
          (result : Result (Unit {0})) (r : Option (ℕ × NodeManager))
          → ◌≡◌ {A = Option (Result (ℕ × NodeManager))}
              (elim result [
                | err e ↦ some (err e)
                | ok u ↦ elim r [ none ↦ none | some (n, m) ↦ some (ok (n, stop_all stopped m)) ]
              ])
              (some (ok (count, last)))
          → IsStopped last
      ended (err e) r h = cc
      ended (ok u) none h = cc
      ended (ok u) (some (n, m)) h =
          subst IsStopped (returned_last h) (stop_all-IsStopped stopped m.nodes)
        where
          returned_last :
              ◌≡◌ {A = Option (Result (ℕ × NodeManager))}
                (some (ok (n, stop_all stopped m)))
                (some (ok (count, last)))
              → stop_all stopped m ≡ last
          returned_last h = cc

  -- The turns of the loop that update the nodes, up to this tick.
  abbrev pub turns : List Tick → Tick → ℕ
  turns before t = if t.running then suc (length before) else length before

  loop-turns :
      (duration : ℕ) (before rest : List Tick) (t : Tick) (manager : NodeManager)
      → All (GoesOn duration) before
      → (t.running ≡ false) ⊎ (is_over duration t.elapsed ≡ true)
      → simulation_loop duration (before ++ t ∷ rest) 0 manager
        ≡ some (turns before t % 4294967296, updates (turns before t) manager)
  loop-turns duration before rest t manager go end = elim (Bool-cases t.running) [
    | inr r ↦ ground (arith, r, loop_cleared duration before rest t 0 manager (omega arith) go r)
    | inl r ↦ elim end [
      | inl f ↦ absurd (ground (arith, r, f))
      | inr o ↦ ground (arith, r, loop_over duration before rest t 0 manager go r o)
    ]
  ]

  -- The simulation of nodes that start and connect without an exception ends in the first turn in which
  -- the flag is cleared or, where the duration is not 0, the seconds have reached the duration. The nodes
  -- have then been updated once in each turn, in the last one only if the flag was still set, the number
  -- of updates is that of these turns (a 32-bit number), and at the end no node runs.
  pub simulation_ends :
      (started stopped duration : ℕ) (rand : ℕ → ℕ) (before rest : List Tick) (t : Tick)
      (manager ready : NodeManager)
      → start_simulation started rand manager ≡ (ok tt, ready)
      → All (GoesOn duration) before
      → (t.running ≡ false) ⊎ (is_over duration t.elapsed ≡ true)
      → let last = stop_all stopped (updates (turns before t) ready) in
        (simulate started stopped rand duration (before ++ t ∷ rest) manager
          ≡ some (ok (turns before t % 4294967296, last)))
        × IsStopped last
  unfolding simulate
  simulation_ends started stopped duration rand before rest t manager ready e go end = (
    ground (arith, e, loop-turns duration before rest t ready go end),
    stop_all-IsStopped stopped (updates (turns before t) ready).nodes,
  )
