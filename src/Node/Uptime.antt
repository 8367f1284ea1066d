-- ===== src/Node/Uptime.antt =====
-- The uptime of a node over a series of lifecycle calls.
use painless_mesh_simulator.Prelude.{
  ℕ, ◌+◌, ◌*◌, ◌-◌, ◌≤◌, ◌<◌, ◌^◌, ◌≡◌, List, [], ◌∷◌, arith, if◌then◌else◌,
}
use painless_mesh_simulator.Platform.{Platform}
use painless_mesh_simulator.Devices.{Devices}
use painless_mesh_simulator.Node.{
  VirtualNode, start, stop, crash, restart, prepare, setup_firmware, route_callbacks_to_firmware,
  set_running, get_uptime,
}

pub data Command : Type 0 where
  starts stops crashes restarts : Command

module _ ⦃p : Platform⦄ ⦃d : Devices⦄ where
  -- A call at a time; an exception leaves what the call had changed.
  unfoldable pub command : ℕ → Command → VirtualNode → VirtualNode
  command now starts node = (start now node).1
  command now stops node = stop now node
  command now crashes node = crash now node
  command now restarts node = (restart now now node).1

  unfoldable pub commands : List (ℕ × Command) → VirtualNode → VirtualNode
  commands [] node = node
  commands ((now, c) ∷ cs) node = commands cs (command now c node)

  -- The time during which the node's running flag was set, between `now` and `finish`.
  pub running_time : ℕ → ℕ → List (ℕ × Command) → VirtualNode → ℕ
  running_time now finish [] node = if node.running then finish - now else 0
  running_time now finish ((t, c) ∷ cs) node =
      (if node.running then t - now else 0) + running_time t finish cs (command t c node)

  -- The calls come at times that do not fall, from `now` on, up to `finish`.
  abbrev Ordered : ℕ → ℕ → List (ℕ × Command) → Type 0
  Ordered now finish [] = now ≤ finish
  Ordered now finish ((t, c) ∷ cs) = (now ≤ t) × Ordered t finish cs

  Ordered-le : (now finish : ℕ) (cs : List (ℕ × Command)) → Ordered now finish cs → now ≤ finish
  Ordered-le now finish [] o = o
  Ordered-le now finish ((t, c) ∷ cs) o = omega (arith, Ordered-le t finish cs o.1)

  -- The calls that end a session.
  abbrev pub ended : Command → VirtualNode → ℕ
  ended starts node = 0
  ended _ node = if node.running then 1 else 0

  pub sessions_ended : List (ℕ × Command) → VirtualNode → ℕ
  sessions_ended [] node = 0
  sessions_ended ((t, c) ∷ cs) node = ended c node + sessions_ended cs (command t c node)

  -- The uptime in nanoseconds: the milliseconds of the sessions that ended, and the session that runs.
  abbrev pub clock : ℕ → VirtualNode → ℕ
  clock now node =
      node.metrics.total_uptime_ms * 1000000
      + (if node.running then now - node.metrics.start_time else 0)

  -- The session that runs began in the past, and all sessions fit in the time since 0.
  pub record IsClocked (now : ℕ) (node : VirtualNode) : Type 0 where
    pub begun : node.metrics.start_time ≤ now
    pub total : clock now node ≤ now

  prepare_keeps :
      (now : ℕ) (node : VirtualNode)
      → let after = (prepare now node).1 in
        (after.metrics.start_time ≡ now)
        × (after.metrics.total_uptime_ms ≡ node.metrics.total_uptime_ms)
        × (after.running ≡ node.running)
  unfolding prepare setup_firmware route_callbacks_to_firmware
  prepare_keeps now node = ground arith

  start-clock :
      (now : ℕ) (node : VirtualNode)
      → node.metrics.start_time ≤ now
      → (clock now (start now node).1 ≡ clock now node)
        × ((start now node).1.metrics.start_time ≤ now)
  unfolding start set_running
  start-clock now node h = ground (arith, prepare_keeps now node)

  -- A call at `now`, which cuts less than a millisecond off the uptime in each of the sessions that it
  -- ends.
  abbrev Cut : ℕ → ℕ → VirtualNode → VirtualNode → Type 0
  Cut now ends node after =
      (clock now after ≤ clock now node)
      × (clock now node ≤ clock now after + ends * 999999)
      × (after.metrics.start_time ≤ now)

  stop-clock :
      (now : ℕ) (node : VirtualNode)
      → IsClocked now node
      → now < 2 ^ 63
      → Cut now (if node.running then 1 else 0) node (stop now node)
  unfolding stop set_running
  stop-clock now node v w = ground arith

  crash-clock :
      (now : ℕ) (node : VirtualNode)
      → IsClocked now node
      → now < 2 ^ 63
      → Cut now (if node.running then 1 else 0) node (crash now node)
  unfolding crash set_running
  crash-clock now node v w = ground arith

  command-clock :
      (now : ℕ) (c : Command) (node : VirtualNode)
      → IsClocked now node
      → now < 2 ^ 63
      → Cut now (ended c node) node (command now c node)
  unfolding command restart
  command-clock now starts node v w =
      let (kept, begun) = start-clock now node v.begun in (omega arith, omega arith, begun)
  command-clock now stops node v w = stop-clock now node v w
  command-clock now crashes node v w = crash-clock now node v w
  command-clock now restarts node v w =
      let (low, high, begun) = stop-clock now node v w in
      let (kept, begun') = start-clock now (stop now node) begun in
      (omega arith, omega arith, begun')

  later_clock :
      (now t : ℕ) (node : VirtualNode)
      → now ≤ t
      → IsClocked now node
      → (clock t node ≡ clock now node + (if node.running then t - now else 0)) × IsClocked t node
  later_clock now t node h v = ground (arith, v.begun, v.total)

  commands-clock :
      (cs : List (ℕ × Command)) (now finish : ℕ) (node : VirtualNode)
      → IsClocked now node
      → Ordered now finish cs
      → finish < 2 ^ 63
      → let last = commands cs node in
        let ran = clock now node + running_time now finish cs node in
        (clock finish last ≤ ran)
        × (ran ≤ clock finish last + sessions_ended cs node * 999999)
        × IsClocked finish last
  unfolding commands running_time sessions_ended
  commands-clock [] now finish node v o w =
      let (moved, v') = later_clock now finish node o v in (omega arith, omega arith, v')
  commands-clock ((t, c) ∷ cs) now finish node v (le, o) w =
      let (moved, v') = later_clock now t node le v in
      let (low, high, begun) =
        command-clock t c node v' (omega (arith, Ordered-le t finish cs o)) in
      let v'' : IsClocked t (command t c node) = record {
        begun = begun;
        total = omega (arith, v'.total);
      } in
      let (rest_low, rest_high, last) = commands-clock cs t finish (command t c node) v'' o w in
      (omega arith, omega arith, last)

  -- The uptime that a node accounts for is the time during which it was running, but for less than a
  -- millisecond in each session. After any series of `start`, `stop`, `crash` and `restart` calls at
  -- times that do not fall, some of which may throw, the total uptime and `getUptime` together are, in
  -- nanoseconds, at most the uptime before and the time during which the running flag was set, and
  -- fall short of these by at most 999999 for each session that ended and for the one that may still
  -- run. (The session under way began in the past, the sessions so far fit in the time up to `now`,
  -- and times are below 2^63 ns.)
  pub uptime_is_running_time :
      (cs : List (ℕ × Command)) (now finish : ℕ) (node : VirtualNode)
      → IsClocked now node
      → Ordered now finish cs
      → finish < 2 ^ 63
      → let last = commands cs node in
        let accounted = (last.metrics.total_uptime_ms + get_uptime finish last) * 1000000 in
        let ran = clock now node + running_time now finish cs node in
        (accounted ≤ ran) × (ran ≤ accounted + (sessions_ended cs node + 1) * 999999)
  unfolding get_uptime
  uptime_is_running_time cs now finish node v o w =
      let (low, high, last) = commands-clock cs now finish node v o w in
      (ground (arith, low, last.begun), ground (arith, high, last.begun))
