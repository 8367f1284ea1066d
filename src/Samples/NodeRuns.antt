-- ===== src/Samples/NodeRuns.antt =====
-- The theorems on nodes and the node manager at concrete inputs.
use painless_mesh_simulator.Prelude.{
  String, ℕ, ◌+◌, ◌*◌, ◌≤◌, ◌≡◌, refl, true, false, List, [], ◌∷◌, some, map, All, arith,
}
use painless_mesh_simulator.Result.{ok}
use painless_mesh_simulator.TextMap
use painless_mesh_simulator.TextMap.{TextMap}
use painless_mesh_simulator.StdMap.{StdMap, ℕ_key}
use painless_mesh_simulator.Node.{VirtualNode, NodeConfig, start, update, set_firmware, get_uptime}
use painless_mesh_simulator.Node.Uptime.{
  Command, starts, stops, crashes, restarts, commands, running_time, sessions_ended, clock,
  IsClocked, uptime_is_running_time,
}
use painless_mesh_simulator.Node.FirmwareSetup.{
  FirstStart, handed, firmware_is_set_up_once, reloaded_firmware_is_not_set_up,
}
use painless_mesh_simulator.NodeManager.{node_manager, establish_connectivity}
use painless_mesh_simulator.NodeManager.Invariant.{IsValid}
use painless_mesh_simulator.NodeManager.Operations.{
  creates, removes, starts_all, operations, operations-IsValid,
}
use painless_mesh_simulator.NodeManager.Connectivity.{
  IsReady, Reaches, total_calls, establish_connectivity_connects,
}
use painless_mesh_simulator.Samples.{sample_platform, sample_devices, sample_config, sample_node}

abbrev life : List (ℕ × Command)
life =
    (2000000, starts)
    ∷ (4500000, stops)
    ∷ (5000000, starts)
    ∷ (6999999, crashes)
    ∷ (8000000, restarts)
    ∷ []

sample_IsClocked : IsClocked 150 (sample_node 1 false)
sample_IsClocked = record { begun = omega arith; total = omega arith }

uptime_is_running_time_example :
    let last = commands life (sample_node 1 false) in
    let accounted = (last.metrics.total_uptime_ms + get_uptime 9500000 last) * 1000000 in
    let ran =
      clock 150 (sample_node 1 false) + running_time 150 9500000 life (sample_node 1 false) in
    (accounted ≤ ran) × (ran ≤ accounted + (sessions_ended life (sample_node 1 false) + 1) * 999999)
uptime_is_running_time_example =
    uptime_is_running_time life 150 9500000 (sample_node 1 false) sample_IsClocked
      (omega arith, (omega arith, (omega arith, (omega arith, (omega arith, omega arith)))))
      (omega arith)

-- A node with an entry of its own, which stands in for the mesh's.
abbrev custom_config : NodeConfig
custom_config = record (sample_config 1) {
  firmware_config = ("mesh_prefix", "OwnMesh") ∷ ("role", "coordinator") ∷ [];
}

abbrev custom_node : VirtualNode
custom_node = record (sample_node 1 false) { config = custom_config }

firmware_is_set_up_once_example :
    (m : TextMap) × ((key : String) → TextMap.find key m ≡ handed custom_config key)
    × (let (g, thrown) = sample_devices.setup (sample_devices.initialize 1 m 0) in
        let (r, node') = start 200 custom_node in FirstStart g thrown life r node')
unfolding TextMap.find
firmware_is_set_up_once_example =
    firmware_is_set_up_once 200 life custom_node 0 refl refl refl refl (refl, (refl, tt))

abbrev used_node : VirtualNode
used_node = record (sample_node 1 false) { firmware_initialized = true }

reloaded_firmware_is_not_set_up_example :
    let (r, node') = start 200 (set_firmware (some 7) used_node) in
    (r ≡ ok tt)
    × (node'.running ≡ true)
    × (node'.firmware ≡ some 7)
    × ((update node').firmware ≡ some 8)
reloaded_firmware_is_not_set_up_example =
    reloaded_firmware_is_not_set_up 200 used_node 7 refl refl refl

operations-IsValid_example : IsValid (
    operations
      (creates (sample_config 3) 100
        ∷ creates (sample_config 0) 110
        ∷ starts_all 120
        ∷ removes 3 130
        ∷ [])
      (record { nodes = [] }))
unfolding node_manager
operations-IsValid_example = operations-IsValid (
    creates (sample_config 3) 100
    ∷ creates (sample_config 0) 110
    ∷ starts_all 120
    ∷ removes 3 130
    ∷ [])

abbrev made_node : VirtualNode
made_node = record (sample_node 4 false) { firmware = some 0 }

abbrev two_more : StdMap ℕ VirtualNode
two_more = (5, sample_node 5 true) ∷ (9, sample_node 9 true) ∷ []

ready : (id : ℕ) → IsReady (id, sample_node id true)
ready id = record { keyed = refl; mesh = refl }

establish_connectivity_connects_example :
    let (r, manager) =
      establish_connectivity (λ i. 3) (record { nodes = (2, sample_node 2 true) ∷ two_more }) in
    (r ≡ ok tt)
    × All (λ e. Reaches manager.nodes 2 e.0) manager.nodes
    × (map (λ e. e.0) manager.nodes ≡ 2 ∷ 5 ∷ 9 ∷ [])
    × (total_calls manager.nodes ≡ total_calls ((2, sample_node 2 true) ∷ two_more) + 2)
establish_connectivity_connects_example =
    establish_connectivity_connects (λ i. 3) 2 (sample_node 2 true) two_more
      (ready 2, (ready 5, (ready 9, tt)))
