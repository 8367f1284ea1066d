-- ===== src/Samples/SimulationRuns.antt =====
-- The simulation of the main program at a concrete input.
use painless_mesh_simulator.Prelude.{◌%◌, ◌≡◌, refl, inr, true, false, [], ◌∷◌, ◌++◌, some}
use painless_mesh_simulator.Result.{ok}
use painless_mesh_simulator.Node.{
  start, prepare, setup_firmware, route_callbacks_to_firmware, set_running, connect_to,
}
use painless_mesh_simulator.NodeManager.{
  NodeManager, start_all, start_nodes, start_if_stopped, establish_connectivity, connect_nodes,
  stop_all,
}
use painless_mesh_simulator.Program.Simulation.{
  Tick, start_simulation, simulate, turns, updates, IsStopped, simulation_ends,
}
use painless_mesh_simulator.Samples.{sample_platform, sample_devices, sample_node}

abbrev created : NodeManager
created = record { nodes = (5, sample_node 5 false) ∷ (9, sample_node 9 false) ∷ [] }

abbrev ready : NodeManager
ready = (start_simulation 200 (λ i. 3) created).1

starts : start_simulation 200 (λ i. 3) created ≡ (ok tt, ready)
unfolding start_simulation start_all start_nodes start_if_stopped start prepare setup_firmware
    route_callbacks_to_firmware set_running establish_connectivity connect_nodes connect_to
starts = refl

abbrev first_second : Tick
first_second = record { running = true; elapsed = 1 }

abbrev third_second : Tick
third_second = record { running = true; elapsed = 3 }

simulation_ends_example :
    let last = stop_all 900 (updates (turns (first_second ∷ []) third_second) ready) in
    (simulate 200 900 (λ i. 3) 3 ((first_second ∷ []) ++ third_second ∷ []) created
      ≡ some (ok (turns (first_second ∷ []) third_second % 4294967296, last)))
    × IsStopped last
simulation_ends_example =
    simulation_ends 200 900 3 (λ i. 3) (first_second ∷ []) [] third_second created ready starts
      ((refl, refl), tt) (inr refl)
