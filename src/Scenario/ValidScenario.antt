-- ===== src/Scenario/ValidScenario.antt =====
-- What a scenario must be like to be accepted.
use painless_mesh_simulator.Prelude.{
  ℕ, ◌≤◌, ◌≡◌, ◌≢◌, ◌⊎◌, true, false, String, List, [], ◌∷◌, some, All,
}
use painless_mesh_simulator.Platform.{Platform}
use painless_mesh_simulator.Network.Config.{LatencyConfig, is_valid_loss}
use painless_mesh_simulator.Scenario.{
  TopologyType, EventAction, NodeConfigExtended, TopologyConfig, EventConfig, ScenarioConfig,
}
use painless_mesh_simulator.Scenario.Validation.{node_ids, outside_unit}

-- The text is one of the list.
abbrev pub Listed : String → List String → Type 0
Listed s [] = ⊥
Listed s (x ∷ xs) = (x ≡ s) ⊎ Listed s xs

-- No text stands twice.
abbrev pub Distinct : List String → Type 0
Distinct [] = Unit
Distinct (x ∷ xs) = ¬ Listed x xs × Distinct xs

abbrev pub IsNamed : String → String → Type 0
IsNamed from to = (from ≢ "") × (to ≢ "")

abbrev pub IsLatency : LatencyConfig → Type 0
IsLatency c = c.min_ms ≤ c.max_ms

abbrev pub IsNode : NodeConfigExtended → Type 0
IsNode n = (n.id ≢ "") × (n.mesh_prefix ≢ "") × (n.mesh_password ≢ "") × (n.mesh_port ≢ 0)

module _ ⦃p : Platform⦄ where
  abbrev pub IsTopology : TopologyConfig → List String → Type 0
  IsTopology config ids = elim config.topology_type [
    | TopologyType.star ↦ (hub : String) × (config.hub ≡ some hub) × Listed hub ids
    | TopologyType.random ↦ outside_unit config.density ≡ false
    | TopologyType.custom ↦
        (config.connections ≢ []) × All (λ c. Listed c.0 ids × Listed c.1 ids) config.connections
    | _ ↦ Unit
  ]

  abbrev pub IsEvent : ℕ → List String → EventConfig → Type 0
  IsEvent duration ids e =
      ((duration ≡ 0) ⊎ (e.time ≤ duration))
      × ((e.target ≡ "") ⊎ Listed e.target ids)
      × (e.action ≡ EventAction.set_network_quality → outside_unit e.quality ≡ false)

  pub record IsValidScenario (config : ScenarioConfig) : Type 0 where
    pub name : config.simulation.name ≢ ""
    pub time_scale : p.float.le config.simulation.time_scale (p.float.of_ℕ 0) ≡ false
    pub default_latency : IsLatency config.network.default_latency
    pub latencies :
        All (λ c. IsNamed c.from c.to × IsLatency c.config) config.network.specific_latencies
    pub default_loss : is_valid_loss config.network.default_packet_loss ≡ true
    pub losses :
        All
          (λ c. IsNamed c.from c.to × (is_valid_loss c.config ≡ true))
          config.network.specific_packet_losses
    pub legacy_loss : outside_unit config.network.packet_loss ≡ false
    pub bandwidth : config.network.bandwidth ≢ 0
    pub some_node : config.nodes ≢ []
    pub nodes : All IsNode config.nodes
    pub distinct : Distinct (node_ids config.nodes)
    pub topology : IsTopology config.topology (node_ids config.nodes)
    pub events : All (IsEvent config.simulation.duration (node_ids config.nodes)) config.events
