-- ===== src/Scenario/NoErrors.antt =====
-- The validation reports exactly the scenarios that are not as they must be.
use painless_mesh_simulator.Prelude.{
  ℕ, ◌≡◌, ◌≢◌, refl, inl, inr, true, false, not, ◌&&◌, String, List, [], All, arith, ◌==◌,
  Bool-cases, ◌↔◌,
}
use painless_mesh_simulator.Platform.{Platform}
use painless_mesh_simulator.Network.Config.{is_valid_loss}
use painless_mesh_simulator.Scenario.{
  TopologyType, EventAction, ConnectionPacketLossConfig, NetworkConfig, SimulationConfig,
  TopologyConfig, EventConfig, ScenarioConfig,
}
use painless_mesh_simulator.Scenario.Validation.{
  empty, node_ids, validate_latency_at, validate_node, validate_connection, outside_unit,
  validate_simulation, validate_loss_at, validate_network, validate_topology, sets_quality,
  validate_event, get_validation_errors,
}
use painless_mesh_simulator.Scenario.ValidScenario.{
  IsNamed, IsLatency, IsTopology, IsEvent, IsValidScenario,
}
use painless_mesh_simulator.Scenario.Checks.{
  append-both, append-three, append-four, report-test, for_each-All, for_each_at-All, empty-lem,
  zero-lem, not-lem, validate_ends-IsNamed, is_valid_latency-IsLatency, validate_latency_at-lem,
  validate_node-IsNode, duplicate_ids-Distinct, validate_connection-Listed, validate_hub-lem,
  no_elements-lem, same_test, late-lem, target-lem,
}

module _ ⦃p : Platform⦄ where
  validate_simulation-lem :
      (config : SimulationConfig)
      → (validate_simulation config ≡ [])
        ↔ ((config.name ≢ "") × (p.float.le config.time_scale (p.float.of_ℕ 0) ≡ false))
  unfolding validate_simulation
  validate_simulation-lem config =
      append-both _ _ (report-test (empty config.name) _ _ _ (empty-lem config.name))
        (report-test _ _ _ _ (same_test _))

  validate_loss_at-lem :
      (i : ℕ) (c : ConnectionPacketLossConfig)
      → (validate_loss_at i c ≡ []) ↔ (IsNamed c.from c.to × (is_valid_loss c.config ≡ true))
  unfolding validate_loss_at
  validate_loss_at-lem i c =
      append-both _ _ (validate_ends-IsNamed "packet_loss" i c.from c.to)
        (report-test (not (is_valid_loss c.config)) _ _ _ (not-lem _))

  abbrev IsNetwork : NetworkConfig → Type 0
  IsNetwork config =
      ((IsLatency config.default_latency
          × All (λ c. IsNamed c.from c.to × IsLatency c.config) config.specific_latencies
          × (is_valid_loss config.default_packet_loss ≡ true)
          × All (λ c. IsNamed c.from c.to × (is_valid_loss c.config ≡ true))
              config.specific_packet_losses)
        × (outside_unit config.packet_loss ≡ false))
      × (config.bandwidth ≢ 0)

  validate_network-IsNetwork :
      (config : NetworkConfig) → (validate_network config ≡ []) ↔ IsNetwork config
  unfolding validate_network
  validate_network-IsNetwork config =
      append-both _ _
        (append-both _ _
          (append-four _ _ _ _
            (report-test _ _ _ _ (is_valid_latency-IsLatency config.default_latency))
            (for_each_at-All validate_latency_at 0 config.specific_latencies
              validate_latency_at-lem)
            (report-test _ _ _ _ (not-lem _))
            (for_each_at-All validate_loss_at 0 config.specific_packet_losses validate_loss_at-lem))
          (report-test _ _ _ _ (same_test _)))
        (report-test (config.bandwidth == 0) _ _ _ (zero-lem config.bandwidth))

  quality_action : (a : EventAction) → sets_quality a ≡ true → a ≡ EventAction.set_network_quality
  quality_action a h = ground arith

  quality-lem :
      (action : EventAction) (quality : p.Float)
      → ((sets_quality action && outside_unit quality) ≡ false)
        ↔ (action ≡ EventAction.set_network_quality → outside_unit quality ≡ false)
  quality-lem action quality = (
    (λ h e. ground (arith, h, e)),
    λ f. elim (Bool-cases (sets_quality action)) [
      | inl t ↦ ground (arith, f (quality_action action t))
      | inr t ↦ ground (arith, t)
    ],
  )

  validate_event-IsEvent :
      (duration : ℕ) (ids : List String) (e : EventConfig)
      → (validate_event duration ids e ≡ []) ↔ IsEvent duration ids e
  unfolding validate_event
  validate_event-IsEvent duration ids e =
      append-three _ _ _ (report-test _ _ _ _ (late-lem duration e.time))
        (report-test _ _ _ _ (target-lem e.target ids))
        (report-test _ _ _ _ (quality-lem e.action e.quality))

  validate_topology-IsTopology :
      (config : TopologyConfig) (ids : List String)
      → (validate_topology config ids ≡ []) ↔ IsTopology config ids
  unfolding validate_topology
  validate_topology-IsTopology config ids = go config.topology_type refl
    where
      go :
          (t : TopologyType)
          → config.topology_type ≡ t
          → (validate_topology config ids ≡ []) ↔ IsTopology config ids
      go TopologyType.random e = rw (e, validate_topology) (report-test _ _ _ _ (same_test _))
      go TopologyType.star e = rw (e, validate_topology) (validate_hub-lem config.hub ids)
      go TopologyType.ring e = rw (e, validate_topology) ((λ h. tt), λ h. refl)
      go TopologyType.mesh e = rw (e, validate_topology) ((λ h. tt), λ h. refl)
      go TopologyType.custom e =
          rw (e, validate_topology)
            (append-both _ _ (report-test _ _ _ _ (no_elements-lem config.connections)) (
              for_each-All (validate_connection ids) config.connections
                (validate_connection-Listed ids)))

  -- `getValidationErrors` reports no error for a scenario if and only if the scenario is as it must be:
  -- named; with a time scale that is not 0 or below; each latency range in order, each packet loss one
  -- that `isValid` accepts, between named ends; a legacy packet loss between 0 and 1 and a bandwidth
  -- other than 0; at least one node, each node with an identifier that no other has, a mesh prefix, a
  -- password and a port; a hub, a density or connections that fit the kind of topology and name nodes
  -- that exist; and each event within the duration, on a node that exists if it names one, with a
  -- network quality between 0 and 1 if it sets one.
  pub no_errors_iff_valid :
      (config : ScenarioConfig) → (get_validation_errors config ≡ []) ↔ IsValidScenario config
  unfolding get_validation_errors
  no_errors_iff_valid config =
      let ids = node_ids config.nodes in
      let (to, from) =
        append-both _ _
          (append-three _ _ _
            (append-four _ _ _ _ (validate_simulation-lem config.simulation)
              (validate_network-IsNetwork config.network)
              (for_each-All validate_node config.nodes validate_node-IsNode)
              (duplicate_ids-Distinct ids))
            (report-test _ _ _ _ (no_elements-lem config.nodes))
            (validate_topology-IsTopology config.topology ids))
          (for_each-All (validate_event config.simulation.duration ids) config.events
            (validate_event-IsEvent config.simulation.duration ids)) in
      (
        (λ h.
            let (
              (
                (sim, (((lat, lats, loss, losses), legacy), band), nodes, distinct),
                some_node,
                topology,
              ),
              events,
            ) =
              to h in
            record {
              name = sim.0;
              time_scale = sim.1;
              default_latency = lat;
              latencies = lats;
              default_loss = loss;
              losses = losses;
              legacy_loss = legacy;
              bandwidth = band;
              some_node = some_node;
              nodes = nodes;
              distinct = distinct;
              topology = topology;
              events = events;
            }),
        λ v. from (
          (
            (
              (v.name, v.time_scale),
              (
                ((v.default_latency, v.latencies, v.default_loss, v.losses), v.legacy_loss),
                v.bandwidth,
              ),
              v.nodes,
              v.distinct,
            ),
            v.some_node,
            v.topology,
          ),
          v.events,
        ),
      )
