-- ===== src/Scenario/Accepted.antt =====
-- Scenarios that the validation accepts, and the setters of the network simulator.
use painless_mesh_simulator.Prelude.{ℕ, ◌≡◌, refl, true, [], All, All-map, le→leb}
use painless_mesh_simulator.Result.{Result, ok, err, invalid_argument}
use painless_mesh_simulator.Platform.{Platform}
use painless_mesh_simulator.MinQueue.{MinQueue}
use painless_mesh_simulator.Network.Config.{
  LatencyConfig, PacketLossConfig, BandwidthConfig, is_valid_loss,
}
use painless_mesh_simulator.Network.State.{Network, DelayedMessage, delivery_key}
use painless_mesh_simulator.Network.Latency.{set_default_latency, set_latency}
use painless_mesh_simulator.Network.Loss.{set_default_packet_loss, set_packet_loss}
use painless_mesh_simulator.Network.Bandwidth.{set_default_bandwidth}
use painless_mesh_simulator.Scenario.{ScenarioConfig}
use painless_mesh_simulator.Scenario.Validation.{get_validation_errors, validate_network}
use painless_mesh_simulator.Scenario.ValidScenario.{IsLatency}
use painless_mesh_simulator.Scenario.NoErrors.{no_errors_iff_valid}

module _ ⦃p : Platform⦄ ⦃queues : MinQueue DelayedMessage delivery_key⦄ where
  -- The call returns.
  abbrev pub Returns : Result Network → Type 0
  Returns r = (net : Network) × (r ≡ ok net)

  latency-Returns :
      (c : LatencyConfig) (from to : ℕ) (net : Network)
      → IsLatency c
      → Returns (set_default_latency c net) × Returns (set_latency from to c net)
  unfolding set_default_latency set_latency
  latency-Returns c from to net h = rw (le→leb c.min_ms c.max_ms h) ((_, refl), (_, refl))

  loss-Returns :
      (c : PacketLossConfig) (from to : ℕ) (net : Network)
      → is_valid_loss c ≡ true
      → Returns (set_default_packet_loss c net) × Returns (set_packet_loss from to c net)
  unfolding set_default_packet_loss set_packet_loss
  loss-Returns c from to net h = rw h ((_, refl), (_, refl))

  -- The network simulator takes every latency and packet loss of a scenario that the validation
  -- accepts: the setters do not throw, for whatever nodes the texts of the connection stand for.
  pub accepted_settings_are_taken :
      (config : ScenarioConfig) (from to : ℕ) (net : Network)
      → get_validation_errors config ≡ []
      → Returns (set_default_latency config.network.default_latency net)
        × Returns (set_default_packet_loss config.network.default_packet_loss net)
        × All (λ c. Returns (set_latency from to c.config net)) config.network.specific_latencies
        × All
            (λ c. Returns (set_packet_loss from to c.config net))
            config.network.specific_packet_losses
  accepted_settings_are_taken config from to net h =
      let v = (no_errors_iff_valid config).0 h in
      (
        (latency-Returns config.network.default_latency from to net v.default_latency).0,
        (loss-Returns config.network.default_packet_loss from to net v.default_loss).0,
        All-map (λ c (_, l). (latency-Returns c.config from to net l).1) _ v.latencies,
        All-map (λ c (_, l). (loss-Returns c.config from to net l).1) _ v.losses,
      )

  -- The validation does not look at the bandwidth settings: with a default bandwidth whose bucket size
  -- is 0 it reports the same errors, none for a scenario that was valid, and the network simulator
  -- refuses that bandwidth.
  bandwidth_is_not_validated :
      (config : ScenarioConfig) (bandwidth : BandwidthConfig) (net : Network)
      → get_validation_errors config ≡ []
      → bandwidth.bucket_size ≡ 0
      → let network = record (config.network) { default_bandwidth = bandwidth } in
        (get_validation_errors (record config { network = network }) ≡ [])
        × (set_default_bandwidth bandwidth net
            ≡ err (invalid_argument "Invalid bandwidth configuration"))
  unfolding get_validation_errors validate_network set_default_bandwidth
  bandwidth_is_not_validated config bandwidth net h e = (h, rw e refl)
