-- ===== src/Network/Settings.antt =====
-- The settings by connection: what is set is read back, on that connection alone.
use painless_mesh_simulator.Prelude.{ℕ, ◌≡◌, refl, Bool, true, false, if◌then◌else◌}
use painless_mesh_simulator.Result.{Result, ok, err, Exception, invalid_argument}
use painless_mesh_simulator.Platform.{Platform}
use painless_mesh_simulator.StdMap.{pair_key}
use painless_mesh_simulator.StdMap.Laws.{find_or-insert}
use painless_mesh_simulator.MinQueue.{MinQueue}
use painless_mesh_simulator.Network.Config.{
  LatencyConfig, is_valid_latency, PacketLossConfig, is_valid_loss, BandwidthConfig,
  is_valid_bandwidth,
}
use painless_mesh_simulator.Network.State.{Network, DelayedMessage, delivery_key, same_link}
use painless_mesh_simulator.Network.Latency.{set_latency, get_latency}
use painless_mesh_simulator.Network.Loss.{set_packet_loss, get_packet_loss}
use painless_mesh_simulator.Network.Bandwidth.{set_bandwidth, get_bandwidth}

-- What the caller of a setter finds: `get` reads `config` back at the connection set, and elsewhere
-- what it read before; or the configuration is refused.
abbrev pub Stored :
    {C N : Type 0} → Bool → C → (N → ℕ → ℕ → C) → ℕ → ℕ → N → Exception → Result N → Type 0
Stored valid config get from to net e (ok net') =
    (valid ≡ true)
    × ((a b : ℕ) → get net' a b ≡ (if same_link a b from to then config else get net a b))
Stored valid config get from to net e (err e') = (valid ≡ false) × (e' ≡ e)

module _ ⦃p : Platform⦄ ⦃queues : MinQueue DelayedMessage delivery_key⦄ (from to : ℕ) where
  set_latency-Stored :
      (valid : Bool) (config : LatencyConfig) (net : Network)
      → is_valid_latency config ≡ valid
      → Stored valid config
          (λ net a b. get_latency a b net)
          from
          to
          net
          (invalid_argument "Invalid latency configuration: min > max")
          (set_latency from to config net)
  unfolding set_latency get_latency
  set_latency-Stored true config net v =
      rw v
        (refl, λ a b. find_or-insert net.default_latency (a, b) (from, to) config net.latency_map)
  set_latency-Stored false config net v = rw v (refl, refl)

  set_packet_loss-Stored :
      (valid : Bool) (config : PacketLossConfig) (net : Network)
      → is_valid_loss config ≡ valid
      → Stored valid config
          (λ net a b. get_packet_loss a b net)
          from
          to
          net
          (invalid_argument "Invalid packet loss configuration")
          (set_packet_loss from to config net)
  unfolding set_packet_loss get_packet_loss
  set_packet_loss-Stored true config net v = rw v (
    refl,
    λ a b. find_or-insert net.default_packet_loss (a, b) (from, to) config net.packet_loss_map,
  )
  set_packet_loss-Stored false config net v = rw v (refl, refl)

  set_bandwidth-Stored :
      (valid : Bool) (config : BandwidthConfig) (net : Network)
      → is_valid_bandwidth config ≡ valid
      → Stored valid config
          (λ net a b. get_bandwidth a b net)
          from
          to
          net
          (invalid_argument "Invalid bandwidth configuration")
          (set_bandwidth from to config net)
  unfolding set_bandwidth get_bandwidth
  set_bandwidth-Stored true config net v =
      rw v (
        refl,
        λ a b. find_or-insert net.default_bandwidth (a, b) (from, to) config net.bandwidth_map,
      )
  set_bandwidth-Stored false config net v = rw v (refl, refl)

  -- The setters of latency, packet loss and bandwidth of a connection. A configuration that its
  -- `isValid` accepts is stored: the getter reads it back at this connection, and at every other
  -- connection what it read before. One that `isValid` rejects is refused with `invalid_argument`.
  pub settings_read_back :
      (latency : LatencyConfig) (loss : PacketLossConfig) (bandwidth : BandwidthConfig)
      (net : Network)
      → Stored
          (is_valid_latency latency)
          latency
          (λ net a b. get_latency a b net)
          from
          to
          net
          (invalid_argument "Invalid latency configuration: min > max")
          (set_latency from to latency net)
        × Stored
            (is_valid_loss loss)
            loss
            (λ net a b. get_packet_loss a b net)
            from
            to
            net
            (invalid_argument "Invalid packet loss configuration")
            (set_packet_loss from to loss net)
        × Stored
            (is_valid_bandwidth bandwidth)
            bandwidth
            (λ net a b. get_bandwidth a b net)
            from
            to
            net
            (invalid_argument "Invalid bandwidth configuration")
            (set_bandwidth from to bandwidth net)
  settings_read_back latency loss bandwidth net = (
    set_latency-Stored _ latency net refl,
    set_packet_loss-Stored _ loss net refl,
    set_bandwidth-Stored _ bandwidth net refl,
  )
