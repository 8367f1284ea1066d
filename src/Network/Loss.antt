-- ===== src/Network/Loss.antt =====
-- Packet loss: its configuration by connection, and `shouldDropPacket` in random and burst mode.
pub mod Bursts
use painless_mesh_simulator.Prelude.{ℕ, Bool, true, false, not, ◌==◌, if◌then◌else◌, sub32}
use painless_mesh_simulator.Result.{Result, ok, err, invalid_argument, require, ◌>>=◌, ◌>>◌}
use painless_mesh_simulator.Platform.{Platform, FloatOps}
use painless_mesh_simulator.StdMap.{insert, find_or, pair_key}
use painless_mesh_simulator.MinQueue.{MinQueue}
use painless_mesh_simulator.Network.Config.{PacketLossConfig, is_valid_loss}
use painless_mesh_simulator.Network.State.{
  Network, DelayedMessage, delivery_key, ConnectionKey, BurstState, burst_default,
}

-- `burst.remaining--`, and the burst ends at 0.
unfoldable pub continue_burst : BurstState → BurstState
continue_burst burst =
    let left = sub32 burst.remaining 1 in record { in_burst = not (left == 0); remaining = left }

-- The packet that starts the burst is the first of `burst_length`.
unfoldable pub start_burst : ℕ → BurstState
start_burst burst_length = record { in_burst = true; remaining = sub32 burst_length 1 }

module _ ⦃p : Platform⦄ ⦃queues : MinQueue DelayedMessage delivery_key⦄ where
  unfoldable pub set_default_packet_loss : PacketLossConfig → Network → Result Network
  set_default_packet_loss config net = do
    require (is_valid_loss config) (invalid_argument "Invalid packet loss configuration")
    ok (record net { default_packet_loss = config })

  unfoldable pub set_packet_loss : ℕ → ℕ → PacketLossConfig → Network → Result Network
  set_packet_loss from to config net = do
    require (is_valid_loss config) (invalid_argument "Invalid packet loss configuration")
    ok (record net { packet_loss_map = insert (from, to) config net.packet_loss_map })

  unfoldable pub get_packet_loss : ℕ → ℕ → Network → PacketLossConfig
  get_packet_loss from to net = find_or net.default_packet_loss (from, to) net.packet_loss_map

  -- Random mode: one draw decides about one packet.
  unfoldable pub random_drop : PacketLossConfig → Network → Bool × Network
  random_drop config net =
      let (value, e) = p.uniform_real net.rng in
      (p.float.lt value config.probability, record net { rng = e })

  abbrev pub set_burst : ConnectionKey → BurstState → Network → Network
  set_burst key burst net = record net { burst_state_map = insert key burst net.burst_state_map }

  -- Burst mode: a draw decides only while no burst is running.
  unfoldable pub burst_drop : ConnectionKey → PacketLossConfig → Network → Bool × Network
  burst_drop key config net =
      let burst = find_or burst_default key net.burst_state_map in
      let (value, e) = p.uniform_real net.rng in
      if burst.in_burst
      then (true, set_burst key (continue_burst burst) net)
      else if p.float.lt value config.probability
      then (true, record (set_burst key (start_burst config.burst_length) net) { rng = e })
      else (false, record (set_burst key burst net) { rng = e })

  unfoldable pub should_drop_packet : ℕ → ℕ → Network → Bool × Network
  should_drop_packet from to net =
      let config = get_packet_loss from to net in
      if p.float.le config.probability (p.float.of_ℕ 0)
      then (false, net)
      else if p.float.le (p.float.of_ℕ 1) config.probability
      then (true, net)
      else if config.burst_mode
      then burst_drop (from, to) config net
      else random_drop config net
