-- ===== src/Network/State.antt =====
-- The state of a `NetworkSimulator`.
use painless_mesh_simulator.Prelude.{ℕ, Bool, String, [], false, uint32_max}
use painless_mesh_simulator.Platform.{Platform}
use painless_mesh_simulator.StdMap.{StdMap, StdSet, same, pair_key}
use painless_mesh_simulator.MinQueue.{MinQueue}
use painless_mesh_simulator.Network.Config.{
  DistributionType, LatencyConfig, PacketLossConfig, BandwidthConfig, loss_default,
  bandwidth_default,
}

-- from, to
abbrev pub ConnectionKey : Type 0
ConnectionKey = ℕ × ℕ

-- The two pairs of nodes are the same connection.
abbrev pub same_link : ℕ → ℕ → ℕ → ℕ → Bool
same_link a b from to = same {K = ConnectionKey} (a, b) (from, to)

pub record DelayedMessage : Type 0 where
  pub from : ℕ
  pub to : ℕ
  pub message : String
  pub delivery_time : ℕ

-- The order of the message queue, `operator>`.
abbrev pub delivery_key : DelayedMessage → ℕ
delivery_key m = m.delivery_time

pub record TokenBucket : Type 0 where
  pub bytes_tokens : ℕ
  pub messages_tokens : ℕ
  pub last_refill_time : ℕ
  pub bytes_consumed : ℕ
  pub messages_consumed : ℕ

pub record ConnectionStats : Type 0 where
  pub total_latency_ms : ℕ
  pub min_latency_ms : ℕ
  pub max_latency_ms : ℕ
  pub message_count : ℕ
  pub dropped_count : ℕ
  pub delivered_count : ℕ
  pub bytes_sent : ℕ
  pub bandwidth_throttled : ℕ

pub record BurstState : Type 0 where
  pub in_burst : Bool
  pub remaining : ℕ

-- What `operator[]` puts into a map at a missing key.
abbrev pub stats_default : ConnectionStats
stats_default = record {
  total_latency_ms = 0;
  min_latency_ms = uint32_max;
  max_latency_ms = 0;
  message_count = 0;
  dropped_count = 0;
  delivered_count = 0;
  bytes_sent = 0;
  bandwidth_throttled = 0;
}

abbrev pub bucket_default : TokenBucket
bucket_default = record {
  bytes_tokens = 0;
  messages_tokens = 0;
  last_refill_time = 0;
  bytes_consumed = 0;
  messages_consumed = 0;
}

abbrev pub burst_default : BurstState
burst_default = record { in_burst = false; remaining = 0 }

module _ ⦃p : Platform⦄ ⦃queues : MinQueue DelayedMessage delivery_key⦄ where
  pub record Network : Type 0 where
    pub default_latency : LatencyConfig
    pub latency_map : StdMap ConnectionKey LatencyConfig
    pub message_queue : queues.Queue
    pub default_packet_loss : PacketLossConfig
    pub packet_loss_map : StdMap ConnectionKey PacketLossConfig
    pub default_bandwidth : BandwidthConfig
    pub bandwidth_map : StdMap ConnectionKey BandwidthConfig
    pub bandwidth_buckets : StdMap ConnectionKey TokenBucket
    pub stats_map : StdMap ConnectionKey ConnectionStats
    pub burst_state_map : StdMap ConnectionKey BurstState
    pub dropped_connections : StdSet ConnectionKey
    pub rng : p.Engine

  -- NetworkSimulator(seed): `engine` is the engine that the seed gives.
  unfoldable pub network : p.Engine → Network
  network engine = record {
    default_latency = record { min_ms = 10; max_ms = 50; distribution = DistributionType.normal };
    latency_map = [];
    message_queue = queues.empty;
    default_packet_loss = loss_default;
    packet_loss_map = [];
    default_bandwidth = bandwidth_default;
    bandwidth_map = [];
    bandwidth_buckets = [];
    stats_map = [];
    burst_state_map = [];
    dropped_connections = [];
    rng = engine;
  }
