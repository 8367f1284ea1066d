-- ===== src/Network/Stats.antt =====
-- Statistics by connection: what is recorded, and the report that `getStats` makes of it.
pub mod Report
use painless_mesh_simulator.Prelude.{
  ℕ, ◌/◌, Bool, ◌&&◌, Option, none, some, [], min, max, ltb, if◌then◌else◌, add64, mul64, cast32,
}
use painless_mesh_simulator.Platform.{Platform, FloatOps}
use painless_mesh_simulator.StdMap.{find, insert, find_or, pair_key}
use painless_mesh_simulator.MinQueue.{MinQueue}
use painless_mesh_simulator.Network.Config.{BandwidthConfig}
use painless_mesh_simulator.Network.State.{
  Network, DelayedMessage, delivery_key, ConnectionKey, TokenBucket, ConnectionStats, stats_default,
}
use painless_mesh_simulator.Network.Bandwidth.{get_bandwidth}

-- The bodies of `recordStats`, `recordPacketStats` and of the throttling branch, on one entry.
unfoldable pub with_latency : ℕ → ConnectionStats → ConnectionStats
with_latency latency_ms s = record s {
  total_latency_ms = add64 s.total_latency_ms latency_ms;
  message_count = add64 s.message_count 1;
  min_latency_ms = min s.min_latency_ms latency_ms;
  max_latency_ms = max s.max_latency_ms latency_ms;
}

unfoldable pub with_packet : Bool → ConnectionStats → ConnectionStats
with_packet dropped s =
    if dropped
    then record s { dropped_count = add64 s.dropped_count 1 }
    else record s { delivered_count = add64 s.delivered_count 1 }

unfoldable pub with_throttled : ConnectionStats → ConnectionStats
with_throttled s = record s { bandwidth_throttled = add64 s.bandwidth_throttled 1 }

unfoldable pub average_latency : ConnectionStats → ℕ
average_latency s =
    if ltb 0 s.message_count then cast32 (s.total_latency_ms / s.message_count) else 0

module _ ⦃p : Platform⦄ where
  pub record LatencyStats : Type 0 where
    pub min_latency_ms : ℕ
    pub max_latency_ms : ℕ
    pub avg_latency_ms : ℕ
    pub message_count : ℕ
    pub dropped_count : ℕ
    pub delivered_count : ℕ
    pub drop_rate : p.Float
    pub bytes_sent : ℕ
    pub bandwidth_throttled : ℕ
    pub bandwidth_utilization : p.Float

  unfoldable pub latency_stats_default : LatencyStats
  latency_stats_default = record {
    min_latency_ms = 0;
    max_latency_ms = 0;
    avg_latency_ms = 0;
    message_count = 0;
    dropped_count = 0;
    delivered_count = 0;
    drop_rate = p.float.of_ℕ 0;
    bytes_sent = 0;
    bandwidth_throttled = 0;
    bandwidth_utilization = p.float.of_ℕ 0;
  }

  unfoldable pub packet_drop_rate : ConnectionStats → p.Float
  packet_drop_rate s =
      let total_attempts = add64 s.dropped_count s.delivered_count in
      if ltb 0 total_attempts
      then p.float.div (p.float.of_ℕ s.dropped_count) (p.float.of_ℕ total_attempts)
      else p.float.of_ℕ 0

  -- std::min(a, b) of `float`
  abbrev min_float : p.Float → p.Float → p.Float
  min_float a b = if p.float.lt b a then b else a

  -- The bytes consumed against those that the limit allows up to the last refill.
  unfoldable pub bucket_utilization : BandwidthConfig → TokenBucket → p.Float
  bucket_utilization config bucket =
      let max_bytes = mul64 config.max_bytes_per_sec bucket.last_refill_time / 1000 in
      if ltb 0 bucket.last_refill_time && ltb 0 max_bytes
      then min_float (p.float.of_ℕ 1)
          (p.float.div (p.float.of_ℕ bucket.bytes_consumed) (p.float.of_ℕ max_bytes))
      else p.float.of_ℕ 0

  unfoldable pub utilization : BandwidthConfig → ConnectionStats → Option TokenBucket → p.Float
  utilization config s none = p.float.of_ℕ 0
  utilization config s (some bucket) =
      if ltb 0 config.max_bytes_per_sec && ltb 0 s.message_count
      then bucket_utilization config bucket
      else p.float.of_ℕ 0

module _ ⦃p : Platform⦄ ⦃queues : MinQueue DelayedMessage delivery_key⦄ where
  abbrev pub set_stats : ConnectionKey → ConnectionStats → Network → Network
  set_stats key s net = record net { stats_map = insert key s net.stats_map }

  abbrev pub stats_of : ConnectionKey → Network → ConnectionStats
  stats_of key net = find_or stats_default key net.stats_map

  unfoldable pub record_stats : ℕ → ℕ → ℕ → Network → Network
  record_stats from to latency_ms net =
      set_stats (from, to) (with_latency latency_ms (stats_of (from, to) net)) net

  unfoldable pub record_packet_stats : ℕ → ℕ → Bool → Network → Network
  record_packet_stats from to dropped net =
      set_stats (from, to) (with_packet dropped (stats_of (from, to) net)) net

  unfoldable pub record_throttled : ℕ → ℕ → Network → Network
  record_throttled from to net = set_stats (from, to) (with_throttled (stats_of (from, to) net)) net

  unfoldable pub get_stats : ℕ → ℕ → Network → LatencyStats
  get_stats from to net = elim (find (from, to) net.stats_map) [
    | none ↦ latency_stats_default
    | some s ↦ record {
      min_latency_ms = s.min_latency_ms;
      max_latency_ms = s.max_latency_ms;
      avg_latency_ms = average_latency s;
      message_count = s.message_count;
      dropped_count = s.dropped_count;
      delivered_count = s.delivered_count;
      drop_rate = packet_drop_rate s;
      bytes_sent = s.bytes_sent;
      bandwidth_throttled = s.bandwidth_throttled;
      bandwidth_utilization =
          utilization (get_bandwidth from to net) s (find (from, to) net.bandwidth_buckets);
    }
  ]

  unfoldable reset_stats : Network → Network
  reset_stats net = record net { stats_map = [] }
