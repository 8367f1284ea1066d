-- ===== src/Network/Bandwidth.antt =====
-- Bandwidth: its configuration by connection, and the token buckets that enforce it.
pub mod Starvation
pub mod Buckets
pub mod Steps
use painless_mesh_simulator.Prelude.{
  ℕ, ◌-◌, ◌/◌, Bool, true, ◌&&◌, ◌||◌, Option, none, some, min, ◌==◌, ltb, leb, if◌then◌else◌,
  add64, sub64, mul64, cast32,
}
use painless_mesh_simulator.Result.{Result, ok, err, invalid_argument, require, ◌>>=◌, ◌>>◌}
use painless_mesh_simulator.Platform.{Platform}
use painless_mesh_simulator.StdMap.{find, insert, find_or, pair_key}
use painless_mesh_simulator.MinQueue.{MinQueue}
use painless_mesh_simulator.Network.Config.{BandwidthConfig, is_valid_bandwidth}
use painless_mesh_simulator.Network.State.{
  Network, DelayedMessage, delivery_key, ConnectionKey, TokenBucket, bucket_default,
  ConnectionStats, stats_default,
}

-- No limit is set.
abbrev pub is_unlimited : BandwidthConfig → Bool
is_unlimited c = c.max_bytes_per_sec == 0 && c.max_messages_per_sec == 0

-- A bucket that is used for the first time is full.
unfoldable pub new_bucket : BandwidthConfig → ℕ → TokenBucket
new_bucket config now = record {
  bytes_tokens = config.bucket_size;
  messages_tokens = config.bucket_size;
  last_refill_time = now;
  bytes_consumed = 0;
  messages_consumed = 0;
}

-- The tokens after a refill at `rate` tokens a second; a rate of 0 adds none.
unfoldable pub refilled : ℕ → ℕ → ℕ → ℕ → ℕ
refilled rate size elapsed tokens =
    if ltb 0 rate then cast32 (min (add64 tokens (mul64 rate elapsed / 1000)) size) else tokens

unfoldable pub refill_bucket : BandwidthConfig → ℕ → TokenBucket → TokenBucket
unfolding refilled
refill_bucket config now bucket =
    let elapsed = sub64 now bucket.last_refill_time in
    if elapsed == 0 then bucket else record bucket {
      bytes_tokens =
          refilled config.max_bytes_per_sec config.bucket_size elapsed bucket.bytes_tokens;
      messages_tokens =
          refilled config.max_messages_per_sec config.bucket_size elapsed bucket.messages_tokens;
      last_refill_time = now;
    }

unfoldable pub has_tokens : BandwidthConfig → ℕ → TokenBucket → Bool
has_tokens config message_size bucket =
    (config.max_bytes_per_sec == 0 || leb message_size bucket.bytes_tokens)
    && (config.max_messages_per_sec == 0 || leb 1 bucket.messages_tokens)

-- `t >= n ? t - n : 0`, where a limit is set.
abbrev spent : ℕ → ℕ → ℕ → ℕ
spent limit n tokens = if ltb 0 limit then (if leb n tokens then tokens - n else 0) else tokens

abbrev pub counted : ℕ → ℕ → ℕ → ℕ
counted limit n total = if ltb 0 limit then add64 total n else total

unfoldable pub spend_tokens : BandwidthConfig → ℕ → TokenBucket → TokenBucket
spend_tokens config message_size bucket = record bucket {
  bytes_tokens = spent config.max_bytes_per_sec message_size bucket.bytes_tokens;
  messages_tokens = spent config.max_messages_per_sec 1 bucket.messages_tokens;
  bytes_consumed = counted config.max_bytes_per_sec message_size bucket.bytes_consumed;
  messages_consumed = counted config.max_messages_per_sec 1 bucket.messages_consumed;
}

module _ ⦃p : Platform⦄ ⦃queues : MinQueue DelayedMessage delivery_key⦄ where
  unfoldable pub set_default_bandwidth : BandwidthConfig → Network → Result Network
  set_default_bandwidth config net = do
    require (is_valid_bandwidth config) (invalid_argument "Invalid bandwidth configuration")
    ok (record net { default_bandwidth = config })

  unfoldable pub set_bandwidth : ℕ → ℕ → BandwidthConfig → Network → Result Network
  set_bandwidth from to config net = do
    require (is_valid_bandwidth config) (invalid_argument "Invalid bandwidth configuration")
    ok (record net { bandwidth_map = insert (from, to) config net.bandwidth_map })

  unfoldable pub get_bandwidth : ℕ → ℕ → Network → BandwidthConfig
  get_bandwidth from to net = find_or net.default_bandwidth (from, to) net.bandwidth_map

  abbrev pub set_bucket : ConnectionKey → TokenBucket → Network → Network
  set_bucket key bucket net = record net {
    bandwidth_buckets = insert key bucket net.bandwidth_buckets;
  }

  unfoldable pub refill_token_bucket : ℕ → ℕ → ℕ → Network → Network
  refill_token_bucket from to now net =
      let config = get_bandwidth from to net in
      if is_unlimited config then net else elim (find (from, to) net.bandwidth_buckets) [
        | none ↦ set_bucket (from, to) (new_bucket config now) net
        | some bucket ↦ set_bucket (from, to) (refill_bucket config now bucket) net
      ]

  unfoldable pub can_send_message : ℕ → ℕ → ℕ → ℕ → Network → Bool × Network
  can_send_message from to message_size now net =
      let config = get_bandwidth from to net in
      let net' = refill_token_bucket from to now net in
      let bucket = find_or bucket_default (from, to) net'.bandwidth_buckets in
      if is_unlimited config
      then (true, net)
      else (has_tokens config message_size bucket, set_bucket (from, to) bucket net')

  unfoldable pub consume_bandwidth : ℕ → ℕ → ℕ → Network → Network
  consume_bandwidth from to message_size net =
      let config = get_bandwidth from to net in
      let bucket = find_or bucket_default (from, to) net.bandwidth_buckets in
      let stats = find_or stats_default (from, to) net.stats_map in
      if is_unlimited config
      then net
      else record (set_bucket (from, to) (spend_tokens config message_size bucket) net) {
        stats_map =
            insert (from, to) (record stats { bytes_sent = add64 stats.bytes_sent message_size })
              net.stats_map;
      }
