-- ===== src/Network/Bandwidth/Steps.antt =====
-- `canSendMessage` and `consumeBandwidth` as single steps on the bucket of their connection.
use painless_mesh_simulator.Prelude.{
  ℕ, ◌≡◌, true, false, Option, none, some, add64, Option-cases, inl, inr,
}
use painless_mesh_simulator.Platform.{Platform}
use painless_mesh_simulator.StdMap.{find, insert, find_or, pair_key}
use painless_mesh_simulator.StdMap.Laws.{find_or-insert_self, insert-insert}
use painless_mesh_simulator.MinQueue.{MinQueue}
use painless_mesh_simulator.Network.Config.{BandwidthConfig}
use painless_mesh_simulator.Network.State.{
  Network, DelayedMessage, delivery_key, TokenBucket, bucket_default, stats_default,
}
use painless_mesh_simulator.Network.Bandwidth.{
  is_unlimited, new_bucket, refill_bucket, has_tokens, spend_tokens, set_bucket, get_bandwidth,
  refill_token_bucket, can_send_message, consume_bandwidth,
}

-- The bucket that a refill leaves, whether there was one or not.
unfoldable pub touched : BandwidthConfig → ℕ → Option TokenBucket → TokenBucket
touched c now none = new_bucket c now
touched c now (some b) = refill_bucket c now b

module _ ⦃p : Platform⦄ ⦃queues : MinQueue DelayedMessage delivery_key⦄ (from to : ℕ) where
  refill_token_bucket-touched :
      (now : ℕ) (net : Network)
      → is_unlimited (get_bandwidth from to net) ≡ false
      → refill_token_bucket from to now net
        ≡ set_bucket
            (from, to)
            (touched (get_bandwidth from to net) now (find (from, to) net.bandwidth_buckets))
            net
  unfolding refill_token_bucket touched
  refill_token_bucket-touched now net limited =
      elim (Option-cases (find (from, to) net.bandwidth_buckets)) [
        | inl e ↦ rw (limited, e, touched)
        | inr (b, e) ↦ rw (limited, e, touched)
      ]

  pub can_send_message-touched :
      (size now : ℕ) (net : Network)
      → is_unlimited (get_bandwidth from to net) ≡ false
      → let c = get_bandwidth from to net in
        let b = touched c now (find (from, to) net.bandwidth_buckets) in
        can_send_message from to size now net ≡ (has_tokens c size b, set_bucket (from, to) b net)
  unfolding can_send_message
  can_send_message-touched size now net limited =
      let c = get_bandwidth from to net in
      let b = touched c now (find (from, to) net.bandwidth_buckets) in
      rw (
        limited,
        refill_token_bucket-touched now net limited,
        find_or-insert_self bucket_default (from, to) b net.bandwidth_buckets,
        insert-insert (from, to) b b net.bandwidth_buckets,
      )

  pub consume_bandwidth-limited :
      (size : ℕ) (net : Network)
      → is_unlimited (get_bandwidth from to net) ≡ false
      → let c = get_bandwidth from to net in
        let stats = find_or stats_default (from, to) net.stats_map in
        let b = find_or bucket_default (from, to) net.bandwidth_buckets in
        consume_bandwidth from to size net
        ≡ record (set_bucket (from, to) (spend_tokens c size b) net) {
          stats_map =
              insert
                (from, to)
                (record stats { bytes_sent = add64 stats.bytes_sent size })
                net.stats_map;
        }
  unfolding consume_bandwidth
  consume_bandwidth-limited size net limited = rw limited

  pub unlimited_steps :
      (size now : ℕ) (net : Network)
      → is_unlimited (get_bandwidth from to net) ≡ true
      → (can_send_message from to size now net ≡ (true, net))
        × (consume_bandwidth from to size net ≡ net)
  unfolding can_send_message consume_bandwidth
  unlimited_steps size now net free = (rw free, rw free)
