-- ===== src/Network/Messages/Pace.antt =====
-- The bandwidth limit of one connection over a series of `enqueueMessage` calls on any connections.
use Prim.Native.String.{len}
use painless_mesh_simulator.Prelude.{
  ℕ, ◌≤◌, ◌<◌, ◌^◌, ◌≡◌, refl, Bool, true, false, Option, none, some, String, arith, Bool-cases,
  inl, inr, ap,
}
use painless_mesh_simulator.Platform.{Platform}
use painless_mesh_simulator.StdMap.{find, same, pair_key}
use painless_mesh_simulator.StdMap.Laws.{
  find-insert_self, find-insert_ne, find_or-insert, find_or-insert_self, find_or-insert_ne,
  eq_of_same, find_or_of_find,
}
use painless_mesh_simulator.MinQueue.{MinQueue}
use painless_mesh_simulator.Network.Config.{BandwidthConfig}
use painless_mesh_simulator.Network.State.{
  Network, DelayedMessage, delivery_key, ConnectionKey, TokenBucket, ConnectionStats, stats_default,
  bucket_default,
}
use painless_mesh_simulator.Network.Latency.{get_latency, calculate_latency}
use painless_mesh_simulator.Network.Loss.{should_drop_packet}
use painless_mesh_simulator.Network.Bandwidth.{
  is_unlimited, get_bandwidth, can_send_message, consume_bandwidth, has_tokens, spend_tokens,
}
use painless_mesh_simulator.Network.Bandwidth.Buckets.{
  IsWord32, Fits, new_bucket-Fits, refill_bucket-Fits, spend_tokens-Fits,
}
use painless_mesh_simulator.Network.Bandwidth.Steps.{
  touched, can_send_message-touched, consume_bandwidth-limited, unlimited_steps,
}
use painless_mesh_simulator.Network.Stats.{
  set_stats, stats_of, record_packet_stats, record_throttled, record_stats, with_packet,
  with_throttled, with_latency,
}
use painless_mesh_simulator.Network.Messages.{accept_message}
use painless_mesh_simulator.Network.Messages.Cases.{should_drop_packet-Redrawn}

Fits-later :
    (c : BandwidthConfig) (start before now : ℕ) (o : Option TokenBucket) (bytes : ℕ)
    → before ≤ now
    → Fits c start before o bytes
    → Fits c start now o bytes
Fits-later c start before now none bytes h f = f
Fits-later c start before now (some b) bytes h f = omega arith

touched-Fits :
    (c : BandwidthConfig) (start before now : ℕ) (o : Option TokenBucket) (bytes : ℕ)
    → IsWord32 c
    → start ≤ before
    → before ≤ now
    → now < 2 ^ 32
    → Fits c start before o bytes
    → Fits c start now (some (touched c now o)) bytes
unfolding touched
touched-Fits c start before now none bytes word s h w f =
    new_bucket-Fits c start now bytes (omega arith) f
touched-Fits c start before now (some b) bytes word s h w f =
    refill_bucket-Fits c word start before now bytes b h w f

module _ ⦃p : Platform⦄ ⦃queues : MinQueue DelayedMessage delivery_key⦄ (from to : ℕ)
    (c : BandwidthConfig) (start : ℕ) where
  -- The state of the connection's limit at the time `now`.
  pub record Paced (now : ℕ) (net : Network) : Type 0 where
    pub configured : get_bandwidth from to net ≡ c
    pub fits :
        Fits c start now
          (find (from, to) net.bandwidth_buckets)
          (stats_of (from, to) net).bytes_sent

  pub Paced-later :
      (before now : ℕ) (net : Network) → before ≤ now → Paced before net → Paced now net
  Paced-later before now net h d = record {
    configured = d.configured;
    fits = Fits-later c start before now _ _ h d.fits;
  }

  -- Statistics that leave the bytes of their connection as they are.
  bytes-set_stats :
      (key : ConnectionKey) (s : ConnectionStats) (net : Network)
      → s.bytes_sent ≡ (stats_of key net).bytes_sent
      → (stats_of (from, to) (set_stats key s net)).bytes_sent
        ≡ (stats_of (from, to) net).bytes_sent
  bytes-set_stats key s net e = elim (Bool-cases (same (from, to) key)) [
    | inl t ↦
        rw (find_or-insert stats_default (from, to) key s net.stats_map, t)
          (rw (eq_of_same (from, to) key t) e)
    | inr t ↦
        ap (λ (s : ConnectionStats). s.bytes_sent)
          (find_or-insert_ne stats_default (from, to) key s net.stats_map t)
  ]

  Paced-set_stats :
      (now : ℕ) (key : ConnectionKey) (s : ConnectionStats) (net : Network)
      → s.bytes_sent ≡ (stats_of key net).bytes_sent
      → Paced now net
      → Paced now (set_stats key s net)
  unfolding get_bandwidth
  Paced-set_stats now key s net e d = record {
    configured = d.configured;
    fits = rw (bytes-set_stats key s net e) d.fits;
  }

  pub Paced-record_packet_stats :
      (now a b : ℕ) (dropped : Bool) (net : Network)
      → Paced now net
      → Paced now (record_packet_stats a b dropped net)
  unfolding record_packet_stats with_packet
  Paced-record_packet_stats now a b true net d = Paced-set_stats now (a, b) _ net refl d
  Paced-record_packet_stats now a b false net d = Paced-set_stats now (a, b) _ net refl d

  pub Paced-record_throttled :
      (now a b : ℕ) (net : Network) → Paced now net → Paced now (record_throttled a b net)
  unfolding record_throttled with_throttled
  Paced-record_throttled now a b net d = Paced-set_stats now (a, b) _ net refl d

  Paced-record_stats :
      (now a b latency : ℕ) (net : Network)
      → Paced now net
      → Paced now (record_stats a b latency net)
  unfolding record_stats with_latency
  Paced-record_stats now a b latency net d = Paced-set_stats now (a, b) _ net refl d

  pub Paced-should_drop_packet :
      (now a b : ℕ) (net : Network) → Paced now net → Paced now (should_drop_packet a b net).1
  unfolding get_bandwidth
  Paced-should_drop_packet now a b net d =
      rw (should_drop_packet-Redrawn a b net) (record { configured = d.configured; fits = d.fits })

  -- Steps on another connection.
  module _ (a b : ℕ) (other : same {K = ConnectionKey} (from, to) (a, b) ≡ false) where
    pub Paced-can_send_message :
        (size t now : ℕ) (net : Network)
        → Paced now net
        → Paced now (can_send_message a b size t net).1
    unfolding get_bandwidth
    Paced-can_send_message size t now net d =
        elim (Bool-cases (is_unlimited (get_bandwidth a b net))) [
          | inl free ↦ rw ((unlimited_steps a b size t net free).0) d
          | inr limited ↦ rw (can_send_message-touched a b size t net limited) (record {
            configured = d.configured;
            fits = rw (find-insert_ne (from, to) (a, b) _ net.bandwidth_buckets other) d.fits;
          })
        ]

    pub Paced-consume_bandwidth :
        (size now : ℕ) (net : Network) → Paced now net → Paced now (consume_bandwidth a b size net)
    unfolding get_bandwidth
    Paced-consume_bandwidth size now net d =
        elim (Bool-cases (is_unlimited (get_bandwidth a b net))) [
          | inl free ↦ rw ((unlimited_steps a b size now net free).1) d
          | inr limited ↦ rw (consume_bandwidth-limited a b size net limited) (record {
            configured = d.configured;
            fits =
                rw
                  (
                    find-insert_ne (from, to) (a, b) _ net.bandwidth_buckets other,
                    find_or-insert_ne stats_default (from, to) (a, b) _ net.stats_map other,
                  )
                  d.fits;
          })
        ]

  -- Steps on the connection itself.
  module _ (word : IsWord32 c) (limit : 0 < c.max_bytes_per_sec) where
    is_limited :
        (net : Network) (now : ℕ) → Paced now net → is_unlimited (get_bandwidth from to net) ≡ false
    is_limited net now d = rw d.configured (ground arith)

    pub refreshed : ℕ → Network → TokenBucket
    refreshed now net = touched c now (find (from, to) net.bandwidth_buckets)

    pub own_can_send_message :
        (size before now : ℕ) (net : Network)
        → start ≤ before
        → before ≤ now
        → now < 2 ^ 32
        → Paced before net
        → let (sendable, net') = can_send_message from to size now net in
          Paced now net'
          × (find (from, to) net'.bandwidth_buckets ≡ some (refreshed now net))
          × (sendable ≡ has_tokens c size (refreshed now net))
    unfolding get_bandwidth refreshed
    own_can_send_message size before now net s h w d =
        rw (can_send_message-touched from to size now net (is_limited net before d)) (
          rw (d.configured) (
            record {
              configured = d.configured;
              fits =
                  rw (find-insert_self (from, to) (refreshed now net) net.bandwidth_buckets)
                    (touched-Fits c start before now _ _ word s h w d.fits);
            },
            find-insert_self (from, to) (refreshed now net) net.bandwidth_buckets,
            refl,
          ))

    pub own_consume_bandwidth :
        (size now : ℕ) (net : Network) (bucket : TokenBucket)
        → now < 2 ^ 32
        → Paced now net
        → find (from, to) net.bandwidth_buckets ≡ some bucket
        → has_tokens c size bucket ≡ true
        → Paced now (consume_bandwidth from to size net)
    unfolding get_bandwidth
    own_consume_bandwidth size now net bucket w d e t =
        let bytes = (stats_of (from, to) net).bytes_sent in
        let before : Fits c start now (some bucket) bytes = rw e at d.fits in
        rw (consume_bandwidth-limited from to size net (is_limited net now d)) (record {
          configured = d.configured;
          fits =
              rw
                (
                  d.configured,
                  find_or_of_find bucket_default (from, to) bucket net.bandwidth_buckets e,
                  find-insert_self (from, to) (spend_tokens c size bucket) net.bandwidth_buckets,
                  find_or-insert_self stats_default (from, to) _ net.stats_map,
                )
                (spend_tokens-Fits c start now bytes size bucket word limit w t before);
        })

  pub Paced-accept_message :
      (a b : ℕ) (message : String) (t now : ℕ) (net : Network)
      → Paced now (consume_bandwidth a b (len message) net)
      → Paced now (accept_message a b message t net)
  unfolding accept_message get_bandwidth
  Paced-accept_message a b message t now net d =
      let consumed = consume_bandwidth a b (len message) net in
      let delivered = record_packet_stats a b false consumed in
      let h : Paced now delivered = Paced-record_packet_stats now a b false consumed d in
      let drawn = calculate_latency (get_latency a b delivered) delivered.rng in
      let redrawn = record delivered { rng = drawn.1 } in
      let h' : Paced now redrawn = record { configured = h.configured; fits = h.fits } in
      let k : Paced now (record_stats a b drawn.0 redrawn) =
        Paced-record_stats now a b drawn.0 redrawn h' in
      record { configured = k.configured; fits = k.fits }
