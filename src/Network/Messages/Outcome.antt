-- ===== src/Network/Messages/Outcome.antt =====
-- What `enqueueMessage` does to the message queue and to the counters of its connection.
use Prim.Native.String.{len}
use painless_mesh_simulator.Prelude.{
  ℕ, ◌≤◌, ◌≡◌, refl, ◌⊎◌, inl, inr, Bool, true, false, String, Bool-cases, add64, ap, ◌∙◌,
}
use painless_mesh_simulator.Platform.{Platform, UniformInRange}
use painless_mesh_simulator.StdMap.{pair_key}
use painless_mesh_simulator.StdMap.Laws.{find_or-insert_self}
use painless_mesh_simulator.MinQueue.{MinQueue}
use painless_mesh_simulator.Network.Config.{is_valid_latency}
use painless_mesh_simulator.Network.State.{
  Network, DelayedMessage, delivery_key, ConnectionStats, stats_default,
}
use painless_mesh_simulator.Network.Connections.{is_connection_active}
use painless_mesh_simulator.Network.Latency.{get_latency, calculate_latency}
use painless_mesh_simulator.Network.Latency.Bounds.{calculate_latency_bounds}
use painless_mesh_simulator.Network.Loss.{should_drop_packet}
use painless_mesh_simulator.Network.Bandwidth.{
  is_unlimited, get_bandwidth, can_send_message, consume_bandwidth,
}
use painless_mesh_simulator.Network.Bandwidth.Steps.{
  can_send_message-touched, consume_bandwidth-limited, unlimited_steps,
}
use painless_mesh_simulator.Network.Stats.{
  stats_of, record_packet_stats, record_throttled, record_stats, with_packet, with_throttled,
  with_latency,
}
use painless_mesh_simulator.Network.Messages.{accept_message, enqueue_message}
use painless_mesh_simulator.Network.Messages.Cases.{enqueue_cases, should_drop_packet-Redrawn}

-- The three counters of attempts, of which each attempt raises one.
pub record Counters : Type 0 where
  pub dropped : ℕ
  pub delivered : ℕ
  pub throttled : ℕ

abbrev counters : ConnectionStats → Counters
counters s = record {
  dropped = s.dropped_count;
  delivered = s.delivered_count;
  throttled = s.bandwidth_throttled;
}

module _ ⦃p : Platform⦄ ⦃queues : MinQueue DelayedMessage delivery_key⦄ where
  abbrev counters_of : ℕ → ℕ → Network → Counters
  counters_of from to net = counters (stats_of (from, to) net)

  -- Nothing is queued, and the attempt counts as dropped or as throttled.
  pub record Refused (from to : ℕ) (net net' : Network) : Type 0 where
    pub same_queue : net'.message_queue ≡ net.message_queue
    pub counted :
        let c = counters_of from to net in
        (counters_of from to net' ≡ record c { dropped = add64 c.dropped 1 })
        ⊎ (counters_of from to net' ≡ record c { throttled = add64 c.throttled 1 })

  -- The message is queued, to be delivered after a latency inside the range.
  pub record Accepted (from to : ℕ) (message : String) (now : ℕ) (net net' : Network) : Type 0 where
    pub active : is_connection_active from to net ≡ true
    pub latency : ℕ
    pub latency_ge : (get_latency from to net).min_ms ≤ latency
    pub latency_le : latency ≤ (get_latency from to net).max_ms
    pub queued :
        net'.message_queue
        ≡ queues.push
            (record { from = from; to = to; message = message; delivery_time = add64 now latency })
            net.message_queue
    pub counted :
        let c = counters_of from to net in
        counters_of from to net' ≡ record c { delivered = add64 c.delivered 1 }

  -- The state apart from the buckets, the statistics, the bursts and the engine.
  pub record Kept (from to : ℕ) (net net' : Network) : Type 0 where
    pub same_queue : net'.message_queue ≡ net.message_queue
    pub same_latency : get_latency from to net' ≡ get_latency from to net
    pub same_counters : counters_of from to net' ≡ counters_of from to net

  Kept-trans :
      (from to : ℕ) (a b c : Network) → Kept from to a b → Kept from to b c → Kept from to a c
  Kept-trans from to a b c h k = record {
    same_queue = k.same_queue ∙ h.same_queue;
    same_latency = k.same_latency ∙ h.same_latency;
    same_counters = k.same_counters ∙ h.same_counters;
  }

  should_drop_packet-Kept :
      (from to : ℕ) (net : Network) → Kept from to net (should_drop_packet from to net).1
  unfolding get_latency
  should_drop_packet-Kept from to net =
      rw (should_drop_packet-Redrawn from to net)
        (record { same_queue = refl; same_latency = refl; same_counters = refl })

  can_send_message-Kept :
      (from to size now : ℕ) (net : Network)
      → Kept from to net (can_send_message from to size now net).1
  unfolding get_latency
  can_send_message-Kept from to size now net =
      elim (Bool-cases (is_unlimited (get_bandwidth from to net))) [
        | inl free ↦
            rw ((unlimited_steps from to size now net free).0)
              (record { same_queue = refl; same_latency = refl; same_counters = refl })
        | inr limited ↦
            rw (can_send_message-touched from to size now net limited)
              (record { same_queue = refl; same_latency = refl; same_counters = refl })
      ]

  consume_bandwidth-Kept :
      (from to size : ℕ) (net : Network) → Kept from to net (consume_bandwidth from to size net)
  unfolding get_latency
  consume_bandwidth-Kept from to size net =
      elim (Bool-cases (is_unlimited (get_bandwidth from to net))) [
        | inl free ↦
            rw ((unlimited_steps from to size 0 net free).1)
              (record { same_queue = refl; same_latency = refl; same_counters = refl })
        | inr limited ↦ rw (consume_bandwidth-limited from to size net limited) (record {
          same_queue = refl;
          same_latency = refl;
          same_counters =
              ap counters (find_or-insert_self stats_default (from, to) _ net.stats_map);
        })
      ]

  counters-record_packet_stats :
      (from to : ℕ) (dropped : Bool) (net : Network)
      → counters_of from to (record_packet_stats from to dropped net)
        ≡ counters (with_packet dropped (stats_of (from, to) net))
  unfolding record_packet_stats
  counters-record_packet_stats from to dropped net =
      ap counters (find_or-insert_self stats_default (from, to) _ net.stats_map)

  lost-Refused :
      (from to : ℕ) (net net1 : Network)
      → Kept from to net net1
      → Refused from to net (record_packet_stats from to true net1)
  unfolding record_packet_stats with_packet
  lost-Refused from to net net1 k = record {
    same_queue = k.same_queue;
    counted = inl (
        counters-record_packet_stats from to true net1
        ∙ ap (λ (c : Counters). record c { dropped = add64 c.dropped 1 }) k.same_counters);
  }

  throttled-Refused :
      (from to : ℕ) (net net2 : Network)
      → Kept from to net net2
      → Refused from to net (record_throttled from to net2)
  unfolding record_throttled with_throttled
  throttled-Refused from to net net2 k = record {
    same_queue = k.same_queue;
    counted = inr (
        ap counters (find_or-insert_self stats_default (from, to) _ net2.stats_map)
        ∙ ap (λ (c : Counters). record c { throttled = add64 c.throttled 1 }) k.same_counters);
  }

  counters-record_stats :
      (from to latency : ℕ) (net : Network)
      → counters_of from to (record_stats from to latency net) ≡ counters_of from to net
  unfolding record_stats with_latency
  counters-record_stats from to latency net =
      ap counters (find_or-insert_self stats_default (from, to) _ net.stats_map)

  accept_message-Accepted :
      (from to : ℕ) (message : String) (now : ℕ) (net net2 : Network)
      → UniformInRange p
      → is_valid_latency (get_latency from to net) ≡ true
      → is_connection_active from to net ≡ true
      → Kept from to net net2
      → Accepted from to message now net (accept_message from to message now net2)
  unfolding accept_message
  accept_message-Accepted from to message now net net2 u valid active k =
      let consumed = consume_bandwidth from to (len message) net2 in
      let k' =
        Kept-trans from to net net2 consumed k
          (consume_bandwidth-Kept from to (len message) net2) in
      let delivered = record_packet_stats from to false consumed in
      let drawn = calculate_latency (get_latency from to delivered) delivered.rng in
      let c = get_latency from to net in
      let same : get_latency from to delivered ≡ c =
        unfold record_packet_stats get_latency in k'.same_latency in
      let bounds = calculate_latency_bounds c delivered.rng u valid in
      record {
        active = active;
        latency = drawn.0;
        latency_ge = rw same bounds.0;
        latency_le = rw same bounds.1;
        queued = unfold record_packet_stats record_stats in ap (queues.push _) k'.same_queue;
        counted =
            counters-record_stats from to drawn.0 (record delivered { rng = drawn.1 })
            ∙ counters-record_packet_stats from to false consumed
            ∙ (unfold with_packet in
                ap (λ (c : Counters). record c { delivered = add64 c.delivered 1 })
                  k'.same_counters);
      }

  -- Each call of `enqueueMessage` has one of two outcomes. Either nothing is queued, and of the
  -- connection's counters of dropped, delivered and throttled messages exactly the first or the last
  -- goes up by one; or the connection is not dropped, the one message is queued for a time that lies
  -- a latency within the configured range ahead, and the counter of delivered messages goes up by
  -- one. (If the connection's latency range is valid and a uniform draw lies in its range.)
  pub enqueue_message_outcome :
      (from to : ℕ) (message : String) (now : ℕ) (net : Network)
      → UniformInRange p
      → is_valid_latency (get_latency from to net) ≡ true
      → Refused from to net (enqueue_message from to message now net)
        ⊎ Accepted from to message now net (enqueue_message from to message now net)
  enqueue_message_outcome from to message now net u valid =
      let net1 = (should_drop_packet from to net).1 in
      let k1 = should_drop_packet-Kept from to net in
      let net2 = (can_send_message from to (len message) now net1).1 in
      let k2 =
        Kept-trans from to net net1 net2 k1
          (can_send_message-Kept from to (len message) now net1) in
      let start : Kept from to net net = record {
        same_queue = refl;
        same_latency = refl;
        same_counters = refl;
      } in
      enqueue_cases (λ net'. Refused from to net net' ⊎ Accepted from to message now net net') from
        to message now net (λ _. inl (lost-Refused from to net net start))
        (λ _ _. inl (lost-Refused from to net net1 k1))
        (λ _ _ _. inl (throttled-Refused from to net net2 k2))
        (λ active _ _. inr (accept_message-Accepted from to message now net net2 u valid active k2))
