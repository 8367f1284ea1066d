-- ===== src/Network/Messages/Attempts.antt =====
-- What one call of `enqueueMessage` is to the statistics of every connection: an attempt, lost,
-- throttled or delivered.
use Prim.Native.String.{len}
use painless_mesh_simulator.Prelude.{ℕ, ◌≡◌, refl, ◌∙◌, ap, Bool, true, false, add64, if◌then◌else◌}
use painless_mesh_simulator.Platform.{Platform}
use painless_mesh_simulator.StdMap.{same, pair_key}
use painless_mesh_simulator.MinQueue.{MinQueue}
use painless_mesh_simulator.Network.State.{
  Network, DelayedMessage, delivery_key, ConnectionKey, ConnectionStats,
}
use painless_mesh_simulator.Network.Latency.{get_latency, calculate_latency}
use painless_mesh_simulator.Network.Loss.{should_drop_packet}
use painless_mesh_simulator.Network.Bandwidth.{consume_bandwidth}
use painless_mesh_simulator.Network.Stats.{
  stats_of, record_packet_stats, record_throttled, record_stats, with_packet, with_throttled,
  with_latency,
}
use painless_mesh_simulator.Network.Messages.{accept_message, enqueue_message}
use painless_mesh_simulator.Network.Messages.Cases.{enqueue_cases}
use painless_mesh_simulator.Network.Messages.RateLimit.{Send}
use painless_mesh_simulator.Network.Messages.Idle.{
  tracked, tracked-with_packet, key, Idle, updated, Idle-trans, should_drop_packet-Idle,
  can_send_message-Idle, consume_bandwidth-Idle,
}

-- A message that is delivered has a latency.
pub data Attempt : Type 0 where
  lost throttled : Attempt
  delivered : ℕ → Attempt

-- What the attempt adds to the statistics of its connection.
unfoldable pub counted : Attempt → ConnectionStats → ConnectionStats
counted lost s = with_packet true s
counted throttled s = with_throttled s
counted (delivered latency) s = with_latency latency (with_packet false s)

module _ ⦃p : Platform⦄ ⦃queues : MinQueue DelayedMessage delivery_key⦄ where
  -- The message queue after an attempt.
  abbrev pub queued : Send → Attempt → queues.Queue → queues.Queue
  queued s (delivered latency) q =
      queues.push
        (record {
          from = s.from;
          to = s.to;
          message = s.message;
          delivery_time = add64 s.time latency;
        })
        q
  queued s _ q = q

  -- The latency was drawn from the configuration of the connection.
  abbrev pub Drawn : Send → Attempt → Network → Type 0
  Drawn s (delivered latency) net =
      (e : p.Engine) × (latency ≡ (calculate_latency (get_latency s.from s.to net) e).0)
  Drawn s _ net = Unit

  module _ (from to : ℕ) where
    -- The call was this attempt.
    pub record Attempted (s : Send) (a : Attempt) (net net' : Network) : Type 0 where
      pub queue : net'.message_queue ≡ queued s a net.message_queue
      pub same_latency : get_latency from to net' ≡ get_latency from to net
      pub drawn : Drawn s a net
      pub stats : tracked (stats_of (key from to) net') ≡ (
          if same {K = ConnectionKey} (key from to) (s.from, s.to)
          then counted a (tracked (stats_of (key from to) net))
          else tracked (stats_of (key from to) net))

    -- The ends of `enqueueMessage`, behind calls that were idle.
    lost-Attempted :
        (s : Send) (net net1 : Network)
        → Idle from to net net1
        → Attempted s lost net (record_packet_stats s.from s.to true net1)
    unfolding record_packet_stats counted get_latency
    lost-Attempted s net net1 i = record {
      queue = i.same_queue;
      same_latency = i.same_latency from to;
      drawn = tt;
      stats =
          updated from to s.from s.to (with_packet true) (with_packet true) net1
            (tracked-with_packet true)
          ∙ ap
              (λ (t : ConnectionStats).
                if same {K = ConnectionKey} (key from to) (s.from, s.to)
                then with_packet true t
                else t)
              i.same_stats;
    }

    throttled-Attempted :
        (s : Send) (net net1 : Network)
        → Idle from to net net1
        → Attempted s throttled net (record_throttled s.from s.to net1)
    unfolding record_throttled counted get_latency with_throttled
    throttled-Attempted s net net1 i = record {
      queue = i.same_queue;
      same_latency = i.same_latency from to;
      drawn = tt;
      stats =
          updated from to s.from s.to with_throttled with_throttled net1 (λ t. refl)
          ∙ ap
              (λ (t : ConnectionStats).
                if same {K = ConnectionKey} (key from to) (s.from, s.to)
                then with_throttled t
                else t)
              i.same_stats;
    }

    if_twice :
        (b : Bool) (f g : ConnectionStats → ConnectionStats) (t : ConnectionStats)
        → (if b then g (if b then f t else t) else (if b then f t else t))
          ≡ (if b then g (f t) else t)
    if_twice true f g t = refl
    if_twice false f g t = refl

    delivered-Attempted :
        (s : Send) (net net2 : Network)
        → Idle from to net net2
        → (a : Attempt) × Attempted s a net (accept_message s.from s.to s.message s.time net2)
    unfolding accept_message record_packet_stats record_stats counted get_latency
    delivered-Attempted s net net2 j =
        let consumed = consume_bandwidth s.from s.to (len s.message) net2 in
        let i =
          Idle-trans from to net net2 consumed j
            (consume_bandwidth-Idle from to s.from s.to (len s.message) net2) in
        let packet = record_packet_stats s.from s.to false consumed in
        let drawn = calculate_latency (get_latency s.from s.to packet) packet.rng in
        let own = same {K = ConnectionKey} (key from to) (s.from, s.to) in
        (
          delivered drawn.0,
          record {
            queue = ap (queued s (delivered drawn.0)) i.same_queue;
            same_latency = i.same_latency from to;
            drawn = (
              packet.rng,
              ap (λ c. (calculate_latency c packet.rng).0) (i.same_latency s.from s.to),
            );
            stats =
                updated from to s.from s.to (with_latency drawn.0) (with_latency drawn.0) packet
                  (λ t. unfold with_latency in refl)
                ∙ ap (λ (t : ConnectionStats). if own then with_latency drawn.0 t else t)
                    (updated from to s.from s.to (with_packet false) (with_packet false) consumed
                        (tracked-with_packet false)
                      ∙ ap (λ (t : ConnectionStats). if own then with_packet false t else t)
                          i.same_stats)
                ∙ if_twice own (with_packet false) (with_latency drawn.0)
                    (tracked (stats_of (key from to) net));
          },
        )

    pub enqueue_message-Attempted :
        (s : Send) (net : Network)
        → (a : Attempt) × Attempted s a net (enqueue_message s.from s.to s.message s.time net)
    enqueue_message-Attempted s net =
        let (d, net1) = should_drop_packet s.from s.to net in
        let i1 = should_drop_packet-Idle from to s.from s.to net in
        let i2 =
          Idle-trans from to net net1 _ i1
            (can_send_message-Idle from to s.from s.to (len s.message) s.time net1) in
        let none_yet : Idle from to net net = record {
          same_queue = refl;
          same_latency = λ x y. refl;
          same_stats = refl;
        } in
        enqueue_cases (λ after. (a : Attempt) × Attempted s a net after) s.from s.to s.message
          s.time net (λ _. (lost, lost-Attempted s net net none_yet))
          (λ _ _. (lost, lost-Attempted s net net1 i1))
          (λ _ _ _. (throttled, throttled-Attempted s net _ i2))
          (λ _ _ _. delivered-Attempted s net _ i2)
