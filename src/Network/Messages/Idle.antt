-- ===== src/Network/Messages/Idle.antt =====
-- Calls that change no statistics but the bytes, and the change of one entry.
use painless_mesh_simulator.Prelude.{
  ℕ, ◌≡◌, refl, ◌∙◌, sym, ap, Bool, true, false, Bool-cases, inl, inr, add64, if◌then◌else◌,
}
use painless_mesh_simulator.Platform.{Platform}
use painless_mesh_simulator.StdMap.{same, pair_key}
use painless_mesh_simulator.StdMap.Laws.{find_or-insert, eq_of_same}
use painless_mesh_simulator.MinQueue.{MinQueue}
use painless_mesh_simulator.Network.State.{
  Network, DelayedMessage, delivery_key, ConnectionKey, ConnectionStats, stats_default,
}
use painless_mesh_simulator.Network.Latency.{get_latency}
use painless_mesh_simulator.Network.Loss.{should_drop_packet}
use painless_mesh_simulator.Network.Bandwidth.{
  is_unlimited, get_bandwidth, can_send_message, consume_bandwidth,
}
use painless_mesh_simulator.Network.Bandwidth.Steps.{
  can_send_message-touched, consume_bandwidth-limited, unlimited_steps,
}
use painless_mesh_simulator.Network.Stats.{set_stats, stats_of, with_packet}
use painless_mesh_simulator.Network.Messages.Cases.{should_drop_packet-Redrawn}

-- All but the bytes, which the bandwidth limit counts.
abbrev pub tracked : ConnectionStats → ConnectionStats
tracked s = record s { bytes_sent = 0 }

pub tracked-with_packet :
    (dropped : Bool) (s : ConnectionStats)
    → tracked (with_packet dropped s) ≡ with_packet dropped (tracked s)
unfolding with_packet
tracked-with_packet true s = refl
tracked-with_packet false s = refl

if_same : (b : Bool) (s : ConnectionStats) → (if b then s else s) ≡ s
if_same true s = refl
if_same false s = refl

module _ ⦃p : Platform⦄ ⦃queues : MinQueue DelayedMessage delivery_key⦄ where
  module _ (from to : ℕ) where
    abbrev pub key : ConnectionKey
    key = (from, to)

    -- Neither the queue nor a latency setting changes, nor the statistics but for the bytes.
    pub record Idle (net net' : Network) : Type 0 where
      pub same_queue : net'.message_queue ≡ net.message_queue
      pub same_latency : (a b : ℕ) → get_latency a b net' ≡ get_latency a b net
      pub same_stats : tracked (stats_of key net') ≡ tracked (stats_of key net)

    pub Idle-trans : (a b c : Network) → Idle a b → Idle b c → Idle a c
    Idle-trans a b c h k = record {
      same_queue = k.same_queue ∙ h.same_queue;
      same_latency = λ x y. k.same_latency x y ∙ h.same_latency x y;
      same_stats = k.same_stats ∙ h.same_stats;
    }

    pub should_drop_packet-Idle :
        (a b : ℕ) (net : Network) → Idle net (should_drop_packet a b net).1
    unfolding get_latency
    should_drop_packet-Idle a b net =
        rw (should_drop_packet-Redrawn a b net)
          (record { same_queue = refl; same_latency = λ x y. refl; same_stats = refl })

    pub can_send_message-Idle :
        (a b size now : ℕ) (net : Network) → Idle net (can_send_message a b size now net).1
    unfolding get_latency
    can_send_message-Idle a b size now net =
        elim (Bool-cases (is_unlimited (get_bandwidth a b net))) [
          | inl free ↦
              rw ((unlimited_steps a b size now net free).0)
                (record { same_queue = refl; same_latency = λ x y. refl; same_stats = refl })
          | inr limited ↦
              rw (can_send_message-touched a b size now net limited)
                (record { same_queue = refl; same_latency = λ x y. refl; same_stats = refl })
        ]

    -- The entry of one connection is stored anew.
    stats_of-set_stats :
        (a b : ℕ) (v : ConnectionStats) (net : Network)
        → stats_of key (set_stats (a, b) v net)
          ≡ (if same {K = ConnectionKey} key (a, b) then v else stats_of key net)
    stats_of-set_stats a b v net = find_or-insert stats_default key (a, b) v net.stats_map

    pub updated :
        (a b : ℕ) (f g : ConnectionStats → ConnectionStats) (net : Network)
        → ((s : ConnectionStats) → tracked (f s) ≡ g (tracked s))
        → tracked (stats_of key (set_stats (a, b) (f (stats_of (a, b) net)) net)) ≡ (
            if same {K = ConnectionKey} key (a, b)
            then g (tracked (stats_of key net))
            else tracked (stats_of key net))
    updated a b f g net commutes = elim (Bool-cases (same {K = ConnectionKey} key (a, b))) [
      | inl t ↦
          ap tracked (stats_of-set_stats a b _ net)
          ∙ rw t (
              commutes (stats_of (a, b) net)
              ∙ ap (λ (k : ConnectionKey). g (tracked (stats_of k net)))
                  (sym (eq_of_same {K = ConnectionKey} key (a, b) t)))
      | inr t ↦ ap tracked (stats_of-set_stats a b _ net) ∙ rw t refl
    ]

    pub consume_bandwidth-Idle :
        (a b size : ℕ) (net : Network) → Idle net (consume_bandwidth a b size net)
    unfolding get_latency
    consume_bandwidth-Idle a b size net = elim (Bool-cases (is_unlimited (get_bandwidth a b net))) [
      | inl free ↦
          rw ((unlimited_steps a b size 0 net free).1)
            (record { same_queue = refl; same_latency = λ x y. refl; same_stats = refl })
      | inr limited ↦ rw (consume_bandwidth-limited a b size net limited) (record {
        same_queue = refl;
        same_latency = λ x y. refl;
        same_stats =
            updated a b (λ s. record s { bytes_sent = add64 s.bytes_sent size }) (λ s. s) net
              (λ s. refl)
            ∙ if_same (same {K = ConnectionKey} key (a, b)) (tracked (stats_of key net));
      })
    ]
