-- ===== src/Samples/NetworkRuns.antt =====
-- The theorems on the network simulator at concrete inputs.
use painless_mesh_simulator.Prelude.{
  length, ℕ, ◌+◌, ◌-◌, ◌*◌, ◌≤◌, ◌≡◌, refl, ◌⊎◌, true, false, List, [], ◌∷◌, All, arith,
}
use painless_mesh_simulator.StdMap.{find, find_or, pair_key}
use painless_mesh_simulator.MinQueue.Drain.{Drained}
use painless_mesh_simulator.Network.Config.{
  DistributionType, LatencyConfig, PacketLossConfig, BandwidthConfig,
}
use painless_mesh_simulator.Network.State.{Network, TokenBucket}
use painless_mesh_simulator.Network.Latency.{calculate_latency, get_latency}
use painless_mesh_simulator.Network.Latency.Bounds.{calculate_latency_bounds}
use painless_mesh_simulator.Network.Loss.{get_packet_loss}
use painless_mesh_simulator.Network.Loss.Bursts.{
  drops, burst_of, Starts, burst_drops_its_length, burst_of_one_runs_on,
}
use painless_mesh_simulator.Network.Bandwidth.{get_bandwidth}
use painless_mesh_simulator.Network.Bandwidth.Starvation.{asks, Starving, asks-Starving}
use painless_mesh_simulator.Network.Stats.{get_stats, stats_of}
use painless_mesh_simulator.Network.Messages.{enqueue_message, get_ready_messages}
use painless_mesh_simulator.Network.Messages.Outcome.{Refused, Accepted, enqueue_message_outcome}
use painless_mesh_simulator.Network.Messages.RateLimit.{Send, enqueue_all, bytes_sent-le-rate}
use painless_mesh_simulator.Network.Messages.Attempts.{Attempt}
use painless_mesh_simulator.Network.Messages.Counted.{own_attempts}
use painless_mesh_simulator.Network.Messages.AllAttempts.{queued_all}
use painless_mesh_simulator.Network.Messages.Reports.{ReportOf, get_stats-enqueue_all}
use painless_mesh_simulator.Network.Messages.Ready.{get_ready_messages_lem}
use painless_mesh_simulator.Samples.{
  sample_platform, message_queue, sample_network, sample_loss, sample_uniform,
}

abbrev few_ms : LatencyConfig
few_ms = record { min_ms = 10; max_ms = 50; distribution = DistributionType.uniform }

calculate_latency_bounds_example :
    (few_ms.min_ms ≤ (calculate_latency few_ms 7).0)
    × ((calculate_latency few_ms 7).0 ≤ few_ms.max_ms)
calculate_latency_bounds_example = calculate_latency_bounds few_ms 7 sample_uniform refl

-- A network that loses half of the packets of every connection, in bursts of this length.
abbrev bursts_of : ℕ → PacketLossConfig
bursts_of n = record sample_loss { burst_length = n }

abbrev bursty_network : ℕ → Network
bursty_network n = record sample_network { default_packet_loss = bursts_of n }

bursty_Starts : (n : ℕ) → Starts 1 2 (bursts_of n) (bursty_network n)
unfolding get_packet_loss find_or find
bursty_Starts n = record {
  bursty = record { configured = refl; some_loss = refl; some_delivery = refl; bursts = refl };
  idle = refl;
  drawn = refl;
}

burst_drops_its_length_example :
    let (decisions, last) = drops 3 1 2 (bursty_network 3) in
    All (λ d. d ≡ true) decisions × ((burst_of (1, 2) last).in_burst ≡ false)
burst_drops_its_length_example =
    burst_drops_its_length 1 2 (bursts_of 3) 1 (bursty_network 3) (bursty_Starts 3) refl
      (omega arith)

burst_of_one_runs_on_example :
    let (decisions, last) = drops 4 1 2 (bursty_network 1) in
    All (λ d. d ≡ true) decisions × ((burst_of (1, 2) last).in_burst ≡ true)
burst_of_one_runs_on_example =
    burst_of_one_runs_on 1 2 (bursts_of 1) 2 (bursty_network 1) (bursty_Starts 1) refl (omega arith)

-- Two messages a second, and a bucket that is used up at the time 1000.
abbrev two_a_second : BandwidthConfig
two_a_second = record { max_bytes_per_sec = 100; max_messages_per_sec = 2; bucket_size = 5 }

abbrev used_up : TokenBucket
used_up = record {
  bytes_tokens = 3;
  messages_tokens = 0;
  last_refill_time = 1000;
  bytes_consumed = 2;
  messages_consumed = 5;
}

abbrev starved_network : Network
starved_network = record sample_network { bandwidth_buckets = ((1, 2), used_up) ∷ [] }

starved : Starving 1 2 1 two_a_second (omega arith) 1000 starved_network
unfolding get_bandwidth find_or find
starved = record {
  configured = refl;
  bucket = used_up;
  found = refl;
  no_token = refl;
  refreshed = refl;
}

asks-Starving_example :
    All (λ sendable. sendable ≡ false) (asks 1 2 1 (1400 ∷ 1800 ∷ 2200 ∷ []) starved_network)
asks-Starving_example =
    asks-Starving 1 2 1 two_a_second (omega arith) (1400 ∷ 1800 ∷ 2200 ∷ []) 1000 starved_network
      starved
      ((
        omega arith,
        omega arith,
        omega arith,
        (omega arith, omega arith, omega arith, (omega arith, omega arith, omega arith, tt)),
      ))

enqueue_message_outcome_example :
    Refused 1 2 sample_network (enqueue_message 1 2 "hello" 1000 sample_network)
    ⊎ Accepted 1 2 "hello" 1000 sample_network (enqueue_message 1 2 "hello" 1000 sample_network)
unfolding get_latency find_or find
enqueue_message_outcome_example =
    enqueue_message_outcome 1 2 "hello" 1000 sample_network sample_uniform refl

abbrev sends : List Send
sends =
    record { from = 1; to = 2; message = "hello"; time = 1000 }
    ∷ record { from = 2; to = 1; message = "hi"; time = 1500 }
    ∷ record { from = 1; to = 2; message = "again"; time = 2000 }
    ∷ []

bytes_sent-le-rate_example :
    (stats_of (1, 2) (enqueue_all sends sample_network)).bytes_sent * 1000
    ≤ 5 * 1000 + 100 * (3000 - 500)
unfolding get_bandwidth find_or find
bytes_sent-le-rate_example =
    bytes_sent-le-rate 1 2 two_a_second 500
      (record { bytes_word = omega arith; messages_word = omega arith; size_word = omega arith })
      (omega arith) sends 3000 sample_network refl refl refl
      (omega arith, (omega arith, (omega arith, omega arith))) (omega arith)

get_stats-enqueue_all_example :
    let after = enqueue_all sends sample_network in
    (tries : List Attempt) × (length tries ≡ length sends)
    × (after.message_queue ≡ queued_all sends tries sample_network.message_queue)
    × ReportOf 1 2 (own_attempts 1 2 sends tries) (get_stats 1 2 after)
unfolding get_latency find_or find
get_stats-enqueue_all_example =
    get_stats-enqueue_all 1 2 sends sample_network sample_uniform refl refl (omega arith)
      (omega arith)

get_ready_messages_lem_example :
    let net = enqueue_all sends sample_network in
    let (ready, net') = get_ready_messages 1800 net in
    Drained message_queue 1800 net.message_queue (ready, net'.message_queue)
    × (net' ≡ record net { message_queue = net'.message_queue })
get_ready_messages_lem_example = get_ready_messages_lem 1800 (enqueue_all sends sample_network)
