-- ===== src/Network/Messages/Counted.antt =====
-- The attempts on one connection, and what they make of its statistics.
use painless_mesh_simulator.Prelude.{
  ℕ, suc, ◌+◌, ◌*◌, ◌≤◌, ◌<◌, ◌^◌, ◌≡◌, ◌∙◌, List, [], ◌∷◌, length, arith, if◌then◌else◌,
}
use painless_mesh_simulator.StdMap.{same, pair_key}
use painless_mesh_simulator.Network.State.{ConnectionKey, ConnectionStats}
use painless_mesh_simulator.Network.Stats.{with_packet, with_throttled, with_latency}
use painless_mesh_simulator.Network.Stats.Report.{
  sum, least, greatest, Words, least-min, greatest-max,
}
use painless_mesh_simulator.Network.Messages.RateLimit.{Send}
use painless_mesh_simulator.Network.Messages.Attempts.{Attempt, lost, throttled, delivered, counted}

abbrev pub latencies : List Attempt → List ℕ
latencies [] = []
latencies (delivered l ∷ tries) = l ∷ latencies tries
latencies (_ ∷ tries) = latencies tries

abbrev pub lost_count : List Attempt → ℕ
lost_count [] = 0
lost_count (lost ∷ tries) = suc (lost_count tries)
lost_count (_ ∷ tries) = lost_count tries

abbrev pub throttled_count : List Attempt → ℕ
throttled_count [] = 0
throttled_count (throttled ∷ tries) = suc (throttled_count tries)
throttled_count (_ ∷ tries) = throttled_count tries

-- The attempts on one connection.
abbrev pub own_attempts : ℕ → ℕ → List Send → List Attempt → List Attempt
own_attempts from to (s ∷ ss) (a ∷ tries) =
    let rest = own_attempts from to ss tries in
    if same {K = ConnectionKey} (from, to) (s.from, s.to) then a ∷ rest else rest
own_attempts from to _ _ = []

unfoldable pub counted_all : List Attempt → ConnectionStats → ConnectionStats
counted_all [] s = s
counted_all (a ∷ tries) s = counted_all tries (counted a s)

-- Nothing has wrapped: the statistics are those of the attempts.
pub counted_all_lem :
    (tries : List Attempt) (s : ConnectionStats)
    → Words (latencies tries)
    → s.message_count + length tries < 2 ^ 32
    → s.dropped_count + length tries < 2 ^ 32
    → s.delivered_count + length tries < 2 ^ 32
    → s.bandwidth_throttled + length tries < 2 ^ 32
    → s.total_latency_ms ≤ s.message_count * 2 ^ 32
    → let r = counted_all tries s in
      (r.message_count ≡ s.message_count + length (latencies tries))
      × (r.total_latency_ms ≡ s.total_latency_ms + sum (latencies tries))
      × (r.min_latency_ms ≡ least s.min_latency_ms (latencies tries))
      × (r.max_latency_ms ≡ greatest s.max_latency_ms (latencies tries))
      × (r.dropped_count ≡ s.dropped_count + lost_count tries)
      × (r.delivered_count ≡ s.delivered_count + length (latencies tries))
      × (r.bandwidth_throttled ≡ s.bandwidth_throttled + throttled_count tries)
unfolding counted_all counted with_latency with_packet with_throttled
counted_all_lem [] s w m d e t h = omega arith
counted_all_lem (lost ∷ tries) s w m d e t h =
    let r =
      counted_all_lem tries (counted lost s) w (omega arith) (omega arith) (omega arith)
        (omega arith) (omega arith) in
    omega (arith, r)
counted_all_lem (throttled ∷ tries) s w m d e t h =
    let r =
      counted_all_lem tries (counted throttled s) w (omega arith) (omega arith) (omega arith)
        (omega arith) (omega arith) in
    omega (arith, r)
counted_all_lem (delivered l ∷ tries) s (w, ws) m d e t h =
    let (count, total, low, high, dropped, sent, held) =
      counted_all_lem tries (counted (delivered l) s) ws (omega arith) (omega arith) (omega arith)
        (omega arith) (omega arith) in
    (
      omega arith,
      omega arith,
      low ∙ least-min s.min_latency_ms l (latencies tries),
      high ∙ greatest-max s.max_latency_ms l (latencies tries),
      omega arith,
      omega arith,
      omega arith,
    )

pub length-latencies : (tries : List Attempt) → length (latencies tries) ≤ length tries
length-latencies [] = omega arith
length-latencies (lost ∷ tries) = omega (arith, length-latencies tries)
length-latencies (throttled ∷ tries) = omega (arith, length-latencies tries)
length-latencies (delivered l ∷ tries) = omega (arith, length-latencies tries)

pub length-own_attempts :
    (from to : ℕ) (ss : List Send) (tries : List Attempt)
    → length (own_attempts from to ss tries) ≤ length tries
length-own_attempts from to [] tries = omega arith
length-own_attempts from to (s ∷ ss) [] = omega arith
length-own_attempts from to (s ∷ ss) (a ∷ tries) =
    ground (arith, length-own_attempts from to ss tries)
