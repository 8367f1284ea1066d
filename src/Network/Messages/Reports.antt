-- ===== src/Network/Messages/Reports.antt =====
-- The report of `getStats` after any calls of `enqueueMessage`.
use painless_mesh_simulator.Prelude.{
  ℕ, ◌/◌, ◌<◌, ◌^◌, ◌≡◌, refl, ◌∙◌, sym, ap, true, List, [], ◌∷◌, length, some, none, arith,
  Option-cases, inl, inr,
}
use painless_mesh_simulator.Platform.{Platform, UniformInRange}
use painless_mesh_simulator.StdMap.{find, find_or, pair_key}
use painless_mesh_simulator.MinQueue.{MinQueue}
use painless_mesh_simulator.Network.Config.{is_valid_latency}
use painless_mesh_simulator.Network.State.{
  Network, DelayedMessage, delivery_key, ConnectionStats, stats_default,
}
use painless_mesh_simulator.Network.Latency.{get_latency}
use painless_mesh_simulator.Network.Stats.{
  LatencyStats, average_latency, latency_stats_default, stats_of, get_stats,
}
use painless_mesh_simulator.Network.Stats.Report.{
  sum, least, greatest, Words, least-min, greatest-max, sum-le, mean-le,
}
use painless_mesh_simulator.Network.Messages.RateLimit.{Send, enqueue_all}
use painless_mesh_simulator.Network.Messages.Idle.{tracked}
use painless_mesh_simulator.Network.Messages.Attempts.{Attempt}
use painless_mesh_simulator.Network.Messages.Counted.{
  latencies, lost_count, throttled_count, own_attempts, counted_all, counted_all_lem,
  length-latencies, length-own_attempts,
}
use painless_mesh_simulator.Network.Messages.AllAttempts.{queued_all, attempted_all}

module _ ⦃p : Platform⦄ ⦃queues : MinQueue DelayedMessage delivery_key⦄ where
  -- The latencies in a report.
  abbrev pub Reported : List ℕ → LatencyStats → Type 0
  Reported [] r = (r.message_count ≡ 0) × (r.avg_latency_ms ≡ 0)
  Reported (l ∷ ls) r =
      (r.message_count ≡ length (l ∷ ls))
      × (r.min_latency_ms ≡ least l ls)
      × (r.max_latency_ms ≡ greatest l ls)
      × (r.avg_latency_ms ≡ sum (l ∷ ls) / length (l ∷ ls))

  module _ (from to : ℕ) where
    average_zero : (s : ConnectionStats) → s.message_count ≡ 0 → average_latency s ≡ 0
    unfolding average_latency
    average_zero s c = rw c refl

    average_mean :
        (s : ConnectionStats) (l : ℕ) (ls : List ℕ)
        → Words (l ∷ ls)
        → length (l ∷ ls) < 2 ^ 32
        → s.message_count ≡ length (l ∷ ls)
        → s.total_latency_ms ≡ sum (l ∷ ls)
        → average_latency s ≡ sum (l ∷ ls) / length (l ∷ ls)
    unfolding average_latency
    average_mean s l ls w h c t =
        let mean = mean-le (sum (l ∷ ls)) (length ls) (omega (arith, sum-le (l ∷ ls) w)) in
        rw (c, t) (ground arith)

    -- The report of a connection whose statistics, but for the bytes, are those of these attempts.
    abbrev pub ReportOf : List Attempt → LatencyStats → Type 0
    ReportOf own r =
        Reported (latencies own) r
        × (r.delivered_count ≡ length (latencies own))
        × (r.dropped_count ≡ lost_count own)
        × (r.bandwidth_throttled ≡ throttled_count own)

    reported :
        (ls : List ℕ) (s : ConnectionStats) (net : Network)
        → find (from, to) net.stats_map ≡ some s
        → Words ls
        → length ls < 2 ^ 32
        → s.message_count ≡ length ls
        → s.total_latency_ms ≡ sum ls
        → s.min_latency_ms ≡ least 4294967295 ls
        → s.max_latency_ms ≡ greatest 0 ls
        → Reported ls (get_stats from to net)
    unfolding get_stats
    reported [] s net e w h c t low high = rw (e, get_stats) (c, average_zero s c)
    reported (l ∷ ls) s net e w h c t low high =
        rw (e, get_stats)
          (
            c,
            low ∙ sym (least-min 4294967295 l ls) ∙ ap (λ (m : ℕ). least m ls) (omega (arith, w.0)),
            high ∙ sym (greatest-max 0 l ls) ∙ ap (λ (m : ℕ). greatest m ls) (omega arith),
            average_mean s l ls w h c t,
          )

    unlisted :
        (net : Network)
        → find (from, to) net.stats_map ≡ none
        → stats_of (from, to) net ≡ stats_default
    unfolding find_or
    unlisted net e = rw (e, find_or)

    listed :
        (net : Network) (s : ConnectionStats)
        → find (from, to) net.stats_map ≡ some s
        → stats_of (from, to) net ≡ s
    unfolding find_or
    listed net s e = rw (e, find_or)

    unreported :
        (ls : List ℕ) (net : Network)
        → find (from, to) net.stats_map ≡ none
        → length ls ≡ 0
        → Reported ls (get_stats from to net)
    unfolding get_stats latency_stats_default
    unreported [] net e h = rw (e, get_stats) (refl, refl)
    unreported (l ∷ ls) net e h = absurd (omega (arith, h))

    report_of :
        (own : List Attempt) (net : Network)
        → tracked (stats_of (from, to) net) ≡ counted_all own (tracked stats_default)
        → Words (latencies own)
        → length own < 2 ^ 32
        → ReportOf own (get_stats from to net)
    unfolding get_stats latency_stats_default
    report_of own net e w h =
        let r =
          counted_all_lem own (tracked stats_default) w (omega (arith, h)) (omega (arith, h))
            (omega (arith, h)) (omega (arith, h)) (omega arith) in
        let same_count =
          λ (f : ConnectionStats → ℕ) (s : ConnectionStats) (e' : stats_of (from, to) net ≡ s).
            ap (λ t. f (tracked t)) (sym e') ∙ ap f e in
        elim (Option-cases (find (from, to) net.stats_map)) [
          | inl f ↦
              let fresh = unlisted net f in
              let m = same_count (λ s. s.message_count) stats_default fresh in
              let d = same_count (λ s. s.dropped_count) stats_default fresh in
              let t = same_count (λ s. s.bandwidth_throttled) stats_default fresh in
              (
                unreported (latencies own) net f (omega (arith, m, r)),
                rw (f, get_stats) (omega (arith, m, r)),
                rw (f, get_stats) (omega (arith, d, r)),
                rw (f, get_stats) (omega (arith, t, r)),
              )
          | inr (s, f) ↦
              let here = listed net s f in
              let m = same_count (λ s. s.message_count) s here in
              let total = same_count (λ s. s.total_latency_ms) s here in
              let low = same_count (λ s. s.min_latency_ms) s here in
              let high = same_count (λ s. s.max_latency_ms) s here in
              let v = same_count (λ s. s.delivered_count) s here in
              let d = same_count (λ s. s.dropped_count) s here in
              let t = same_count (λ s. s.bandwidth_throttled) s here in
              let few : length (latencies own) < 2 ^ 32 = omega (arith, length-latencies own, h) in
              (
                reported (latencies own) s net f w few (omega (arith, m, r))
                    (omega (arith, total, r)) (low ∙ r.2) (high ∙ r.3),
                rw (f, get_stats) (omega (arith, v, r)),
                rw (f, get_stats) (omega (arith, d, r)),
                rw (f, get_stats) (omega (arith, t, r)),
              )
        ]

  -- The report of `getStats` on a connection, after any calls of `enqueueMessage` on this and on other
  -- connections. Each call was one attempt, lost, throttled or delivered with a latency, where exactly
  -- the messages that were delivered are queued, each for its latency after the time of its call. The
  -- report counts the attempts on this connection alone: its numbers of messages, delivered, dropped
  -- and throttled, and the least, the greatest and the mean latency, rounded down, are theirs, or a
  -- mean of 0 where none was delivered. (The connection had no statistics before, its latency range is
  -- valid and of 32 bits, a uniform draw lies in its range, and there are fewer than 2^32 calls.)
  pub get_stats-enqueue_all :
      (from to : ℕ) (ss : List Send) (net : Network)
      → UniformInRange p
      → find (from, to) net.stats_map ≡ none
      → is_valid_latency (get_latency from to net) ≡ true
      → (get_latency from to net).max_ms < 2 ^ 32
      → length ss < 2 ^ 32
      → let after = enqueue_all ss net in
        (tries : List Attempt) × (length tries ≡ length ss)
        × (after.message_queue ≡ queued_all ss tries net.message_queue)
        × ReportOf from to (own_attempts from to ss tries) (get_stats from to after)
  get_stats-enqueue_all from to ss net u unused valid word few =
      let (tries, h) = attempted_all from to ss net u valid word in
      (
        tries,
        h.one_each,
        h.queue,
        report_of from to (own_attempts from to ss tries) (enqueue_all ss net)
            (h.stats
              ∙ ap (λ t. counted_all (own_attempts from to ss tries) (tracked t))
                  (unlisted from to net unused))
            h.words (omega (arith, length-own_attempts from to ss tries, h.one_each)),
      )
