-- ===== src/Network/Messages/RateLimit.antt =====
-- The bandwidth limit, headline: what a connection can send in a given time.
use Prim.Native.String.{len}
use native.Mathlib.Nat.{mul-le-mul_left}
use painless_mesh_simulator.Prelude.{
  ℕ, ◌+◌, ◌-◌, ◌*◌, ◌≤◌, ◌<◌, ◌^◌, ◌≡◌, true, false, Option, none, some, String, List, [], ◌∷◌,
  arith, Bool-cases, inl, inr, sym, subst, ◌∙◌,
}
use painless_mesh_simulator.Platform.{Platform}
use painless_mesh_simulator.StdMap.{find, same, pair_key}
use painless_mesh_simulator.StdMap.Laws.{eq_of_same}
use painless_mesh_simulator.MinQueue.{MinQueue}
use painless_mesh_simulator.Network.Config.{BandwidthConfig}
use painless_mesh_simulator.Network.State.{
  Network, DelayedMessage, delivery_key, ConnectionKey, TokenBucket,
}
use painless_mesh_simulator.Network.Loss.{should_drop_packet}
use painless_mesh_simulator.Network.Bandwidth.{get_bandwidth}
use painless_mesh_simulator.Network.Bandwidth.Buckets.{IsWord32, Fits}
use painless_mesh_simulator.Network.Stats.{stats_of}
use painless_mesh_simulator.Network.Messages.{enqueue_message}
use painless_mesh_simulator.Network.Messages.Cases.{enqueue_cases}
use painless_mesh_simulator.Network.Messages.Pace.{
  Paced, Paced-later, Paced-record_packet_stats, Paced-record_throttled, Paced-should_drop_packet,
  Paced-can_send_message, Paced-consume_bandwidth, own_can_send_message, own_consume_bandwidth,
  Paced-accept_message,
}

-- A call of `enqueueMessage`.
pub record Send : Type 0 where
  pub from : ℕ
  pub to : ℕ
  pub message : String
  pub time : ℕ

-- The calls come at times that do not fall, from `now` on, up to `finish`.
abbrev Chronological : ℕ → ℕ → List Send → Type 0
Chronological now finish [] = now ≤ finish
Chronological now finish (s ∷ ss) = (now ≤ s.time) × Chronological s.time finish ss

Chronological-le : (now finish : ℕ) (ss : List Send) → Chronological now finish ss → now ≤ finish
Chronological-le now finish [] h = h
Chronological-le now finish (s ∷ ss) h = omega (arith, Chronological-le s.time finish ss h.1)

module _ ⦃p : Platform⦄ ⦃queues : MinQueue DelayedMessage delivery_key⦄ where
  unfoldable pub enqueue_all : List Send → Network → Network
  enqueue_all [] net = net
  enqueue_all (s ∷ ss) net = enqueue_all ss (enqueue_message s.from s.to s.message s.time net)

module _ ⦃p : Platform⦄ ⦃queues : MinQueue DelayedMessage delivery_key⦄ (from to : ℕ)
    (c : BandwidthConfig) (start : ℕ) (word : IsWord32 c) (limit : 0 < c.max_bytes_per_sec) where
  own_enqueue :
      (message : String) (before now : ℕ) (net : Network)
      → start ≤ before
      → before ≤ now
      → now < 2 ^ 32
      → Paced from to c start before net
      → Paced from to c start now (enqueue_message from to message now net)
  own_enqueue message before now net s h w d =
      let d1 = Paced-should_drop_packet from to c start before from to net d in
      let net1 = (should_drop_packet from to net).1 in
      let (d2, e, t) =
        own_can_send_message from to c start word limit (len message) before now net1 s h w d1 in
      enqueue_cases (Paced from to c start now) from to message now net
        (λ _.
          Paced-record_packet_stats from to c start now from to true net
            (Paced-later from to c start before now net h d))
        (λ _ _.
          Paced-record_packet_stats from to c start now from to true net1
            (Paced-later from to c start before now net1 h d1))
        (λ _ _ _. Paced-record_throttled from to c start now from to _ d2)
        (λ _ _ sendable. Paced-accept_message from to c start from to message now now _ (
          own_consume_bandwidth from to c start word limit (len message) now _ _ w d2 e
            (sym t ∙ sendable)))

  other_enqueue :
      (a b : ℕ) (message : String) (now : ℕ) (net : Network)
      → same {K = ConnectionKey} (from, to) (a, b) ≡ false
      → Paced from to c start now net
      → Paced from to c start now (enqueue_message a b message now net)
  other_enqueue a b message now net other d =
      let d1 = Paced-should_drop_packet from to c start now a b net d in
      let d2 = Paced-can_send_message from to c start a b other (len message) now now _ d1 in
      enqueue_cases (Paced from to c start now) a b message now net
        (λ _. Paced-record_packet_stats from to c start now a b true net d)
        (λ _ _. Paced-record_packet_stats from to c start now a b true _ d1)
        (λ _ _ _. Paced-record_throttled from to c start now a b _ d2)
        (λ _ _ _.
          Paced-accept_message from to c start a b message now now _
            (Paced-consume_bandwidth from to c start a b other (len message) now _ d2))

  Paced-enqueue_message :
      (a b : ℕ) (message : String) (before now : ℕ) (net : Network)
      → start ≤ before
      → before ≤ now
      → now < 2 ^ 32
      → Paced from to c start before net
      → Paced from to c start now (enqueue_message a b message now net)
  Paced-enqueue_message a b message before now net s h w d =
      elim (Bool-cases (same {K = ConnectionKey} (from, to) (a, b))) [
        | inl t ↦
            subst
              (λ (k : ConnectionKey).
                Paced from to c start now (enqueue_message k.0 k.1 message now net))
              (eq_of_same {K = ConnectionKey} (from, to) (a, b) t)
              (own_enqueue message before now net s h w d)
        | inr t ↦
            other_enqueue a b message now net t (Paced-later from to c start before now net h d)
      ]

  Paced-enqueue_all :
      (ss : List Send) (now finish : ℕ) (net : Network)
      → start ≤ now
      → Chronological now finish ss
      → finish < 2 ^ 32
      → Paced from to c start now net
      → Paced from to c start finish (enqueue_all ss net)
  unfolding enqueue_all
  Paced-enqueue_all [] now finish net s h w d = Paced-later from to c start now finish net h d
  Paced-enqueue_all (m ∷ ss) now finish net s h w d =
      let later = Chronological-le m.time finish ss h.1 in
      Paced-enqueue_all ss m.time finish _ (omega arith) h.1 w
        (Paced-enqueue_message m.from m.to m.message now m.time net s h.0 (omega arith) d)

  Fits-total :
      (finish : ℕ) (o : Option TokenBucket) (bytes : ℕ)
      → Fits c start finish o bytes
      → bytes * 1000 ≤ c.bucket_size * 1000 + c.max_bytes_per_sec * (finish - start)
  Fits-total finish none bytes f = omega arith
  Fits-total finish (some b) bytes f =
      let h : b.last_refill_time - start ≤ finish - start = omega arith in
      omega (arith, mul-le-mul_left c.max_bytes_per_sec h)

  -- The bandwidth limit holds. Take a connection that is configured with a limit in bytes and has
  -- not sent anything yet, and any calls of `enqueueMessage`, on this and on other connections, at
  -- times that do not fall from `start` to `finish` (below 2^32 ms, with 32-bit configuration
  -- fields). Then the bytes that the connection has sent are at most the bucket's size and what the
  -- rate gives in the time passed: bytes * 1000 ≤ bucket_size * 1000 + rate * (finish - start).
  pub bytes_sent-le-rate :
      (ss : List Send) (finish : ℕ) (net : Network)
      → get_bandwidth from to net ≡ c
      → find (from, to) net.bandwidth_buckets ≡ none
      → (stats_of (from, to) net).bytes_sent ≡ 0
      → Chronological start finish ss
      → finish < 2 ^ 32
      → (stats_of (from, to) (enqueue_all ss net)).bytes_sent * 1000
        ≤ c.bucket_size * 1000 + c.max_bytes_per_sec * (finish - start)
  bytes_sent-le-rate ss finish net configured unused unsent h w =
      let d : Paced from to c start start net = record {
        configured = configured;
        fits = rw unused unsent;
      } in
      Fits-total finish _ _ (Paced-enqueue_all ss start finish net (omega arith) h w d).fits
