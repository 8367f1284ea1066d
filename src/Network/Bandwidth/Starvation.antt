-- ===== src/Network/Bandwidth/Starvation.antt =====
-- A bucket that is asked too often gets no tokens, since each refill drops the fraction of a token
-- that the time has earned.
use painless_mesh_simulator.Prelude.{
  ℕ, ◌-◌, ◌*◌, ◌≤◌, ◌<◌, ◌≡◌, Bool, false, List, [], ◌∷◌, some, arith, All, ◌^◌, sub64,
}
use painless_mesh_simulator.Platform.{Platform}
use painless_mesh_simulator.StdMap.{find, pair_key}
use painless_mesh_simulator.StdMap.Laws.{find-insert_self}
use painless_mesh_simulator.MinQueue.{MinQueue}
use painless_mesh_simulator.Network.Config.{BandwidthConfig}
use painless_mesh_simulator.Network.State.{Network, DelayedMessage, delivery_key, TokenBucket}
use painless_mesh_simulator.Network.Bandwidth.{
  is_unlimited, get_bandwidth, can_send_message, refill_bucket, refilled, has_tokens,
}
use painless_mesh_simulator.Network.Bandwidth.Steps.{touched, can_send_message-touched}

-- No message token is left, and none was earned up to `now`.
record IsDry (now : ℕ) (b : TokenBucket) : Type 0 where
  no_token : b.messages_tokens ≡ 0
  refreshed : b.last_refill_time ≡ now

-- The calls follow one another so fast that the rate earns less than one token between two.
abbrev Hasty : ℕ → ℕ → List ℕ → Type 0
Hasty rate before [] = Unit {0}
Hasty rate before (now ∷ times) =
    (before ≤ now) × (now < 2 ^ 63) × (rate * (now - before) < 1000) × Hasty rate now times

refill_bucket-IsDry :
    (c : BandwidthConfig) (before now : ℕ) (b : TokenBucket)
    → before ≤ now
    → now < 2 ^ 63
    → c.max_messages_per_sec * (now - before) < 1000
    → IsDry before b
    → IsDry now (refill_bucket c now b)
unfolding refill_bucket refilled
refill_bucket-IsDry c before now b h w few d =
    let r = c.max_messages_per_sec in
    let gap : sub64 now b.last_refill_time ≡ now - before = omega arith in
    let few' : r * sub64 now b.last_refill_time < 1000 = rw gap few in ground arith

module _ ⦃p : Platform⦄ ⦃queues : MinQueue DelayedMessage delivery_key⦄ (from to size : ℕ) where
  -- The answers of `canSendMessage` at the given times.
  unfoldable pub asks : List ℕ → Network → List Bool
  asks [] net = []
  asks (now ∷ times) net =
      let (sendable, net') = can_send_message from to size now net in sendable ∷ asks times net'

  module _ (c : BandwidthConfig) (limit : 0 < c.max_messages_per_sec) where
    -- The connection's limit, and its bucket with no message token.
    pub record Starving (now : ℕ) (net : Network) : Type 0 where
      pub configured : get_bandwidth from to net ≡ c
      pub bucket : TokenBucket
      pub found : find (from, to) net.bandwidth_buckets ≡ some bucket
      pub no_token : bucket.messages_tokens ≡ 0
      pub refreshed : bucket.last_refill_time ≡ now

    can_send_message-Starving :
        (before now : ℕ) (net : Network)
        → before ≤ now
        → now < 2 ^ 63
        → c.max_messages_per_sec * (now - before) < 1000
        → Starving before net
        → let (sendable, net') = can_send_message from to size now net in
          (sendable ≡ false) × Starving now net'
    unfolding get_bandwidth has_tokens touched
    can_send_message-Starving before now net h w few s =
        let limited : is_unlimited (get_bandwidth from to net) ≡ false =
          rw s.configured (ground arith) in
        let dry =
          refill_bucket-IsDry c before now s.bucket h w few
            (record { no_token = s.no_token; refreshed = s.refreshed }) in
        rw (can_send_message-touched from to size now net limited, s.configured, s.found)
          (
            ground arith,
            record {
              configured = s.configured;
              bucket = refill_bucket c now s.bucket;
              found =
                  find-insert_self (from, to) (refill_bucket c now s.bucket) net.bandwidth_buckets;
              no_token = dry.no_token;
              refreshed = dry.refreshed;
            },
          )

    -- A connection with a limit in messages whose bucket has no message token is refused by
    -- `canSendMessage` for ever, as long as two successive calls are so close in time that the rate
    -- earns less than one message between them: rate * milliseconds < 1000. (Times are below 2^63.)
    pub asks-Starving :
        (times : List ℕ) (before : ℕ) (net : Network)
        → Starving before net
        → Hasty c.max_messages_per_sec before times
        → All (λ sendable. sendable ≡ false) (asks times net)
    unfolding asks
    asks-Starving [] before net s h = tt
    asks-Starving (now ∷ times) before net s (le, w, few, rest) =
        let (refused, s') = can_send_message-Starving before now net le w few s in
        (refused, asks-Starving times now _ s' rest)
