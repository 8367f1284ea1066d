-- ===== src/Network/Bandwidth/Buckets.antt =====
-- The token bucket by itself: what a refill and a message do to its tokens.
use native.Mathlib.Nat.{mul-le-mul, mul-add}
use painless_mesh_simulator.Prelude.{
  ℕ, ◌+◌, ◌-◌, ◌*◌, ◌≤◌, ◌<◌, ◌≡◌, true, Option, none, some, arith, ◌^◌, ap, add64, sub64,
}
use painless_mesh_simulator.Network.Config.{BandwidthConfig}
use painless_mesh_simulator.Network.State.{TokenBucket}
use painless_mesh_simulator.Network.Bandwidth.{
  new_bucket, refilled, refill_bucket, has_tokens, spend_tokens,
}

-- The fields of a configuration are 32-bit words.
pub record IsWord32 (c : BandwidthConfig) : Type 0 where
  pub bytes_word : c.max_bytes_per_sec < 2 ^ 32
  pub messages_word : c.max_messages_per_sec < 2 ^ 32
  pub size_word : c.bucket_size < 2 ^ 32

product_word : (rate elapsed : ℕ) → rate < 2 ^ 32 → elapsed < 2 ^ 32 → rate * elapsed < 2 ^ 64
product_word rate elapsed h k =
    let h' : rate ≤ 4294967295 = omega arith in
    let k' : elapsed ≤ 4294967295 = omega arith in omega (arith, mul-le-mul h' k')

-- A refill adds at most the tokens that the time earns, and fills at most to the bucket's size.
refilled_bounds :
    (rate size elapsed tokens : ℕ)
    → rate < 2 ^ 32
    → size < 2 ^ 32
    → elapsed < 2 ^ 32
    → tokens ≤ size
    → (refilled rate size elapsed tokens ≤ size)
      × (refilled rate size elapsed tokens * 1000 ≤ tokens * 1000 + rate * elapsed)
      × (tokens ≤ refilled rate size elapsed tokens)
unfolding refilled
refilled_bounds rate size elapsed tokens hr hs he ht =
    ground (arith, product_word rate elapsed hr he)

-- Between the times `start` and `now` the bucket has let through `bytes` bytes: together with the
-- tokens left that is no more than a full bucket and what the rate gives in this time.
abbrev pub Fits : BandwidthConfig → ℕ → ℕ → Option TokenBucket → ℕ → Type 0
Fits c start now none bytes = bytes ≡ 0
Fits c start now (some b) bytes =
    (start ≤ b.last_refill_time)
    × (b.last_refill_time ≤ now)
    × (b.bytes_tokens ≤ c.bucket_size)
    × (bytes * 1000 + b.bytes_tokens * 1000
        ≤ c.bucket_size * 1000 + c.max_bytes_per_sec * (b.last_refill_time - start))

pub new_bucket-Fits :
    (c : BandwidthConfig) (start now bytes : ℕ)
    → start ≤ now
    → bytes ≡ 0
    → Fits c start now (some (new_bucket c now)) bytes
unfolding new_bucket
new_bucket-Fits c start now bytes h e = omega arith

module _ (c : BandwidthConfig) (word : IsWord32 c) (start before now bytes : ℕ) where
  pub refill_bucket-Fits :
      (b : TokenBucket)
      → before ≤ now
      → now < 2 ^ 32
      → Fits c start before (some b) bytes
      → Fits c start now (some (refill_bucket c now b)) bytes
  unfolding refill_bucket
  refill_bucket-Fits b h w f =
      let r = c.max_bytes_per_sec in
      let last = b.last_refill_time in
      let elapsed = sub64 now last in
      let gap : elapsed ≡ now - last = omega arith in
      let total : r * (now - start) ≡ r * (last - start) + r * elapsed =
        rw gap (rw (← mul-add r (last - start) (now - last)) (ap (◌*◌ r) (omega arith))) in
      ground (
        arith,
        total,
        refilled_bounds r c.bucket_size elapsed b.bytes_tokens word.bytes_word word.size_word
            (omega arith) f.2,
      )

-- A message that passed the test on the tokens is paid for by them.
pub spend_tokens-Fits :
    (c : BandwidthConfig) (start now bytes size : ℕ) (b : TokenBucket)
    → IsWord32 c
    → 0 < c.max_bytes_per_sec
    → now < 2 ^ 32
    → has_tokens c size b ≡ true
    → Fits c start now (some b) bytes
    → Fits c start now (some (spend_tokens c size b)) (add64 bytes size)
unfolding has_tokens spend_tokens
spend_tokens-Fits c start now bytes size b word limited w h f =
    let small =
      product_word c.max_bytes_per_sec (b.last_refill_time - start) word.bytes_word (omega arith) in
    ground (arith, small, word.size_word)
