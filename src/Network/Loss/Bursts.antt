-- ===== src/Network/Loss/Bursts.antt =====
-- How long a burst of dropped packets lasts.
use painless_mesh_simulator.Prelude.{
  ℕ, zero, suc, ◌-◌, ◌<◌, ◌≡◌, refl, Bool, true, false, List, [], ◌∷◌, arith, All, ap, ◌^◌, ◌∙◌,
}
use painless_mesh_simulator.Platform.{Platform}
use painless_mesh_simulator.StdMap.{find_or, pair_key}
use painless_mesh_simulator.StdMap.Laws.{find_or-insert_self}
use painless_mesh_simulator.MinQueue.{MinQueue}
use painless_mesh_simulator.Network.Config.{PacketLossConfig}
use painless_mesh_simulator.Network.State.{
  Network, DelayedMessage, delivery_key, ConnectionKey, BurstState, burst_default,
}
use painless_mesh_simulator.Network.Loss.{
  set_burst, continue_burst, start_burst, burst_drop, get_packet_loss, should_drop_packet,
}

abbrev running : ℕ → BurstState
running n = record { in_burst = true; remaining = n }

continue_burst-running :
    (n : ℕ) → suc (suc n) < 2 ^ 32 → continue_burst (running (suc (suc n))) ≡ running (suc n)
unfolding continue_burst
continue_burst-running n h = ground arith

continue_burst-last : continue_burst (running 1) ≡ record { in_burst = false; remaining = 0 }
unfolding continue_burst
continue_burst-last = refl

continue_burst-wraps : continue_burst (running 0) ≡ running 4294967295
unfolding continue_burst
continue_burst-wraps = refl

module _ ⦃p : Platform⦄ ⦃queues : MinQueue DelayedMessage delivery_key⦄ where
  abbrev pub burst_of : ConnectionKey → Network → BurstState
  burst_of key net = find_or burst_default key net.burst_state_map

  -- The connection loses packets in bursts, neither all of them nor none.
  pub record IsBursty (from to : ℕ) (config : PacketLossConfig) (net : Network) : Type 0 where
    pub configured : get_packet_loss from to net ≡ config
    pub some_loss : p.float.le config.probability (p.float.of_ℕ 0) ≡ false
    pub some_delivery : p.float.le (p.float.of_ℕ 1) config.probability ≡ false
    pub bursts : config.burst_mode ≡ true

  -- The decisions about the next `n` packets of one connection, and the state after them.
  unfoldable pub drops : ℕ → ℕ → ℕ → Network → List Bool × Network
  drops zero from to net = ([], net)
  drops (suc n) from to net =
      let (dropped, net') = should_drop_packet from to net in
      let (later, last) = drops n from to net' in (dropped ∷ later, last)

  module _ (from to : ℕ) (config : PacketLossConfig) where
    should_drop_packet-burst_drop :
        (net : Network)
        → IsBursty from to config net
        → should_drop_packet from to net ≡ burst_drop (from, to) config net
    unfolding should_drop_packet
    should_drop_packet-burst_drop net b = rw (b.configured, b.some_loss, b.some_delivery, b.bursts)

    IsBursty-set_burst :
        (b : BurstState) (net : Network)
        → IsBursty from to config net
        → IsBursty from to config (set_burst (from, to) b net)
    unfolding get_packet_loss
    IsBursty-set_burst b net h = record {
      configured = h.configured;
      some_loss = h.some_loss;
      some_delivery = h.some_delivery;
      bursts = h.bursts;
    }

    running_step :
        (n : ℕ) (net : Network)
        → IsBursty from to config net
        → burst_of (from, to) net ≡ running n
        → should_drop_packet from to net
          ≡ (true, set_burst (from, to) (continue_burst (running n)) net)
    unfolding burst_drop
    running_step n net h e = rw (should_drop_packet-burst_drop net h) (rw (e, burst_drop))

    running_drops :
        (n left : ℕ) (net : Network)
        → IsBursty from to config net
        → burst_of (from, to) net ≡ running left
        → n < left
        → left < 2 ^ 32
        → let (decisions, last) = drops n from to net in
          All (λ d. d ≡ true) decisions
          × IsBursty from to config last
          × (burst_of (from, to) last ≡ running (left - n))
    unfolding drops
    running_drops zero left net h e lt w = (tt, h, e ∙ ap running (omega arith))
    running_drops (suc n) (suc (suc left)) net h e lt w =
        let b = continue_burst (running (suc (suc left))) in
        let net' = set_burst (from, to) b net in
        let e' : burst_of (from, to) net' ≡ running (suc left) =
          find_or-insert_self burst_default (from, to) b net.burst_state_map
          ∙ continue_burst-running left w in
        let (all, bursty, rest) =
          running_drops n (suc left) net' (IsBursty-set_burst b net h) e' (omega arith)
            (omega arith) in
        rw (running_step (suc (suc left)) net h e)
          ((refl, all), bursty, rest ∙ ap running (omega arith))
    running_drops (suc n) zero net h e lt w = absurd (omega arith)
    running_drops (suc n) (suc zero) net h e lt w = absurd (omega arith)

    running_to_end :
        (left : ℕ) (net : Network)
        → IsBursty from to config net
        → burst_of (from, to) net ≡ running (suc left)
        → suc left < 2 ^ 32
        → let (decisions, last) = drops (suc left) from to net in
          All (λ d. d ≡ true) decisions × ((burst_of (from, to) last).in_burst ≡ false)
    unfolding drops
    running_to_end zero net h e w =
        let b = continue_burst (running 1) in
        rw (running_step 1 net h e) (
          (refl, tt),
          ap (λ (s : BurstState). s.in_burst)
              (find_or-insert_self burst_default (from, to) b net.burst_state_map
                ∙ continue_burst-last),
        )
    running_to_end (suc left) net h e w =
        let b = continue_burst (running (suc (suc left))) in
        let net' = set_burst (from, to) b net in
        let e' : burst_of (from, to) net' ≡ running (suc left) =
          find_or-insert_self burst_default (from, to) b net.burst_state_map
          ∙ continue_burst-running left w in
        let (all, ended) = running_to_end left net' (IsBursty-set_burst b net h) e' (omega arith) in
        rw (running_step (suc (suc left)) net h e) ((refl, all), ended)

    -- The draw for the next packet decides that a burst starts.
    pub record Starts (net : Network) : Type 0 where
      pub bursty : IsBursty from to config net
      pub idle : (burst_of (from, to) net).in_burst ≡ false
      pub drawn : p.float.lt (p.uniform_real net.rng).0 config.probability ≡ true

    abbrev started : Network → Network
    started net = record (set_burst (from, to) (start_burst config.burst_length) net) {
      rng = (p.uniform_real net.rng).1;
    }

    start_step : (net : Network) → Starts net → should_drop_packet from to net ≡ (true, started net)
    unfolding burst_drop
    start_step net s = rw (should_drop_packet-burst_drop net s.bursty) (rw (s.idle, s.drawn))

    IsBursty-started : (net : Network) → Starts net → IsBursty from to config (started net)
    unfolding get_packet_loss
    IsBursty-started net s = record {
      configured = s.bursty.configured;
      some_loss = s.bursty.some_loss;
      some_delivery = s.bursty.some_delivery;
      bursts = s.bursty.bursts;
    }

    burst_of-started :
        (net : Network) → burst_of (from, to) (started net) ≡ start_burst config.burst_length
    burst_of-started net =
        find_or-insert_self burst_default (from, to) (start_burst config.burst_length)
          net.burst_state_map

    -- In burst mode with a burst length from 2 up, when the draw for a packet starts a burst, then
    -- exactly that many packets in a row are dropped, this one included, and no burst runs any more.
    pub burst_drops_its_length :
        (length : ℕ) (net : Network)
        → Starts net
        → config.burst_length ≡ suc (suc length)
        → suc (suc length) < 2 ^ 32
        → let (decisions, last) = drops (suc (suc length)) from to net in
          All (λ d. d ≡ true) decisions × ((burst_of (from, to) last).in_burst ≡ false)
    unfolding drops start_burst
    burst_drops_its_length length net s l w =
        let e : burst_of (from, to) (started net) ≡ running (suc length) =
          burst_of-started net ∙ ground arith in
        let (all, ended) =
          running_to_end length (started net) (IsBursty-started net s) e (omega arith) in
        rw (start_step net s) ((refl, all), ended)

    -- With a burst length of 1, which `isValid` accepts, the counter wraps below 0: the packet that
    -- starts the burst and each of the `n + 1` packets after it are dropped and the burst is still
    -- running, for every n < 2^32 - 1.
    pub burst_of_one_runs_on :
        (n : ℕ) (net : Network)
        → Starts net
        → config.burst_length ≡ 1
        → n < 4294967295
        → let (decisions, last) = drops (suc (suc n)) from to net in
          All (λ d. d ≡ true) decisions × ((burst_of (from, to) last).in_burst ≡ true)
    unfolding drops start_burst
    burst_of_one_runs_on n net s l w =
        let e : burst_of (from, to) (started net) ≡ running 0 =
          burst_of-started net ∙ ground arith in
        let b = continue_burst (running 0) in
        let net' = set_burst (from, to) b (started net) in
        let e' : burst_of (from, to) net' ≡ running 4294967295 =
          find_or-insert_self burst_default (from, to) b (started net).burst_state_map
          ∙ continue_burst-wraps in
        let bursty = IsBursty-started net s in
        let (all, _, rest) =
          running_drops n 4294967295 net' (IsBursty-set_burst b (started net) bursty) e' w
            (omega arith) in
        rw (start_step net s, running_step 0 (started net) bursty e)
          ((refl, (refl, all)), ap (λ (s : BurstState). s.in_burst) rest)
