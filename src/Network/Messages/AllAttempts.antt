-- ===== src/Network/Messages/AllAttempts.antt =====
-- Any calls of `enqueueMessage` as attempts, one for each call.
use painless_mesh_simulator.Prelude.{
  ℕ, ◌<◌, ◌^◌, ◌≡◌, refl, ◌∙◌, sym, ap, subst, Bool, true, false, List, [], ◌∷◌, length, arith,
  if◌then◌else◌,
}
use painless_mesh_simulator.Platform.{Platform, UniformInRange}
use painless_mesh_simulator.StdMap.{same, pair_key}
use painless_mesh_simulator.StdMap.Laws.{eq_of_same}
use painless_mesh_simulator.MinQueue.{MinQueue}
use painless_mesh_simulator.Network.Config.{is_valid_latency}
use painless_mesh_simulator.Network.State.{
  Network, DelayedMessage, delivery_key, ConnectionKey, ConnectionStats,
}
use painless_mesh_simulator.Network.Latency.{get_latency, calculate_latency}
use painless_mesh_simulator.Network.Latency.Bounds.{calculate_latency_bounds}
use painless_mesh_simulator.Network.Stats.{stats_of}
use painless_mesh_simulator.Network.Stats.Report.{Words}
use painless_mesh_simulator.Network.Messages.{enqueue_message}
use painless_mesh_simulator.Network.Messages.RateLimit.{Send, enqueue_all}
use painless_mesh_simulator.Network.Messages.Idle.{tracked}
use painless_mesh_simulator.Network.Messages.Attempts.{
  Attempt, lost, throttled, delivered, counted, queued, Drawn, enqueue_message-Attempted,
}
use painless_mesh_simulator.Network.Messages.Counted.{latencies, own_attempts, counted_all}

module _ ⦃p : Platform⦄ ⦃queues : MinQueue DelayedMessage delivery_key⦄ where
  -- The message queue after attempts, one for each call.
  abbrev pub queued_all : List Send → List Attempt → queues.Queue → queues.Queue
  queued_all (s ∷ ss) (a ∷ tries) q = queued_all ss tries (queued s a q)
  queued_all _ _ q = q

  module _ (from to : ℕ) where
    -- What all calls were.
    pub record AttemptedAll (ss : List Send) (tries : List Attempt) (net net' : Network)
        : Type 0 where
      pub one_each : length tries ≡ length ss
      pub queue : net'.message_queue ≡ queued_all ss tries net.message_queue
      pub words : Words (latencies (own_attempts from to ss tries))
      pub stats :
          tracked (stats_of (from, to) net')
          ≡ counted_all (own_attempts from to ss tries) (tracked (stats_of (from, to) net))

    -- A first attempt, before others.
    first_counted :
        (own : Bool) (a : Attempt) (rest : List Attempt) (t u : ConnectionStats)
        → u ≡ (if own then counted a t else t)
        → counted_all rest u ≡ counted_all (if own then a ∷ rest else rest) t
    unfolding counted_all
    first_counted true a rest t u e = ap (counted_all rest) e
    first_counted false a rest t u e = ap (counted_all rest) e

    first_word :
        (own : Bool) (a : Attempt) (rest : List Attempt)
        → (own ≡ true → Words (latencies (a ∷ [])))
        → Words (latencies rest)
        → Words (latencies (if own then a ∷ rest else rest))
    first_word false a rest h w = w
    first_word true lost rest h w = w
    first_word true throttled rest h w = w
    first_word true (delivered l) rest h w = ((h refl).0, w)

    latency_word :
        (s : Send) (a : Attempt) (net : Network)
        → UniformInRange p
        → is_valid_latency (get_latency from to net) ≡ true
        → (get_latency from to net).max_ms < 2 ^ 32
        → Drawn s a net
        → same {K = ConnectionKey} (from, to) (s.from, s.to) ≡ true
        → Words (latencies (a ∷ []))
    latency_word s lost net u valid word d own = tt
    latency_word s throttled net u valid word d own = tt
    latency_word s (delivered l) net u valid word (e, d) own =
        let c = get_latency from to net in
        let same_config : get_latency s.from s.to net ≡ c =
          ap (λ (k : ConnectionKey). get_latency k.0 k.1 net)
            (sym (eq_of_same {K = ConnectionKey} (from, to) (s.from, s.to) own)) in
        let drawn : l ≡ (calculate_latency c e).0 =
          d ∙ ap (λ c. (calculate_latency c e).0) same_config in
        (omega (arith, drawn, (calculate_latency_bounds c e u valid).1), tt)

    pub attempted_all :
        (ss : List Send) (net : Network)
        → UniformInRange p
        → is_valid_latency (get_latency from to net) ≡ true
        → (get_latency from to net).max_ms < 2 ^ 32
        → (tries : List Attempt) × AttemptedAll ss tries net (enqueue_all ss net)
    unfolding enqueue_all counted_all
    attempted_all [] net u valid word =
        ([], record { one_each = refl; queue = refl; words = tt; stats = refl })
    attempted_all (s ∷ ss) net u valid word =
        let (a, h) = enqueue_message-Attempted from to s net in
        let net1 = enqueue_message s.from s.to s.message s.time net in
        let (tries, r) =
          attempted_all ss net1 u (ap is_valid_latency h.same_latency ∙ valid)
            (subst (λ c. c.max_ms < 2 ^ 32) (sym h.same_latency) word) in
        let own = same {K = ConnectionKey} (from, to) (s.from, s.to) in
        (
          a ∷ tries,
          record {
            one_each = omega (arith, r.one_each);
            queue = r.queue ∙ ap (queued_all ss tries) h.queue;
            words =
                first_word own a (own_attempts from to ss tries)
                  (latency_word s a net u valid word h.drawn) r.words;
            stats = r.stats ∙ first_counted own a (own_attempts from to ss tries) _ _ h.stats;
          },
        )
