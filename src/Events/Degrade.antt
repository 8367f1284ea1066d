-- ===== src/Events/Degrade.antt =====
-- The event that degrades a connection.
use painless_mesh_simulator.Prelude.{
  ℕ, ◌≤◌, ◌<◌, ◌≡◌, refl, ◌⊎◌, inl, inr, Bool, true, false, ◌&&◌, arith, Bool-cases, if◌then◌else◌,
  ltb, uint32_max,
}
use painless_mesh_simulator.Result.{
  then-ok, then-err, checked-ok, checked-err, Result, ok, err, invalid_argument, checked, ◌⨾◌,
}
use painless_mesh_simulator.Platform.{Platform}
use painless_mesh_simulator.Devices.{Devices}
use painless_mesh_simulator.StdMap.{pair_key, find_or, insert}
use painless_mesh_simulator.StdMap.Laws.{find_or-insert}
use painless_mesh_simulator.MinQueue.{MinQueue}
use painless_mesh_simulator.Network.Config.{
  LatencyConfig, PacketLossConfig, is_valid_latency, is_valid_loss,
}
use painless_mesh_simulator.Network.State.{Network, DelayedMessage, delivery_key, ConnectionKey}
use painless_mesh_simulator.Network.Connections.{is_connection_active}
use painless_mesh_simulator.Network.Latency.{set_latency, get_latency}
use painless_mesh_simulator.Network.Loss.{set_packet_loss, get_packet_loss}
use painless_mesh_simulator.Events.{
  connection_degrade, World, execute, degrade, degraded_latency, degraded_loss,
}
use painless_mesh_simulator.Events.Links.{joins}

module _ ⦃p : Platform⦄ ⦃d : Devices⦄ ⦃queues : MinQueue DelayedMessage delivery_key⦄ where
  -- What a degradation leaves at every connection: `latency` and `loss` tell whether they were set.
  pub record Degraded (x y latency_ms : ℕ) (packet_loss : p.Float) (latency loss : Bool)
      (net net' : Network) : Type 0 where
    pub latencies :
        (a b : ℕ)
        → get_latency a b net'
          ≡ (if latency && joins a b x y then degraded_latency latency_ms else get_latency a b net)
    pub losses :
        (a b : ℕ)
        → get_packet_loss a b net'
          ≡ (if loss && joins a b x y then degraded_loss packet_loss else get_packet_loss a b net)
    pub active : (a b : ℕ) → is_connection_active a b net' ≡ is_connection_active a b net

  latencies_both :
      (a b x y : ℕ) (c : LatencyConfig) (net : Network)
      → find_or net.default_latency (a, b) (insert (y, x) c (insert (x, y) c net.latency_map))
        ≡ (if joins a b x y then c else get_latency a b net)
  unfolding get_latency
  latencies_both a b x y c net = ground (
    arith,
    find_or-insert {K = ConnectionKey} net.default_latency (a, b) (y, x) c
        (insert (x, y) c net.latency_map),
    find_or-insert {K = ConnectionKey} net.default_latency (a, b) (x, y) c net.latency_map,
  )

  losses_both :
      (a b x y : ℕ) (c : PacketLossConfig) (net : Network)
      → find_or net.default_packet_loss
          (a, b)
          (insert (y, x) c (insert (x, y) c net.packet_loss_map))
        ≡ (if joins a b x y then c else get_packet_loss a b net)
  unfolding get_packet_loss
  losses_both a b x y c net = ground (
    arith,
    find_or-insert {K = ConnectionKey} net.default_packet_loss (a, b) (y, x) c
        (insert (x, y) c net.packet_loss_map),
    find_or-insert {K = ConnectionKey} net.default_packet_loss (a, b) (x, y) c net.packet_loss_map,
  )

  latency-valid : (l : ℕ) → l < 2147483648 → is_valid_latency (degraded_latency l) ≡ true
  unfolding degraded_latency
  latency-valid l h = ground arith

  latency-invalid :
      (l : ℕ) → 2147483648 ≤ l → l ≤ uint32_max → is_valid_latency (degraded_latency l) ≡ false
  unfolding degraded_latency
  latency-invalid l h k = ground arith

  -- `set_latency` in both directions, and `set_packet_loss`.
  abbrev with_latencies : ℕ → ℕ → ℕ → Network → Network
  with_latencies x y l net = record net {
    latency_map =
        insert (y, x) (degraded_latency l) (insert (x, y) (degraded_latency l) net.latency_map);
  }

  abbrev with_losses : ℕ → ℕ → p.Float → Network → Network
  with_losses x y q net = record net {
    packet_loss_map =
        insert (y, x) (degraded_loss q) (insert (x, y) (degraded_loss q) net.packet_loss_map);
  }

  set_latency-valid :
      (x y : ℕ) (c : LatencyConfig) (net : Network)
      → is_valid_latency c ≡ true
      → set_latency x y c net ≡ ok (record net { latency_map = insert (x, y) c net.latency_map })
  unfolding set_latency
  set_latency-valid x y c net v = rw v refl

  set_loss-valid :
      (x y : ℕ) (c : PacketLossConfig) (net : Network)
      → is_valid_loss c ≡ true
      → set_packet_loss x y c net
        ≡ ok (record net { packet_loss_map = insert (x, y) c net.packet_loss_map })
  unfolding set_packet_loss
  set_loss-valid x y c net v = rw v refl

  set_latency-invalid :
      (x y : ℕ) (c : LatencyConfig) (net : Network)
      → is_valid_latency c ≡ false
      → set_latency x y c net ≡ err (invalid_argument "Invalid latency configuration: min > max")
  unfolding set_latency
  set_latency-invalid x y c net v = rw v refl

  set_loss-invalid :
      (x y : ℕ) (c : PacketLossConfig) (net : Network)
      → is_valid_loss c ≡ false
      → set_packet_loss x y c net ≡ err (invalid_argument "Invalid packet loss configuration")
  unfolding set_packet_loss
  set_loss-invalid x y c net v = rw v refl

  module _ (x y l : ℕ) (q : p.Float) (net : Network) where
    abbrev latency_to : Network → Result Network
    latency_to = set_latency x y (degraded_latency l)

    abbrev latency_from : Network → Result Network
    latency_from = set_latency y x (degraded_latency l)

    abbrev loss_to : Network → Result Network
    loss_to = set_packet_loss x y (degraded_loss q)

    abbrev loss_from : Network → Result Network
    loss_from = set_packet_loss y x (degraded_loss q)

    latencies-valid :
        l < 2147483648
        → (checked latency_to ⨾ checked latency_from) net ≡ (ok tt, with_latencies x y l net)
    latencies-valid h =
        then-ok (checked latency_to) (checked latency_from)
          (checked-ok latency_to (set_latency-valid x y _ net (latency-valid l h)))
          (checked-ok latency_from (set_latency-valid y x _ _ (latency-valid l h)))

    degrade-valid :
        l < 2147483648
        → is_valid_loss (degraded_loss q) ≡ true
        → degrade x y l q net ≡ (ok tt, with_losses x y q (with_latencies x y l net))
    unfolding degrade
    degrade-valid h v =
        then-ok (checked latency_to ⨾ checked latency_from ⨾ checked loss_to) (checked loss_from)
          (then-ok (checked latency_to ⨾ checked latency_from) (checked loss_to) (latencies-valid h)
            (checked-ok loss_to (set_loss-valid x y _ _ v)))
          (checked-ok loss_from (set_loss-valid y x _ _ v))

    degrade-lossless :
        l < 2147483648
        → is_valid_loss (degraded_loss q) ≡ false
        → degrade x y l q net
          ≡ (err (invalid_argument "Invalid packet loss configuration"), with_latencies x y l net)
    unfolding degrade
    degrade-lossless h v =
        then-err (checked latency_to ⨾ checked latency_from ⨾ checked loss_to) (checked loss_from) (
          then-ok (checked latency_to ⨾ checked latency_from) (checked loss_to) (latencies-valid h)
            (checked-err loss_to (set_loss-invalid x y _ _ v)))

    degrade-wrapped :
        2147483648 ≤ l
        → l ≤ uint32_max
        → degrade x y l q net
          ≡ (err (invalid_argument "Invalid latency configuration: min > max"), net)
    unfolding degrade
    degrade-wrapped h k =
        then-err (checked latency_to ⨾ checked latency_from ⨾ checked loss_to) (checked loss_from) (
          then-err (checked latency_to ⨾ checked latency_from) (checked loss_to) (
            then-err (checked latency_to) (checked latency_from)
              (checked-err latency_to (set_latency-invalid x y _ net (latency-invalid l h k)))))

    with_losses-Degraded :
        Degraded x y l q true true net (with_losses x y q (with_latencies x y l net))
    unfolding get_latency get_packet_loss is_connection_active
    with_losses-Degraded = record {
      latencies = λ a b. latencies_both a b x y (degraded_latency l) net;
      losses = λ a b. losses_both a b x y (degraded_loss q) net;
      active = λ a b. refl;
    }

    with_latencies-Degraded : Degraded x y l q true false net (with_latencies x y l net)
    unfolding get_latency get_packet_loss is_connection_active
    with_latencies-Degraded = record {
      latencies = λ a b. latencies_both a b x y (degraded_latency l) net;
      losses = λ a b. refl;
      active = λ a b. refl;
    }

  -- The three outcomes of a degradation.
  abbrev pub DegradeOutcome : (x y l : ℕ) → p.Float → Network → Result (Unit {0}) × Network → Type 0
  DegradeOutcome x y l q net (result, net') =
      ((l < 2147483648)
        × (is_valid_loss (degraded_loss q) ≡ true)
        × (result ≡ ok tt)
        × Degraded x y l q true true net net')
      ⊎ ((l < 2147483648)
          × (is_valid_loss (degraded_loss q) ≡ false)
          × (result ≡ err (invalid_argument "Invalid packet loss configuration"))
          × Degraded x y l q true false net net')
      ⊎ ((2147483648 ≤ l)
          × (result ≡ err (invalid_argument "Invalid latency configuration: min > max"))
          × (net' ≡ net))

  degrade_cases :
      (x y l : ℕ) (q : p.Float) (net : Network)
      → l ≤ uint32_max
      → DegradeOutcome x y l q net (degrade x y l q net)
  degrade_cases x y l q net h = elim (Bool-cases (ltb l 2147483648)) [
    | inl small ↦ elim (Bool-cases (is_valid_loss (degraded_loss q))) [
      | inl v ↦
          rw (degrade-valid x y l q net (ground arith) v)
            (inl (ground arith, v, refl, with_losses-Degraded x y l q net))
      | inr v ↦
          rw (degrade-lossless x y l q net (ground arith) v)
            (inr (inl (ground arith, v, refl, with_latencies-Degraded x y l q net)))
    ]
    | inr large ↦
        rw (degrade-wrapped x y l q net (ground arith) h) (inr (inr (ground arith, refl, refl)))
  ]

  -- A degradation of the connection of two nodes, for a 32-bit latency. When the latency is below
  -- 2^31 and the packet loss is one that `isValid` accepts, both directions get them and nothing
  -- throws. When the loss is not valid the call throws, and the latency stays set in both directions.
  -- From 2^31 on twice the latency wraps below the latency itself: the call throws and changes
  -- nothing. No other connection changes, no activity, and no node.
  pub degrade_outcome :
      (clock : ℕ × ℕ) (x y l : ℕ) (q : p.Float) (world : World)
      → l ≤ uint32_max
      → let (result, after) = execute clock (connection_degrade x y l q) world in
        (after.manager ≡ world.manager)
        × DegradeOutcome x y l q world.network (result, after.network)
  unfolding execute
  degrade_outcome clock x y l q world h = (refl, degrade_cases x y l q world.network h)
