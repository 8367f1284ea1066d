-- ===== src/Network/Latency.antt =====
-- Latency: its configuration by connection, and the three distributions that it is drawn from.
pub mod Bounds
use painless_mesh_simulator.Prelude.{ℕ, Bool, min, max, ◌==◌, if◌then◌else◌, add32, sub32}
use painless_mesh_simulator.Result.{Result, ok, err, invalid_argument, require, ◌>>=◌, ◌>>◌}
use painless_mesh_simulator.Platform.{Platform, FloatOps}
use painless_mesh_simulator.StdMap.{insert, find_or, pair_key}
use painless_mesh_simulator.MinQueue.{MinQueue}
use painless_mesh_simulator.Network.Config.{DistributionType, LatencyConfig, is_valid_latency}
use painless_mesh_simulator.Network.State.{Network, DelayedMessage, delivery_key}

module _ ⦃p : Platform⦄ ⦃queues : MinQueue DelayedMessage delivery_key⦄ where
  unfoldable pub set_default_latency : LatencyConfig → Network → Result Network
  set_default_latency config net = do
    require (is_valid_latency config) (invalid_argument "Invalid latency configuration: min > max")
    ok (record net { default_latency = config })

  unfoldable pub set_latency : ℕ → ℕ → LatencyConfig → Network → Result Network
  set_latency from to config net = do
    require (is_valid_latency config) (invalid_argument "Invalid latency configuration: min > max")
    ok (record net { latency_map = insert (from, to) config net.latency_map })

  unfoldable pub get_latency : ℕ → ℕ → Network → LatencyConfig
  get_latency from to net = find_or net.default_latency (from, to) net.latency_map

module _ ⦃p : Platform⦄ where
  -- std::max(a, b) and std::min(a, b) of `double`
  abbrev max_double : p.Double → p.Double → p.Double
  max_double a b = if p.double.lt a b then b else a

  abbrev min_double : p.Double → p.Double → p.Double
  min_double a b = if p.double.lt b a then b else a

  -- Clamp a drawn value, round it, and clamp the result.
  unfoldable pub clamp_round : ℕ → ℕ → p.Double → ℕ
  clamp_round lo hi drawn =
      let raised = max_double (p.double.of_ℕ lo) drawn in
      let value = min_double (p.double.of_ℕ hi) raised in min hi (max lo (p.double.round value))

  unfoldable pub uniform_distribution : ℕ → ℕ → p.Engine → ℕ × p.Engine
  uniform_distribution lo hi e = if lo == hi then (lo, e) else p.uniform_int lo hi e

  unfoldable pub normal_distribution : ℕ → ℕ → p.Engine → ℕ × p.Engine
  normal_distribution lo hi e =
      let mean = p.double.div (p.double.of_ℕ (add32 lo hi)) (p.double.of_ℕ 2) in
      let stddev = p.double.div (p.double.of_ℕ (sub32 hi lo)) (p.double.of_ℕ 6) in
      let (drawn, e') = p.normal mean stddev e in
      if lo == hi then (lo, e) else (clamp_round lo hi drawn, e')

  unfoldable pub exponential_distribution : ℕ → ℕ → p.Engine → ℕ × p.Engine
  exponential_distribution lo hi e =
      let range = p.double.of_ℕ (sub32 hi lo) in
      let lambda = p.double.div (p.double.of_ℕ 3) range in
      let (drawn, e') = p.exponential lambda e in
      if lo == hi then (lo, e) else (clamp_round lo hi (p.double.add drawn (p.double.of_ℕ lo)), e')

  unfoldable pub calculate_latency : LatencyConfig → p.Engine → ℕ × p.Engine
  calculate_latency config e = elim config.distribution [
    | DistributionType.uniform ↦ uniform_distribution config.min_ms config.max_ms e
    | DistributionType.normal ↦ normal_distribution config.min_ms config.max_ms e
    | DistributionType.exponential ↦ exponential_distribution config.min_ms config.max_ms e
  ]
