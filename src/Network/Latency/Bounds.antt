-- ===== src/Network/Latency/Bounds.antt =====
-- `calculateLatency` stays inside the configured range, whatever the random engine does.
use painless_mesh_simulator.Prelude.{ℕ, ◌≤◌, ◌≡◌, true, ◌==◌, arith, Bool-cases, inl, inr}
use painless_mesh_simulator.Platform.{Platform, UniformInRange}
use painless_mesh_simulator.Network.Config.{DistributionType, LatencyConfig, is_valid_latency}
use painless_mesh_simulator.Network.Latency.{
  clamp_round, uniform_distribution, normal_distribution, exponential_distribution,
  calculate_latency,
}

module _ ⦃p : Platform⦄ where
  clamp_round_bounds :
      (lo hi : ℕ) (x : p.Double) → lo ≤ hi → (lo ≤ clamp_round lo hi x) × (clamp_round lo hi x ≤ hi)
  unfolding clamp_round
  clamp_round_bounds lo hi x h = omega arith

  uniform_bounds :
      (lo hi : ℕ) (e : p.Engine)
      → UniformInRange p
      → lo ≤ hi
      → (lo ≤ (uniform_distribution lo hi e).0) × ((uniform_distribution lo hi e).0 ≤ hi)
  unfolding uniform_distribution
  uniform_bounds lo hi e u h = ground (arith, u lo hi e h)

  normal_bounds :
      (lo hi : ℕ) (e : p.Engine)
      → lo ≤ hi
      → (lo ≤ (normal_distribution lo hi e).0) × ((normal_distribution lo hi e).0 ≤ hi)
  unfolding normal_distribution
  normal_bounds lo hi e h = elim (Bool-cases (lo == hi)) [
    | inl t ↦ rw t (ground arith)
    | inr t ↦ rw t (clamp_round_bounds lo hi _ h)
  ]

  exponential_bounds :
      (lo hi : ℕ) (e : p.Engine)
      → lo ≤ hi
      → (lo ≤ (exponential_distribution lo hi e).0) × ((exponential_distribution lo hi e).0 ≤ hi)
  unfolding exponential_distribution
  exponential_bounds lo hi e h = elim (Bool-cases (lo == hi)) [
    | inl t ↦ rw t (ground arith)
    | inr t ↦ rw t (clamp_round_bounds lo hi _ h)
  ]

  by_distribution :
      (d : DistributionType) (lo hi : ℕ) (e : p.Engine)
      → UniformInRange p
      → lo ≤ hi
      → let c : LatencyConfig = record { min_ms = lo; max_ms = hi; distribution = d } in
        (lo ≤ (calculate_latency c e).0) × ((calculate_latency c e).0 ≤ hi)
  unfolding calculate_latency
  by_distribution DistributionType.uniform lo hi e u h = uniform_bounds lo hi e u h
  by_distribution DistributionType.normal lo hi e u h = normal_bounds lo hi e h
  by_distribution DistributionType.exponential lo hi e u h = exponential_bounds lo hi e h

  -- If a uniform draw lies in its range, the latency drawn from a valid configuration lies between
  -- its minimum and its maximum, for each of the three distributions and every state of the engine.
  pub calculate_latency_bounds :
      (c : LatencyConfig) (e : p.Engine)
      → UniformInRange p
      → is_valid_latency c ≡ true
      → (c.min_ms ≤ (calculate_latency c e).0) × ((calculate_latency c e).0 ≤ c.max_ms)
  calculate_latency_bounds c e u h =
      by_distribution c.distribution c.min_ms c.max_ms e u (ground arith)
