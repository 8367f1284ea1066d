-- ===== src/Platform.antt =====
-- What the simulator takes from the C++ platform and does not implement: binary floating point
-- (`float`, `double`) and the random engine with its distributions (`std::mt19937`, `<random>`).
use painless_mesh_simulator.Prelude.{ℕ, ◌≤◌, Bool}

-- The operations of one floating-point type that the code uses.
pub record FloatOps (F : Type 0) : Type 0 where
  -- the conversion of an unsigned integer, also for literals such as 1.0f
  pub of_ℕ : ℕ → F
  pub lt : F → F → Bool
  pub le : F → F → Bool
  pub add : F → F → F
  pub mul : F → F → F
  pub div : F → F → F
  -- static_cast<uint32_t>(std::round(x)) and static_cast<int>(x) of a value that is not negative
  pub round : F → ℕ
  pub trunc : F → ℕ

pub record Platform : Type 1 where
  pub Float : Type 0
  pub Double : Type 0
  pub Engine : Type 0
  pub float : FloatOps Float
  pub double : FloatOps Double
  -- std::uniform_int_distribution<uint32_t>(min, max), std::uniform_real_distribution<float>(0, 1),
  -- std::normal_distribution<double>(mean, stddev), std::exponential_distribution<double>(lambda)
  pub uniform_int : ℕ → ℕ → Engine → ℕ × Engine
  pub uniform_real : Engine → Float × Engine
  pub normal : Double → Double → Engine → Double × Engine
  pub exponential : Double → Engine → Double × Engine

-- What the standard says of `std::uniform_int_distribution`: the draw lies in the closed range.
abbrev pub UniformInRange : Platform → Type 0
UniformInRange p =
    (lo hi : ℕ) (e : p.Engine)
    → lo ≤ hi
    → (lo ≤ (p.uniform_int lo hi e).0) × ((p.uniform_int lo hi e).0 ≤ hi)
