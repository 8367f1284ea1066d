-- ===== src/Network/Stats/Report.antt =====
-- The sum, the least and the greatest of a list of latencies, which the latency report gives.
use painless_mesh_simulator.Prelude.{
  ℕ, suc, ◌+◌, ◌*◌, ◌/◌, ◌≤◌, ◌<◌, ◌≡◌, List, [], ◌∷◌, length, All, arith, min, max, ◌^◌,
}
use painless_mesh_simulator.StdMap.{pair_key}

abbrev pub sum : List ℕ → ℕ
sum [] = 0
sum (x ∷ xs) = x + sum xs

-- The least and the greatest of `x` and the list.
abbrev pub least : ℕ → List ℕ → ℕ
least x [] = x
least x (y ∷ ys) = min y (least x ys)

abbrev pub greatest : ℕ → List ℕ → ℕ
greatest x [] = x
greatest x (y ∷ ys) = max y (greatest x ys)

-- 32-bit latencies.
abbrev pub Words : List ℕ → Type 0
Words = All (λ l. l < 2 ^ 32)

pub least-min : (a l : ℕ) (ls : List ℕ) → least (min a l) ls ≡ min l (least a ls)
least-min a l [] = omega arith
least-min a l (x ∷ xs) = omega (arith, least-min a l xs)

pub greatest-max : (a l : ℕ) (ls : List ℕ) → greatest (max a l) ls ≡ max l (greatest a ls)
greatest-max a l [] = omega arith
greatest-max a l (x ∷ xs) = omega (arith, greatest-max a l xs)

pub sum-le : (ls : List ℕ) → Words ls → sum ls ≤ length ls * 4294967295
sum-le [] w = omega arith
sum-le (x ∷ xs) w = omega (arith, sum-le xs w.1)

pub mean-le : (total count : ℕ) → total ≤ suc count * 4294967295 → total / suc count ≤ 4294967295
mean-le total count h = grind arith
