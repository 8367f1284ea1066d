-- ===== src/MinQueue.antt =====
-- `std::priority_queue` with a comparator that puts a smallest key on top, as the message queue and
-- the event queue use it. The standard leaves open which of several smallest entries is on top.
pub mod Drain
pub mod Sorted
use mathlib.Core.List.{Perm}
use painless_mesh_simulator.Prelude.{
  ℕ, ◌≤◌, ◌≡◌, ◌⊎◌, Option, none, some, List, [], ◌∷◌, length, All,
}

-- What a pop of a queue with the entries `xs` may give.
abbrev pub Pops : {A Q : Type 0} → (A → ℕ) → (Q → List A) → List A → Option (A × Q) → Type 0
Pops {A} {Q} key to_list xs r =
    ((xs ≡ []) × (r ≡ none))
    ⊎ ((a : A) × (q : Q) × (r ≡ some (a, q))
        × Perm xs (a ∷ to_list q)
        × All (λ b. key a ≤ key b) xs)

pub record MinQueue (A : Type 0) (key : A → ℕ) : Type 1 where
  pub Queue : Type 0
  pub empty : Queue
  pub push : A → Queue → Queue
  -- top() and pop() at once; `none` is empty()
  pub pop : Queue → Option (A × Queue)
  -- the entries, in the order of the underlying vector
  pub to_list : Queue → List A
  pub to_list-empty : to_list empty ≡ []
  pub push-perm : (a : A) (q : Queue) → Perm (to_list (push a q)) (a ∷ to_list q)
  pub pop-Pops : (q : Queue) → Pops key to_list (to_list q) (pop q)

-- q.size()
abbrev pub size : {A : Type 0} {key : A → ℕ} (i : MinQueue A key) → i.Queue → ℕ
size i q = length (i.to_list q)
