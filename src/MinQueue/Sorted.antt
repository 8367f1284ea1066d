-- ===== src/MinQueue/Sorted.antt =====
-- An instance of the interface: a queue kept as a list in rising order, a new entry behind its equals.
use mathlib.Core.List.{Perm}
use mathlib.Core.List.Perm
use painless_mesh_simulator.Prelude.{
  ℕ, ◌≤◌, refl, inl, inr, Option, none, some, List, [], ◌∷◌, All, All-map, arith, leb,
  if◌then◌else◌, Bool-cases, leb→le,
}
use painless_mesh_simulator.MinQueue.{MinQueue, Pops}
use painless_mesh_simulator.MinQueue.Drain.{Rising}

module _ {A : Type 0} (key : A → ℕ) where
  unfoldable pub put : A → List A → List A
  put a [] = a ∷ []
  put a (b ∷ bs) = if leb (key b) (key a) then b ∷ put a bs else a ∷ b ∷ bs

  pub put-perm : (a : A) (bs : List A) → Perm (put a bs) (a ∷ bs)
  unfolding put
  put-perm a [] = Perm.rfl
  put-perm a (b ∷ bs) = elim (Bool-cases (leb (key b) (key a))) [
    | inl t ↦ rw t (Perm.trans (Perm.cons b (put-perm a bs)) (Perm.swap a b bs))
    | inr t ↦ rw t Perm.rfl
  ]

  All-put :
      (n : ℕ) (a : A) (bs : List A)
      → n ≤ key a
      → All (λ b. n ≤ key b) bs
      → All (λ b. n ≤ key b) (put a bs)
  unfolding put
  All-put n a [] h k = (h, tt)
  All-put n a (b ∷ bs) h k = ground (arith, All-put n a bs h k.1)

  pub put-Rising : (a : A) (bs : List A) → Rising key bs → Rising key (put a bs)
  unfolding put
  put-Rising a [] r = (tt, tt)
  put-Rising a (b ∷ bs) r = elim (Bool-cases (leb (key b) (key a))) [
    | inl t ↦ rw t (All-put (key b) a bs (leb→le _ _ t) r.0, put-Rising a bs r.1)
    | inr t ↦ rw t ((ground arith, All-map (λ c l. ground arith) bs r.0), r)
  ]

  abbrev SortedList : Type 0
  SortedList = (xs : List A) × Rising key xs

  unfoldable pub pop_front : SortedList → Option (A × SortedList)
  pop_front ([], r) = none
  pop_front (a ∷ xs, r) = some (a, (xs, r.1))

  pub pop_front-Pops :
      (q : SortedList) → Pops {A = A} {Q = SortedList} key (λ q. q.0) q.0 (pop_front q)
  unfolding pop_front
  pop_front-Pops ([], r) = inl (refl, refl)
  pop_front-Pops (a ∷ xs, r) = inr (a, (xs, r.1), refl, Perm.rfl, (ground arith, r.0))

  unfoldable put_sorted : A → SortedList → SortedList
  unfolding put
  put_sorted a (xs, r) = (put a xs, put-Rising a xs r)

  unfoldable pub sorted_queue : MinQueue A key
  unfolding put_sorted pop_front
  sorted_queue = record {
    Queue = SortedList;
    empty = ([], tt);
    push = put_sorted;
    pop = pop_front;
    to_list = λ q. q.0;
    to_list-empty = refl;
    push-perm = λ a q. put-perm a q.0;
    pop-Pops = pop_front-Pops;
  }
