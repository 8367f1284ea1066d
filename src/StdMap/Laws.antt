-- ===== src/StdMap/Laws.antt =====
-- The laws of look-up after an insertion or a removal, and the order of the keys.
use painless_mesh_simulator.Prelude.{
  ◌≡◌, true, false, none, some, [], ◌∷◌, Ordering, arith, if◌then◌else◌,
}
use painless_mesh_simulator.StdMap.{OrderedKey, StdMap, same, find, insert, erase, find_or}

same_refl {ℓ} : {K : Type ℓ} ⦃o : OrderedKey K⦄ (k : K) → same k k ≡ true
same_refl ⦃o⦄ k = rw (o.order_refl k, same)

pub eq_of_same {ℓ} : {K : Type ℓ} ⦃o : OrderedKey K⦄ (j k : K) → same j k ≡ true → j ≡ k
eq_of_same ⦃o⦄ j k h = ground (arith, o.eq_of_order j k)

module _ {ℓ κ} {K : Type ℓ} {V : Type κ} ⦃o : OrderedKey K⦄ where
  open o use {order, order_refl, eq_of_order}

  pub find-insert :
      (j k : K) (v : V) (m : StdMap K V)
      → find j (insert k v m) ≡ (if same j k then some v else find j m)
  unfolding find insert
  find-insert j k v [] = ground arith
  find-insert j k v ((i, w) ∷ m) =
      ground (
        arith,
        eq_of_order k i,
        eq_of_order j k,
        eq_of_order j i,
        order_refl j,
        find-insert j k v m,
      )

  pub find-erase :
      (j k : K) (m : StdMap K V) → find j (erase k m) ≡ (if same j k then none else find j m)
  unfolding find erase
  find-erase j k [] = ground arith
  find-erase j k ((i, w) ∷ m) =
      ground
        (arith, eq_of_order k i, eq_of_order j k, eq_of_order j i, order_refl j, find-erase j k m)

  pub find_or-insert :
      (d : V) (j k : K) (v : V) (m : StdMap K V)
      → find_or d j (insert k v m) ≡ (if same j k then v else find_or d j m)
  unfolding find_or
  find_or-insert d j k v m = ground (arith, find-insert j k v m)

  pub find-insert_self : (k : K) (v : V) (m : StdMap K V) → find k (insert k v m) ≡ some v
  find-insert_self k v m = rw (find-insert k k v m, same_refl k)

  pub find_or-insert_self :
      (d : V) (k : K) (v : V) (m : StdMap K V) → find_or d k (insert k v m) ≡ v
  find_or-insert_self d k v m = rw (find_or-insert d k k v m, same_refl k)

  pub find-insert_ne :
      (j k : K) (v : V) (m : StdMap K V) → same j k ≡ false → find j (insert k v m) ≡ find j m
  find-insert_ne j k v m h = rw (find-insert j k v m, h)

  pub find_or-insert_ne :
      (d : V) (j k : K) (v : V) (m : StdMap K V)
      → same j k ≡ false
      → find_or d j (insert k v m) ≡ find_or d j m
  find_or-insert_ne d j k v m h = rw (find_or-insert d j k v m, h)

  pub find_or_of_find :
      (d : V) (k : K) (v : V) (m : StdMap K V) → find k m ≡ some v → find_or d k m ≡ v
  unfolding find_or
  find_or_of_find d k v m h = rw (h, find_or)

  pub insert-insert : (k : K) (v w : V) (m : StdMap K V) → insert k v (insert k w m) ≡ insert k v m
  unfolding insert
  insert-insert k v w [] = rw (order_refl k)
  insert-insert k v w ((i, u) ∷ m) = ground (arith, order_refl k, insert-insert k v w m)

-- The keys rise along the list, so that no key stands twice.
module _ {ℓ κ} {K : Type ℓ} {V : Type κ} ⦃o : OrderedKey K⦄ where
  open o use {order, order_flip, order_trans}

  abbrev pub Above : K → StdMap K V → Type 0
  Above k [] = Unit
  Above k ((j, w) ∷ m) = (order k j ≡ Ordering.lt) × Above k m

  abbrev pub IsSorted : StdMap K V → Type 0
  IsSorted [] = Unit
  IsSorted ((j, w) ∷ m) = Above j m × IsSorted m

  Above-insert :
      (i k : K) (v : V) (m : StdMap K V)
      → order i k ≡ Ordering.lt
      → Above i m
      → Above i (insert k v m)
  unfolding insert
  Above-insert i k v [] h a = (h, tt)
  Above-insert i k v ((j, w) ∷ m) h a = ground (arith, Above-insert i k v m h a.1)

  Above-trans : (i k : K) (m : StdMap K V) → order i k ≡ Ordering.lt → Above k m → Above i m
  Above-trans i k [] h a = tt
  Above-trans i k ((j, w) ∷ m) h a = (order_trans i k j h a.0, Above-trans i k m h a.1)

  pub insert-IsSorted : (k : K) (v : V) (m : StdMap K V) → IsSorted m → IsSorted (insert k v m)
  unfolding insert
  insert-IsSorted k v [] s = (tt, tt)
  insert-IsSorted k v ((j, w) ∷ m) s = ground (
    arith,
    insert-IsSorted k v m s.1,
    Above-insert j k v m,
    Above-trans k j m,
    order_flip k j,
    o.eq_of_order k j,
  )

  Above-erase : (i k : K) (m : StdMap K V) → Above i m → Above i (erase k m)
  unfolding erase
  Above-erase i k [] a = tt
  Above-erase i k ((j, w) ∷ m) a = ground (arith, Above-erase i k m a.1)

  pub erase-IsSorted : (k : K) (m : StdMap K V) → IsSorted m → IsSorted (erase k m)
  unfolding erase
  erase-IsSorted k [] s = tt
  erase-IsSorted k ((j, w) ∷ m) s = ground (arith, erase-IsSorted k m s.1, Above-erase j k m s.0)
