-- ===== src/StdMap.antt =====
-- `std::map` and `std::set` of the C++ library, as the simulator uses them: the entries stand in the
-- order of their keys, each key once. A map is the list that an iteration over it visits.
pub mod Laws
pub mod TextOrder
use painless_mesh_simulator.Prelude.{
  ℕ, ◌≡◌, refl, Bool, true, false, Option, none, some, List, [], ◌∷◌, compare, Ordering, arith, map,
}

-- The order of the keys, `std::less`, with the equality of two keys that it leaves.
pub record OrderedKey {ℓ} (K : Type ℓ) : Type ℓ where
  pub order : K → K → Ordering
  pub order_refl : (a : K) → order a a ≡ Ordering.eq
  pub eq_of_order : (a b : K) → order a b ≡ Ordering.eq → a ≡ b
  pub order_flip : (a b : K) → order a b ≡ Ordering.gt → order b a ≡ Ordering.lt
  pub order_trans :
      (a b c : K) → order a b ≡ Ordering.lt → order b c ≡ Ordering.lt → order a c ≡ Ordering.lt

pub ℕ_eq_of_order : (a b : ℕ) → compare a b ≡ Ordering.eq → a ≡ b
ℕ_eq_of_order a b h = ground arith

pub ℕ_order_refl : (a : ℕ) → compare a a ≡ Ordering.eq
ℕ_order_refl a = ground arith

pub ℕ_order_flip : (a b : ℕ) → compare a b ≡ Ordering.gt → compare b a ≡ Ordering.lt
ℕ_order_flip a b h = ground arith

pub ℕ_order_trans :
    (a b c : ℕ) → compare a b ≡ Ordering.lt → compare b c ≡ Ordering.lt → compare a c ≡ Ordering.lt
ℕ_order_trans a b c h k = ground arith

-- Node identifiers.
instance abbrev pub ℕ_key : OrderedKey ℕ
ℕ_key = record {
  order = compare;
  order_refl = ℕ_order_refl;
  eq_of_order = ℕ_eq_of_order;
  order_flip = ℕ_order_flip;
  order_trans = ℕ_order_trans;
}

-- `std::pair`: the first parts decide, and where they agree the second.
abbrev pair_order : ℕ × ℕ → ℕ × ℕ → Ordering
pair_order (a, b) (c, d) = elim (compare a c) [
  | Ordering.eq ↦ compare b d
  | Ordering.lt ↦ Ordering.lt
  | Ordering.gt ↦ Ordering.gt
]

pub pair_order_refl : (a : ℕ × ℕ) → pair_order a a ≡ Ordering.eq
pair_order_refl (a, b) = ground arith

pub pair_eq_of_order : (a b : ℕ × ℕ) → pair_order a b ≡ Ordering.eq → a ≡ b
pair_eq_of_order (a, b) (c, d) h = ground arith

pub pair_order_flip : (a b : ℕ × ℕ) → pair_order a b ≡ Ordering.gt → pair_order b a ≡ Ordering.lt
pair_order_flip (a, b) (c, d) h = ground arith

pub pair_order_trans :
    (a b c : ℕ × ℕ)
    → pair_order a b ≡ Ordering.lt
    → pair_order b c ≡ Ordering.lt
    → pair_order a c ≡ Ordering.lt
pair_order_trans (a, b) (c, d) (e, f) h k = ground arith

-- Connections, a pair of node identifiers.
instance abbrev pub pair_key : OrderedKey (ℕ × ℕ)
pair_key = record {
  order = pair_order;
  order_refl = pair_order_refl;
  eq_of_order = pair_eq_of_order;
  order_flip = pair_order_flip;
  order_trans = pair_order_trans;
}

abbrev pub StdMap {ℓ κ} : Type ℓ → Type κ → Type (ℓ ⊔ κ)
StdMap K V = List (K × V)

abbrev pub StdSet {ℓ} : Type ℓ → Type ℓ
StdSet K = StdMap K (Unit {0})

abbrev pub same {ℓ} : {K : Type ℓ} ⦃o : OrderedKey K⦄ → K → K → Bool
same ⦃o⦄ a b = elim (o.order a b) [ Ordering.eq ↦ true | _ ↦ false ]

module _ {ℓ κ} {K : Type ℓ} {V : Type κ} ⦃o : OrderedKey K⦄ where
  -- m.find(k), with `none` for m.end()
  unfoldable pub find : K → StdMap K V → Option V
  find k [] = none
  find k ((j, v) ∷ m) = elim (o.order k j) [ Ordering.eq ↦ some v | _ ↦ find k m ]

  -- m[k] as a value, where `operator[]` would put `d` at a missing key
  unfoldable pub find_or : V → K → StdMap K V → V
  unfolding find
  find_or d k m = elim (find k m) [ none ↦ d | some v ↦ v ]

  -- m[k] = v
  unfoldable pub insert : K → V → StdMap K V → StdMap K V
  insert k v [] = (k, v) ∷ []
  insert k v ((j, w) ∷ m) = elim (o.order k j) [
    | Ordering.lt ↦ (k, v) ∷ (j, w) ∷ m
    | Ordering.eq ↦ (k, v) ∷ m
    | Ordering.gt ↦ (j, w) ∷ insert k v m
  ]

  -- m.erase(k)
  unfoldable pub erase : K → StdMap K V → StdMap K V
  erase k [] = []
  erase k ((j, w) ∷ m) = elim (o.order k j) [ Ordering.eq ↦ erase k m | _ ↦ (j, w) ∷ erase k m ]

  -- m.count(k) > 0
  unfoldable pub contains : K → StdMap K V → Bool
  unfolding find
  contains k m = elim (find k m) [ none ↦ false | some v ↦ true ]

  -- The keys along an iteration.
  abbrev pub keys : StdMap K V → List K
  keys = map (λ e. e.0)
