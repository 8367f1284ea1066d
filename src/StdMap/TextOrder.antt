-- ===== src/StdMap/TextOrder.antt =====
-- The order of texts, std::less<std::string>: the first character that differs decides, and a prefix
-- comes first.
use Prim.Native.Nat.{compare as compare_ℕ}
use Prim.Native.Char.{code}
use Prim.Native.String.{String, compare, then}
use Prim.Native.String.compare.{nil-nil, nil-cons, cons-nil, cons-cons}
use text.Mathlib.TextPositions.{compare_refl}
use text.Mathlib.TextEquality.{path_by_compare}
use painless_mesh_simulator.Prelude.{ℕ, ◌≡◌, ◌∙◌, sym, Ordering, arith}
use painless_mesh_simulator.StdMap.{OrderedKey}

-- How two texts with these first characters and these rests compare.
abbrev step : ℕ → ℕ → Ordering → Ordering
step a b rest = then (compare_ℕ a b) rest

step_flip :
    (a b : ℕ) (rest back : Ordering)
    → (rest ≡ Ordering.gt → back ≡ Ordering.lt)
    → step a b rest ≡ Ordering.gt
    → step b a back ≡ Ordering.lt
step_flip a b rest back f h = ground (arith, f, h)

pub compare_flip : (s t : String) → compare s t ≡ Ordering.gt → compare t s ≡ Ordering.lt
compare_flip String.[] String.[] h = cc (nil-nil)
compare_flip String.[] (String.◌∷◌ d t) h = cc (nil-cons d t)
compare_flip (String.◌∷◌ c s) String.[] h = nil-cons c s
compare_flip (String.◌∷◌ c s) (String.◌∷◌ d t) h =
    cons-cons d c t s
    ∙ step_flip (code c) (code d) (compare s t) (compare t s) (compare_flip s t)
        (sym (cons-cons c d s t) ∙ h)

step_trans :
    (a b c : ℕ) (st tu su : Ordering)
    → (st ≡ Ordering.lt → tu ≡ Ordering.lt → su ≡ Ordering.lt)
    → step a b st ≡ Ordering.lt
    → step b c tu ≡ Ordering.lt
    → step a c su ≡ Ordering.lt
step_trans a b c st tu su f h k = ground (arith, f, h, k)

pub compare_trans :
    (s t u : String)
    → compare s t ≡ Ordering.lt
    → compare t u ≡ Ordering.lt
    → compare s u ≡ Ordering.lt
compare_trans String.[] String.[] u h k = k
compare_trans String.[] (String.◌∷◌ d t) String.[] h k = cc (cons-nil d t)
compare_trans String.[] (String.◌∷◌ d t) (String.◌∷◌ e u) h k = nil-cons e u
compare_trans (String.◌∷◌ c s) String.[] u h k = cc (cons-nil c s)
compare_trans (String.◌∷◌ c s) (String.◌∷◌ d t) String.[] h k = cc (cons-nil d t)
compare_trans (String.◌∷◌ c s) (String.◌∷◌ d t) (String.◌∷◌ e u) h k =
    cons-cons c e s u
    ∙ step_trans (code c) (code d) (code e) (compare s t) (compare t u) (compare s u)
        (compare_trans s t u) (sym (cons-cons c d s t) ∙ h) (sym (cons-cons d e t u) ∙ k)

instance abbrev pub text_key : OrderedKey String
text_key = record {
  order = compare;
  order_refl = compare_refl;
  eq_of_order = path_by_compare;
  order_flip = compare_flip;
  order_trans = compare_trans;
}
