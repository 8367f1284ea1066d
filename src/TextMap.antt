-- ===== src/TextMap.antt =====
-- Maps from texts, `std::map<String, V>`, where only look-ups matter.
use painless_mesh_simulator.Prelude.{
  ◌≡◌, refl, String, List, [], ◌∷◌, Option, none, some, str_eq, eq_iff, if◌then◌else◌, arith,
}

abbrev pub TextMap : Type 0
TextMap = List (String × String)

unfoldable pub find : {V : Type 0} → String → List (String × V) → Option V
find key [] = none
find key ((k, v) ∷ m) = if str_eq k key then some v else find key m

-- m[key] = value
unfoldable pub insert : {V : Type 0} → String → V → List (String × V) → List (String × V)
insert key value [] = (key, value) ∷ []
insert key value ((k, v) ∷ m) =
    if str_eq k key then (key, value) ∷ m else (k, v) ∷ insert key value m

pub find-insert :
    {V : Type 0} (j k : String) (value : V) (m : List (String × V))
    → find j (insert k value m) ≡ (if str_eq k j then some value else find j m)
unfolding find insert
find-insert j k value [] = refl
find-insert j k value ((i, w) ∷ m) =
    ground (arith, eq_iff k j, eq_iff i k, eq_iff i j, find-insert j k value m)
