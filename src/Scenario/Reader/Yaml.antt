-- ===== src/Scenario/Reader/Yaml.antt =====
-- What the reader takes from the library yaml-cpp, and the helpers that read a key with a default. A
-- call that throws is an error; all errors of the library are YAML::Exception.
use painless_mesh_simulator.Prelude.{
  ℕ, String, Bool, List, [], ◌∷◌, Option, none, some, if◌then◌else◌,
}
use painless_mesh_simulator.Prelude.Int.{ℤ}
use painless_mesh_simulator.Platform.{Platform}
use painless_mesh_simulator.Result.{Result, ok, ◌>>=◌}

pub record Yaml ⦃p : Platform⦄ : Type 1 where
  pub Node : Type 0
  -- YAML::Load
  pub load : String → Result Node
  -- node[key], or `none` where it is not defined
  pub at : Node → String → Result (Option Node)
  pub is_sequence : Node → Bool
  pub is_map : Node → Bool
  -- an iteration over a sequence, and over a map with `first` and `second`
  pub items : Node → List Node
  pub entries : Node → List (Node × Node)
  -- node.as<T>() for std::string, uint16_t, uint32_t, uint64_t, int, float and bool
  pub as_string : Node → Result String
  pub as_uint16 : Node → Result ℕ
  pub as_uint32 : Node → Result ℕ
  pub as_uint64 : Node → Result ℕ
  pub as_int : Node → Result ℤ
  pub as_float : Node → Result p.Float
  pub as_bool : Node → Result Bool

module _ ⦃p : Platform⦄ ⦃y : Yaml⦄ where
  -- `hasKey(node, key) ? node[key].as<T>() : default_value`, as the getters have it.
  unfoldable pub get : {A : Type 0} → (y.Node → Result A) → y.Node → String → A → Result A
  get read node key default = do
    found ← y.at node key
    elim found [ none ↦ ok default | some value ↦ read value ]

  abbrev pub get_string : y.Node → String → String → Result String
  get_string = get y.as_string

  abbrev pub get_uint16 : y.Node → String → ℕ → Result ℕ
  get_uint16 = get y.as_uint16

  abbrev pub get_uint32 : y.Node → String → ℕ → Result ℕ
  get_uint32 = get y.as_uint32

  abbrev get_uint64 : y.Node → String → ℕ → Result ℕ
  get_uint64 = get y.as_uint64

  abbrev pub get_float : y.Node → String → p.Float → Result p.Float
  get_float = get y.as_float

  abbrev pub get_bool : y.Node → String → Bool → Result Bool
  get_bool = get y.as_bool

  -- `if (hasKey(node, key)) target = node[key].as<T>();` for an optional target
  unfoldable pub get_optional :
      {A : Type 0} → (y.Node → Result A) → y.Node → String → Result (Option A)
  get_optional read node key = do
    found ← y.at node key
    elim found [ none ↦ ok none | some value ↦ read value >>= λ a. ok (some a) ]

  -- The items of a sequence under a key, and none where the key is missing or holds something else.
  unfoldable pub sequence_at : y.Node → String → Result (List y.Node)
  sequence_at node key = do
    found ← y.at node key
    elim found [
      | none ↦ ok []
      | some value ↦ ok (if y.is_sequence value then y.items value else [])
    ]

-- A loop that appends what it reads from each item.
unfoldable pub read_each : {N A : Type 0} → (N → Result A) → List N → Result (List A)
read_each read [] = ok []
read_each read (item ∷ items) = do a ← read item; rest ← read_each read items; ok (a ∷ rest)
