-- ===== src/Samples/YamlTree.antt =====
-- A YAML library over trees, with two documents.
use painless_mesh_simulator.Prelude.{
  ℕ, String, Bool, true, false, List, [], ◌∷◌, Option, none, some, str_eq, if◌then◌else◌,
}
use painless_mesh_simulator.Prelude.Int.{pos}
use painless_mesh_simulator.Result.{Result, ok, err, yaml_exception, ◌>>=◌}
use painless_mesh_simulator.Scenario.Reader.Yaml.{Yaml}
use painless_mesh_simulator.Samples.{sample_platform}

mutual
  pub data Tree : Type 0 where
    scalar : String → Tree
    number : ℕ → Tree
    sequence : Items → Tree
    mapping : Fields → Tree

  pub data Items : Type 0 where
    nil : Items
    cons : Tree → Items → Items

  pub data Fields : Type 0 where
    end : Fields
    field : String → Tree → Fields → Fields

abbrev lookup : String → Fields → Option Tree
lookup key end = none
lookup key (field k t fields) = if str_eq k key then some t else lookup key fields

abbrev pub at : Tree → String → Result (Option Tree)
at (mapping fields) key = ok (lookup key fields)
at (sequence items) key = ok none
at t key = err (yaml_exception "bad subscript")

abbrev list_of : Items → List Tree
list_of nil = []
list_of (cons t items) = t ∷ list_of items

abbrev pub items : Tree → List Tree
items (sequence ts) = list_of ts
items t = []

abbrev pairs_of : Fields → List (Tree × Tree)
pairs_of end = []
pairs_of (field k t fields) = (scalar k, t) ∷ pairs_of fields

abbrev pub entries : Tree → List (Tree × Tree)
entries (mapping fields) = pairs_of fields
entries t = []

abbrev pub is_sequence : Tree → Bool
is_sequence (sequence ts) = true
is_sequence t = false

abbrev pub is_map : Tree → Bool
is_map (mapping fields) = true
is_map t = false

abbrev pub text : Tree → Result String
text (scalar s) = ok s
text t = err (yaml_exception "bad conversion")

abbrev natural : Tree → Result ℕ
natural (number n) = ok n
natural t = err (yaml_exception "bad conversion")

abbrev truth : Tree → Result Bool
truth (scalar s) = ok (str_eq s "true")
truth t = err (yaml_exception "bad conversion")

-- min: 20, and a connection that gives a maximum and a distribution that is not known
abbrev pub latency_tree : Tree
latency_tree = mapping (
    field "default" (mapping (field "min" (number 20) end)) (
      field "specific_connections"
        (sequence (
          cons
            (mapping (
              field "from" (scalar "a")
                (field "max" (number 90) (field "distribution" (scalar "zipf") end))))
            nil))
        end))

abbrev pub empty_tree : Tree
empty_tree = mapping end

abbrev document : Tree
document = mapping (
    field "nodes"
      (sequence (
        cons (mapping (field "id" (scalar "gateway") end)) (
          cons (mapping (field "template" (scalar "sensor") (field "count" (number 3) end)))
            (cons (mapping (field "id" (scalar "sink") end)) nil))))
      end)

abbrev mesh_node : String → Tree
mesh_node id = mapping (
    field "id" (scalar id) (
      field "config"
        (mapping
          (field "mesh_prefix" (scalar "mesh") (field "mesh_password" (scalar "secret") end)))
        end))

-- A scenario that is valid, with two nodes.
abbrev pair_document : Tree
pair_document = mapping (
    field "simulation" (mapping (field "name" (scalar "pair") end))
      (field "nodes" (sequence (cons (mesh_node "gateway") (cons (mesh_node "sink") nil))) end))

instance abbrev pub tree_yaml : Yaml
tree_yaml = record {
  Node = Tree;
  load = λ content.
      if str_eq content "nodes"
      then ok document
      else if str_eq content "pair"
      then ok pair_document
      else err (yaml_exception "unexpected character");
  at = at;
  is_sequence = is_sequence;
  is_map = is_map;
  items = items;
  entries = entries;
  as_string = text;
  as_uint16 = natural;
  as_uint32 = natural;
  as_uint64 = natural;
  as_int = λ t. natural t >>= λ n. ok (pos n);
  as_float = natural;
  as_bool = truth;
}
