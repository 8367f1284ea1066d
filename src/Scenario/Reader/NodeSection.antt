-- ===== src/Scenario/Reader/NodeSection.antt =====
-- The nodes section of a scenario file, `parseNode` and `parseTemplate`.
use Prim.Native.String.{◌++◌}
use painless_mesh_simulator.Prelude.{
  ℕ, String, Bool, ◌||◌, List, [], ◌∷◌, none, some, str_eq, if◌then◌else◌,
}
use painless_mesh_simulator.Platform.{Platform}
use painless_mesh_simulator.Result.{Result, ok, ◌>>=◌}
use painless_mesh_simulator.TextMap
use painless_mesh_simulator.TextMap.{TextMap}
use painless_mesh_simulator.Scenario.{NodeConfigExtended, NodeTemplate}
use painless_mesh_simulator.Scenario.Templates.{generate_node_id}
use painless_mesh_simulator.Scenario.Reader.Yaml.{
  Yaml, get_string, get_uint16, get_uint32, get_optional, sequence_at, read_each,
}

unfoldable pub node_default : NodeConfigExtended
node_default = record {
  id = "";
  node_id = 0;
  node_type = "";
  firmware = "";
  position = [];
  mesh_prefix = "";
  mesh_password = "";
  mesh_port = 5555;
  firmware_config = [];
  sensor_interval = none;
  mqtt_broker = none;
  mqtt_port = none;
  mqtt_topic_prefix = none;
}

abbrev is_mesh_key : String → Bool
is_mesh_key key = str_eq key "mesh_prefix" || str_eq key "mesh_password" || str_eq key "mesh_port"

module _ ⦃p : Platform⦄ ⦃y : Yaml⦄ where
  -- The loop over the entries of the config section, which leaves out the fields of the mesh.
  unfoldable pub firmware_entries : List (y.Node × y.Node) → TextMap → Result TextMap
  firmware_entries [] m = ok m
  firmware_entries ((first, second) ∷ entries) m = y.as_string first >>= λ key.
      if is_mesh_key key
      then firmware_entries entries m
      else (y.as_string second >>= λ value. firmware_entries entries (TextMap.insert key value m))

  -- The config section of a node or a template, which `config` gets.
  unfoldable pub parse_config_section : y.Node → NodeConfigExtended → Result NodeConfigExtended
  parse_config_section cfg config = do
    mesh_prefix ← get_string cfg "mesh_prefix" ""
    mesh_password ← get_string cfg "mesh_password" ""
    mesh_port ← get_uint16 cfg "mesh_port" 5555
    firmware_config ← firmware_entries (y.entries cfg) config.firmware_config
    sensor_interval ← get_optional y.as_uint32 cfg "sensor_interval"
    mqtt_broker ← get_optional y.as_string cfg "mqtt_broker"
    mqtt_port ← get_optional y.as_uint16 cfg "mqtt_port"
    mqtt_topic_prefix ← get_optional y.as_string cfg "mqtt_topic_prefix"
    ok (record config {
      mesh_prefix = mesh_prefix;
      mesh_password = mesh_password;
      mesh_port = mesh_port;
      firmware_config = firmware_config;
      sensor_interval = sensor_interval;
      mqtt_broker = mqtt_broker;
      mqtt_port = mqtt_port;
      mqtt_topic_prefix = mqtt_topic_prefix;
    })

  unfoldable pub with_config_section : y.Node → NodeConfigExtended → Result NodeConfigExtended
  with_config_section node config = do
    found ← y.at node "config"
    elim found [ none ↦ ok config | some cfg ↦ parse_config_section cfg config ]

  unfoldable pub parse_node : (String → ℕ) → y.Node → Result NodeConfigExtended
  parse_node hash node = do
    id ← get_string node "id" ""
    node_type ← get_string node "type" ""
    firmware ← get_string node "firmware" ""
    places ← sequence_at node "position"
    position ← read_each y.as_int places
    with_config_section node (record node_default {
      id = id;
      node_id = generate_node_id hash id;
      node_type = node_type;
      firmware = firmware;
      position = position;
    })

  unfoldable pub parse_template : y.Node → Result NodeTemplate
  parse_template node = do
    template_name ← get_string node "template" ""
    count ← get_uint32 node "count" 1
    id_prefix ← get_string node "id_prefix" (template_name ++ "-")
    firmware ← get_string node "firmware" ""
    base_config ←
        with_config_section node
          (record node_default { firmware = firmware; node_type = template_name })
    ok (record {
      template_name = template_name;
      count = count;
      id_prefix = id_prefix;
      base_config = base_config;
    })
