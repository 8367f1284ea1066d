-- ===== src/Scenario/Reader/Sections.antt =====
-- The other sections of a scenario file: `parseSimulation`, `parseTopology`, `parseEvent` and
-- `parseMetrics`. A literal such as 0.3f is the quotient of 3 and 10, which is rounded the same way.
use painless_mesh_simulator.Prelude.{ℕ, String, true, List, [], ◌∷◌, ◌++◌, if◌then◌else◌}
use painless_mesh_simulator.Platform.{Platform}
use painless_mesh_simulator.Result.{Result, ok, ◌>>=◌}
use painless_mesh_simulator.Scenario.{SimulationConfig, TopologyConfig, EventConfig, MetricsConfig}
use painless_mesh_simulator.Scenario.Reader.Yaml.{
  Yaml, get_string, get_uint32, get_float, get_bool, get_optional, sequence_at, read_each,
}
use painless_mesh_simulator.Scenario.Reader.Names.{string_to_topology_type, string_to_event_action}

module _ ⦃p : Platform⦄ ⦃y : Yaml⦄ where
  abbrev tenths : ℕ → p.Float
  tenths n = p.float.div (p.float.of_ℕ n) (p.float.of_ℕ 10)

  unfoldable pub parse_simulation : y.Node → Result SimulationConfig
  parse_simulation node = do
    name ← get_string node "name" ""
    description ← get_string node "description" ""
    duration ← get_uint32 node "duration" 0
    time_scale ← get_float node "time_scale" (p.float.of_ℕ 1)
    seed ← get_uint32 node "seed" 0
    ok (record {
      name = name;
      description = description;
      duration = duration;
      time_scale = time_scale;
      seed = seed;
    })

  -- An item of the connections: a pair, or nothing where the item is no sequence of two or more.
  unfoldable connection_of : List y.Node → Result (List (String × String))
  connection_of (first ∷ second ∷ others) = do
    from ← y.as_string first
    to ← y.as_string second
    ok ((from, to) ∷ [])
  connection_of items = ok []

  unfoldable pub parse_connections : List y.Node → Result (List (String × String))
  unfolding connection_of
  parse_connections [] = ok []
  parse_connections (conn ∷ connections) = do
    read ← connection_of (if y.is_sequence conn then y.items conn else [])
    rest ← parse_connections connections
    ok (read ++ rest)

  unfoldable pub parse_topology : y.Node → Result TopologyConfig
  parse_topology node = do
    type_str ← get_string node "type" "random"
    hub ← get_optional y.as_string node "hub"
    density ← get_float node "density" (tenths 3)
    bidirectional ← get_bool node "bidirectional" true
    items ← sequence_at node "connections"
    connections ← parse_connections items
    ok (record {
      topology_type = string_to_topology_type type_str;
      hub = hub;
      density = density;
      bidirectional = bidirectional;
      connections = connections;
    })

  -- The groups of a partition; an item that is no sequence is left out.
  unfoldable pub parse_groups : List y.Node → Result (List (List String))
  parse_groups [] = ok []
  parse_groups (group ∷ groups) =
      if y.is_sequence group
      then (read_each y.as_string (y.items group) >>= λ nodes.
          parse_groups groups >>= λ rest. ok (nodes ∷ rest))
      else parse_groups groups

  unfoldable pub parse_event : y.Node → Result EventConfig
  parse_event node = do
    time ← get_uint32 node "time" 0
    action_str ← get_string node "action" ""
    action ← string_to_event_action action_str
    target ← get_string node "target" ""
    description ← get_string node "description" ""
    from ← get_string node "from" ""
    to ← get_string node "to" ""
    payload ← get_string node "payload" ""
    quality ← get_float node "quality" (p.float.of_ℕ 1)
    count ← get_uint32 node "count" 0
    template_name ← get_string node "template" ""
    id_prefix ← get_string node "id_prefix" ""
    graceful ← get_bool node "graceful" true
    delay ← get_uint32 node "delay" 0
    latency ← get_uint32 node "latency" 500
    packet_loss ← get_float node "packet_loss" (tenths 3)
    target_items ← sequence_at node "targets"
    targets ← read_each y.as_string target_items
    group_items ← sequence_at node "groups"
    groups ← parse_groups group_items
    ok (record {
      time = time;
      action = action;
      target = target;
      targets = targets;
      description = description;
      groups = groups;
      from = from;
      to = to;
      payload = payload;
      quality = quality;
      count = count;
      template_name = template_name;
      id_prefix = id_prefix;
      graceful = graceful;
      delay = delay;
      latency = latency;
      packet_loss = packet_loss;
    })

  unfoldable pub parse_metrics : y.Node → Result MetricsConfig
  parse_metrics node = do
    output ← get_string node "output" ""
    interval ← get_uint32 node "interval" 5
    metrics ← sequence_at node "collect"
    collect ← read_each y.as_string metrics
    formats ← sequence_at node "export"
    export_formats ← read_each y.as_string formats
    ok (record {
      output = output;
      interval = interval;
      collect = collect;
      export_formats = export_formats;
    })
