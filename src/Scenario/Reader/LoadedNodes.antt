-- ===== src/Scenario/Reader/LoadedNodes.antt =====
-- The nodes and the templates of a scenario that was loaded.
use painless_mesh_simulator.Prelude.{
  ℕ, String, ◌+◌, ◌≡◌, List, [], ◌∷◌, Option, none, some, length, subst, sym, ap, arith,
}
use painless_mesh_simulator.Platform.{Platform}
use painless_mesh_simulator.Result.{Result, ok, err, ◌>>=◌, both_returned}
use painless_mesh_simulator.Scenario.{NodeConfigExtended, NodeTemplate, ScenarioConfig}
use painless_mesh_simulator.Scenario.Reader.Yaml.{Yaml, sequence_at, read_each}
use painless_mesh_simulator.Scenario.Reader.Chosen.{value_of}
use painless_mesh_simulator.Scenario.Reader.NetworkSection.{parse_network}
use painless_mesh_simulator.Scenario.Reader.NodeSection.{parse_node, parse_template}
use painless_mesh_simulator.Scenario.Reader.Sections.{
  parse_simulation, parse_topology, parse_event, parse_metrics,
}
use painless_mesh_simulator.Scenario.Reader.Loader.{
  add_item, parse_nodes, parse_root, section, handle, load_from_string, simulation_default,
  network_default, topology_default, metrics_default,
}

module _ ⦃p : Platform⦄ ⦃y : Yaml⦄ (hash : String → ℕ) where
  -- The items of the nodes section, one by one: an item with the key "template" is the next template,
  -- any other the next node.
  pub data Sorted : List y.Node → List NodeConfigExtended → List NodeTemplate → Type 0 where
    done : Sorted [] [] []
    node :
        (item : y.Node) {items : List y.Node} (n : NodeConfigExtended)
        {ns : List NodeConfigExtended} {ts : List NodeTemplate}
        → y.at item "template" ≡ ok none
        → parse_node hash item ≡ ok n
        → Sorted items ns ts
        → Sorted (item ∷ items) (n ∷ ns) ts
    template :
        (item name : y.Node) {items : List y.Node} (t : NodeTemplate) {ns : List NodeConfigExtended}
        {ts : List NodeTemplate}
        → y.at item "template" ≡ ok (some name)
        → parse_template item ≡ ok t
        → Sorted items ns ts
        → Sorted (item ∷ items) ns (t ∷ ts)

  item-Sorted :
      (item : y.Node) (items : List y.Node) (found : Option y.Node)
      (rest : Result (List NodeConfigExtended × List NodeTemplate))
      → ((r : List NodeConfigExtended × List NodeTemplate) → rest ≡ ok r → Sorted items r.0 r.1)
      → y.at item "template" ≡ ok found
      → (r : List NodeConfigExtended × List NodeTemplate) → add_item hash found item rest ≡ ok r
      → Sorted (item ∷ items) r.0 r.1
  unfolding add_item
  item-Sorted item items (some name) rest f e r h =
      let (t, e1, h1) = both_returned (parse_template item) _ h in
      let (others, e2, h2) = both_returned rest _ h1 in
      subst (λ r. Sorted (item ∷ items) r.0 r.1) (sym (value_of h2))
        (template item name t e e1 (f others e2))
  item-Sorted item items none rest f e r h =
      let (n, e1, h1) = both_returned (parse_node hash item) _ h in
      let (others, e2, h2) = both_returned rest _ h1 in
      subst (λ r. Sorted (item ∷ items) r.0 r.1) (sym (value_of h2))
        (node item n e e1 (f others e2))

  parse_nodes-Sorted :
      (items : List y.Node) (r : List NodeConfigExtended × List NodeTemplate)
      → parse_nodes hash items ≡ ok r
      → Sorted items r.0 r.1
  unfolding parse_nodes
  parse_nodes-Sorted [] r h = subst (λ r. Sorted [] r.0 r.1) (sym (value_of h)) done
  parse_nodes-Sorted (item ∷ items) r h =
      let (found, e, h1) = both_returned (y.at item "template") _ h in
      item-Sorted item items found (parse_nodes hash items) (parse_nodes-Sorted items) e r h1

  Sorted-length :
      {items : List y.Node} {ns : List NodeConfigExtended} {ts : List NodeTemplate}
      → Sorted items ns ts
      → length ns + length ts ≡ length items
  Sorted-length done = omega arith
  Sorted-length (node item n e h s) = omega (arith, Sorted-length s)
  Sorted-length (template item name t e h s) = omega (arith, Sorted-length s)

  parse_root-nodes :
      (root : y.Node) (config : ScenarioConfig)
      → parse_root hash root ≡ ok config
      → (items : List y.Node) × (sequence_at root "nodes" ≡ ok items)
        × (parse_nodes hash items ≡ ok (config.nodes, config.templates))
  unfolding parse_root
  parse_root-nodes root config h =
      let (simulation, _, h1) =
        both_returned (section parse_simulation root "simulation" simulation_default) _ h in
      let (network, _, h2) =
        both_returned (section parse_network root "network" network_default) _ h1 in
      let (items, e3, h3) = both_returned (sequence_at root "nodes") _ h2 in
      let (nodes, e4, h4) = both_returned (parse_nodes hash items) _ h3 in
      let (topology, _, h5) =
        both_returned (section parse_topology root "topology" topology_default) _ h4 in
      let (event_items, _, h6) = both_returned (sequence_at root "events") _ h5 in
      let (events, _, h7) = both_returned (read_each parse_event event_items) _ h6 in
      let (metrics, _, h8) =
        both_returned (section parse_metrics root "metrics" metrics_default) _ h7 in
      (
        items,
        e3,
        subst (λ c. parse_nodes hash items ≡ ok (c.nodes, c.templates)) (sym (value_of h8)) e4,
      )

  some_of : {A : Type 0} {a b : A} → some a ≡ some b → a ≡ b
  some_of h = cc

  loaded :
      (r : Result ScenarioConfig) (last_error after : String) (config : ScenarioConfig)
      → handle last_error r ≡ (some config, after)
      → (r ≡ ok config) × (after ≡ last_error)
  unfolding handle
  loaded (ok c) last_error after config h =
      (ap ok (some_of (ap (λ t. t.0) h)), ap (λ t. t.1) (sym h))
  loaded (err e) last_error after config h = absurd (none_some (ap (λ t. t.0) h))
    where
      none_some : none ≡ some config → ⊥
      none_some h = cc

  -- When a text is loaded, the last error is kept, and the items under "nodes" have become the nodes
  -- and the templates of the scenario, each item one of the two and both in the order of the file: an
  -- item with the key "template" was read as a template, any other as a node.
  pub loaded_nodes :
      (yaml_content last_error after : String) (config : ScenarioConfig)
      → load_from_string hash yaml_content last_error ≡ (some config, after)
      → (after ≡ last_error)
        × ((root : y.Node) × (items : List y.Node) × (y.load yaml_content ≡ ok root)
            × (sequence_at root "nodes" ≡ ok items)
            × Sorted items config.nodes config.templates
            × (length config.nodes + length config.templates ≡ length items))
  unfolding load_from_string
  loaded_nodes yaml_content last_error after config h =
      let (read, kept) =
        loaded (y.load yaml_content >>= λ root. parse_root hash root) last_error after config h in
      let (root, e, parsed) = both_returned (y.load yaml_content) _ read in
      let (items, at_nodes, nodes) = parse_root-nodes root config parsed in
      let sorted = parse_nodes-Sorted items _ nodes in
      (kept, (root, items, e, at_nodes, sorted, Sorted-length sorted))
