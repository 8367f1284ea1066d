-- ===== src/Program/Launch.antt =====
-- When the program creates all nodes of a scenario.
use painless_mesh_simulator.Prelude.{
  ℕ, suc, ◌+◌, ◌≤◌, ◌<◌, ◌≡◌, ◌≢◌, refl, ◌∙◌, inl, inr, true, false, List, [], ◌∷◌, none, some,
  length, String, All, arith, Bool-cases, if◌then◌else◌,
}
use painless_mesh_simulator.Result.{ok, Result-cases}
use painless_mesh_simulator.Platform.{Platform}
use painless_mesh_simulator.Devices.{Devices}
use painless_mesh_simulator.StdMap
use painless_mesh_simulator.StdMap.{StdMap, ℕ_key, same}
use painless_mesh_simulator.StdMap.Laws.{find-insert, find-insert_self, eq_of_same}
use painless_mesh_simulator.Node.{VirtualNode, NodeConfig, virtual_node}
use painless_mesh_simulator.NodeManager.{
  NodeManager, node_manager, max_nodes, create_node, with_config_firmware, get_node, get_node_count,
}
use painless_mesh_simulator.NodeManager.Operations.{create_node_lem}
use painless_mesh_simulator.Scenario.{NodeConfigExtended, ScenarioConfig}
use painless_mesh_simulator.Scenario.Validation.{get_validation_errors}
use painless_mesh_simulator.Cli.{CliOptions}
use painless_mesh_simulator.Program.{
  prepare_scenario, node_config, create_nodes, exits, runs, launch_nodes, launch, launch_scenario,
}

-- The identifiers are different from this one.
abbrev Apart : ℕ → List NodeConfigExtended → Type 0
Apart id configs = All (λ (c : NodeConfigExtended). c.node_id ≢ id) configs

-- No numeric identifier is 0 and none stands twice.
abbrev pub HaveIds : List NodeConfigExtended → Type 0
HaveIds [] = Unit
HaveIds (c ∷ configs) = (c.node_id ≢ 0) × Apart c.node_id configs × HaveIds configs

module _ ⦃p : Platform⦄ ⦃d : Devices⦄ where
  -- The node is there.
  abbrev pub Has : ℕ → NodeManager → Type 0
  Has id manager = (node : VirtualNode) × (get_node id manager ≡ some node)

  virtual_node-returns :
      (id : ℕ) (config : NodeConfig) (now : ℕ)
      → id ≢ 0
      → d.mesh_error id ≡ none
      → (made : VirtualNode) × (virtual_node id config true now ≡ ok made)
  unfolding virtual_node
  virtual_node-returns id config now nonzero mesh =
      elim (Result-cases (virtual_node id config true now)) [
        | inl found ↦ found
        | inr (x, e) ↦ absurd (ground (arith, mesh, e))
      ]

  create_node-returns :
      (c : NodeConfig) (now : ℕ) (manager : NodeManager)
      → c.node_id ≢ 0
      → d.mesh_error c.node_id ≡ none
      → get_node c.node_id manager ≡ none
      → get_node_count manager < max_nodes
      → (node : VirtualNode) × (create_node c now manager
          ≡ ok (node, record manager { nodes = StdMap.insert c.node_id node manager.nodes }))
  unfolding create_node get_node get_node_count StdMap.contains
  create_node-returns c now manager nonzero mesh fresh room =
      let (made, e) = virtual_node-returns c.node_id c now nonzero mesh in
      (with_config_firmware c made, ground (arith, e))

  length-insert_fresh :
      (k : ℕ) (v : VirtualNode) (m : StdMap ℕ VirtualNode)
      → StdMap.find k m ≡ none
      → length (StdMap.insert k v m) ≡ suc (length m)
  unfolding StdMap.find StdMap.insert
  length-insert_fresh k v [] h = refl
  length-insert_fresh k v ((j, w) ∷ m) h = ground (arith, length-insert_fresh k v m)

  get-insert_ne :
      (j k : ℕ) (v : VirtualNode) (manager : NodeManager)
      → j ≢ k
      → get_node j (record manager { nodes = StdMap.insert k v manager.nodes }) ≡ get_node j manager
  unfolding get_node
  get-insert_ne j k v manager ne =
      ground (arith, ne, eq_of_same {K = ℕ} j k, find-insert {K = ℕ} j k v manager.nodes)

  Has-insert :
      (j k : ℕ) (v : VirtualNode) (manager : NodeManager)
      → Has j manager
      → Has j (record manager { nodes = StdMap.insert k v manager.nodes })
  unfolding get_node
  Has-insert j k v manager (node, e) = elim (Bool-cases (same {K = ℕ} j k)) [
    | inl t ↦ (v, ground (arith, t, find-insert {K = ℕ} j k v manager.nodes))
    | inr t ↦ (node, ground (arith, t, e, find-insert {K = ℕ} j k v manager.nodes))
  ]

  Has-new :
      (k : ℕ) (v : VirtualNode) (manager : NodeManager)
      → Has k (record manager { nodes = StdMap.insert k v manager.nodes })
  unfolding get_node
  Has-new k v manager = (v, find-insert_self {K = ℕ} k v manager.nodes)

  still_fresh :
      (k : ℕ) (v : VirtualNode) (manager : NodeManager) (configs : List NodeConfigExtended)
      → Apart k configs
      → All (λ c. get_node c.node_id manager ≡ none) configs
      → All
          (λ c.
            get_node c.node_id (record manager { nodes = StdMap.insert k v manager.nodes }) ≡ none)
          configs
  still_fresh k v manager [] a f = tt
  still_fresh k v manager (c ∷ configs) (a, as') (f, fs) =
      (get-insert_ne c.node_id k v manager a ∙ f, still_fresh k v manager configs as' fs)

  -- The nodes of a list were added to a manager.
  pub record Added (configs : List NodeConfigExtended) (manager manager' : NodeManager)
      : Type 0 where
    pub count : get_node_count manager' ≡ get_node_count manager + length configs
    pub added : All (λ c. Has c.node_id manager') configs
    pub kept : (id : ℕ) → Has id manager → Has id manager'

  create_nodes-Added :
      (clock : ℕ → ℕ) (configs : List NodeConfigExtended) (manager : NodeManager)
      → HaveIds configs
      → All (λ c. d.mesh_error c.node_id ≡ none) configs
      → All (λ c. get_node c.node_id manager ≡ none) configs
      → get_node_count manager + length configs ≤ max_nodes
      → (manager' : NodeManager) × (create_nodes clock configs manager ≡ ok manager')
        × Added configs manager manager'
  unfolding create_nodes node_config get_node_count StdMap.find get_node
  create_nodes-Added clock [] manager ids meshes fresh room =
      (manager, refl, record { count = omega arith; added = tt; kept = λ id h. h })
  create_nodes-Added clock (c ∷ configs) manager (nonzero, apart, ids) (mesh, meshes) (new, fresh)
        room =
      let (node, e) =
        create_node-returns (node_config c) (clock 0) manager nonzero mesh new (omega arith) in
      let manager1 : NodeManager = record { nodes = StdMap.insert c.node_id node manager.nodes } in
      let longer = length-insert_fresh c.node_id node manager.nodes new in
      let (manager', rest, a) =
        create_nodes-Added (λ i. clock (suc i)) configs manager1 ids meshes
          (still_fresh c.node_id node manager configs apart fresh) (omega (arith, longer)) in
      (
        manager',
        rw (create_nodes, e) rest,
        record {
          count = omega (arith, a.count, longer);
          added = (a.kept c.node_id (Has-new c.node_id node manager), a.added);
          kept = λ id h. a.kept id (Has-insert id c.node_id node manager h);
        },
      )

  -- A node that is found under one identifier, and not under another.
  different_ids :
      (j k : ℕ) (node : VirtualNode) (manager manager' : NodeManager)
      → get_node j manager' ≡ (if same {K = ℕ} j k then some node else get_node j manager)
      → get_node j manager' ≡ none
      → (j ≢ k) × (get_node j manager ≡ none)
  different_ids j k node manager manager' law h = elim (Bool-cases (same {K = ℕ} j k)) [
    | inl t ↦ absurd (ground (arith, t, law, h))
    | inr t ↦ ((λ e. ground (arith, e, t)), ground (arith, t, law, h))
  ]

  new_ids-Apart :
      (k : ℕ) (node : VirtualNode) (manager manager' : NodeManager)
      (configs : List NodeConfigExtended)
      → ((j : ℕ)
          → get_node j manager' ≡ (if same {K = ℕ} j k then some node else get_node j manager))
      → All (λ c. get_node c.node_id manager' ≡ none) configs
      → Apart k configs × All (λ c. get_node c.node_id manager ≡ none) configs
  new_ids-Apart k node manager manager' [] law fresh = (tt, tt)
  new_ids-Apart k node manager manager' (c ∷ configs) law (f, fs) =
      let (ne, old) = different_ids c.node_id k node manager manager' (law c.node_id) f in
      let (apart, olds) = new_ids-Apart k node manager manager' configs law fs in
      ((ne, apart), (old, olds))

  pub create_nodes-HaveIds :
      (clock : ℕ → ℕ) (configs : List NodeConfigExtended) (manager manager' : NodeManager)
      → create_nodes clock configs manager ≡ ok manager'
      → HaveIds configs × All (λ c. get_node c.node_id manager ≡ none) configs
  unfolding create_nodes node_config
  create_nodes-HaveIds clock [] manager manager' e = (tt, tt)
  create_nodes-HaveIds clock (c ∷ configs) manager manager' e =
      elim (Result-cases (create_node (node_config c) (clock 0) manager)) [
        | inl ((node, manager1), r) ↦
            let (nonzero, new, _, law) =
              create_node_lem (node_config c) (clock 0) manager node manager1 r in
            let later : create_nodes (λ i. clock (suc i)) configs manager1 ≡ ok manager' =
              ground (arith, e, r) in
            let (ids, fresh) =
              create_nodes-HaveIds (λ i. clock (suc i)) configs manager1 manager' later in
            let (apart, olds) = new_ids-Apart c.node_id node manager manager1 configs law fresh in
            ((nonzero, apart, ids), (new, olds))
        | inr (x, r) ↦ absurd (ground (arith, e, r))
      ]

  launch_nodes-runs :
      (clock : ℕ → ℕ) (configs : List NodeConfigExtended) (manager : NodeManager)
      → create_nodes clock configs node_manager ≡ ok manager
      → launch_nodes clock configs ≡ runs manager
  unfolding launch_nodes
  launch_nodes-runs clock configs manager e = rw (e, launch_nodes) refl

  launch_nodes-exits :
      (clock : ℕ → ℕ) (configs : List NodeConfigExtended)
      → ¬ HaveIds configs
      → launch_nodes clock configs ≡ exits 1
  unfolding launch_nodes
  launch_nodes-exits clock configs n =
      elim (Result-cases (create_nodes clock configs node_manager)) [
        | inl (manager, e) ↦
            absurd (n (create_nodes-HaveIds clock configs node_manager manager e).0)
        | inr (x, e) ↦ rw (e, launch_nodes) refl
      ]

  node_manager-fresh :
      (configs : List NodeConfigExtended)
      → All (λ c. get_node c.node_id node_manager ≡ none) configs
  unfolding get_node node_manager StdMap.find
  node_manager-fresh [] = tt
  node_manager-fresh (c ∷ configs) = (refl, node_manager-fresh configs)

  -- The program is started without --help, --version and --validate-only.
  pub record Runs (options : CliOptions) : Type 0 where
    pub help : options.help ≡ false
    pub version : options.version ≡ false
    pub validate_only : options.validate_only ≡ false

  launch-nodes :
      (hash : String → ℕ) (clock : ℕ → ℕ) (options : CliOptions) (loaded config : ScenarioConfig)
      → prepare_scenario hash options loaded ≡ config
      → Runs options
      → get_validation_errors config ≡ []
      → launch hash clock options (some loaded) ≡ launch_nodes clock config.nodes
  unfolding launch launch_scenario
  launch-nodes hash clock options loaded config e r valid =
      ground (arith, r.help, r.version, r.validate_only, e, valid)

  -- A scenario that the program loads and that has, prepared, no validation errors, at most 1000 nodes
  -- with numeric identifiers that differ and are not 0, and a mesh for each, makes the program go on
  -- with a node manager that has all these nodes and no others. (Without --help, --version and
  -- --validate-only.)
  pub launch_creates_nodes :
      (hash : String → ℕ) (clock : ℕ → ℕ) (options : CliOptions) (loaded config : ScenarioConfig)
      → prepare_scenario hash options loaded ≡ config
      → Runs options
      → get_validation_errors config ≡ []
      → HaveIds config.nodes
      → All (λ c. d.mesh_error c.node_id ≡ none) config.nodes
      → length config.nodes ≤ max_nodes
      → (manager : NodeManager) × (launch hash clock options (some loaded) ≡ runs manager)
        × (get_node_count manager ≡ length config.nodes)
        × All (λ c. Has c.node_id manager) config.nodes
  unfolding get_node_count node_manager
  launch_creates_nodes hash clock options loaded config e r valid ids meshes room =
      let (manager, created, a) =
        create_nodes-Added clock config.nodes node_manager ids meshes
          (node_manager-fresh config.nodes) (omega (arith, room)) in
      (
        manager,
        launch-nodes hash clock options loaded config e r valid
            ∙ launch_nodes-runs clock config.nodes manager created,
        omega (arith, a.count),
        a.added,
      )

  -- A scenario without validation errors, in which two nodes have the same numeric identifier or one
  -- has 0, makes the program return 1: the validation compares the texts of the identifiers, and
  -- different texts may have the same hash. (Without --help, --version and --validate-only.)
  pub launch_exits_on_collision :
      (hash : String → ℕ) (clock : ℕ → ℕ) (options : CliOptions) (loaded config : ScenarioConfig)
      → prepare_scenario hash options loaded ≡ config
      → Runs options
      → get_validation_errors config ≡ []
      → ¬ HaveIds config.nodes
      → launch hash clock options (some loaded) ≡ exits 1
  launch_exits_on_collision hash clock options loaded config e r valid n =
      launch-nodes hash clock options loaded config e r valid
      ∙ launch_nodes-exits clock config.nodes n
