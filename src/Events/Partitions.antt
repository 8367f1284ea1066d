-- ===== src/Events/Partitions.antt =====
-- Network partitions: the connections that a partition drops and the marks it leaves on the nodes.
use painless_mesh_simulator.Prelude.{
  ℕ, suc, ◌+◌, ◌∙◌, ap, ◌≡◌, refl, Bool, false, not, ◌&&◌, ◌||◌, List, [], ◌∷◌, Option, none, some,
  arith, Option-cases, inl, inr, ◌==◌, cast32, if◌then◌else◌,
}
use painless_mesh_simulator.Result.{ok}
use painless_mesh_simulator.Platform.{Platform}
use painless_mesh_simulator.Devices.{Devices}
use painless_mesh_simulator.StdMap
use painless_mesh_simulator.StdMap.{StdMap, ℕ_key, same, pair_key}
use painless_mesh_simulator.StdMap.Laws.{find-insert, eq_of_same}
use painless_mesh_simulator.MinQueue.{MinQueue}
use painless_mesh_simulator.Network.State.{Network, DelayedMessage, delivery_key}
use painless_mesh_simulator.Network.Connections.{is_connection_active, drop_connection}
use painless_mesh_simulator.Network.Connections.Laws.{active-drop}
use painless_mesh_simulator.Node.{VirtualNode, set_partition_id}
use painless_mesh_simulator.NodeManager.{NodeManager, get_node, set_node}
use painless_mesh_simulator.Events.{
  network_partition, World, execute, drop_both, drop_to_group, drop_connections_between_groups,
  drop_to_groups, drop_groups, mark_node, mark_group, mark_groups,
}

-- The node is in the group.
abbrev member : ℕ → List ℕ → Bool
member a [] = false
member a (x ∷ xs) = (a == x) || member a xs

-- The node is in one of the groups.
abbrev in_some : ℕ → List (List ℕ) → Bool
in_some a [] = false
in_some a (group ∷ groups) = member a group || in_some a groups

-- Two groups at different positions have one of the nodes each.
abbrev pub across : ℕ → ℕ → List (List ℕ) → Bool
across a b [] = false
across a b (group ∷ groups) =
    (member a group && in_some b groups)
    || (member b group && in_some a groups)
    || across a b groups

-- The position, counted from i, of the last group that has the node.
abbrev pub last_group : ℕ → ℕ → List (List ℕ) → Option ℕ
last_group a i [] = none
last_group a i (group ∷ groups) = elim (last_group a (suc i) groups) [
  | some j ↦ some j
  | none ↦ if member a group then some i else none
]

-- The mark of a node whose last group is at this position.
abbrev pub marked : ⦃p : Platform⦄ ⦃d : Devices⦄ → Option ℕ → VirtualNode → VirtualNode
marked none node = node
marked (some i) node = set_partition_id (cast32 (i + 1)) node

module _ ⦃p : Platform⦄ ⦃d : Devices⦄ ⦃queues : MinQueue DelayedMessage delivery_key⦄ where
  active-drop_both :
      (a b x y : ℕ) (net : Network)
      → is_connection_active a b (drop_both x y net)
        ≡ not (((a == x) && (b == y)) || ((a == y) && (b == x))) && is_connection_active a b net
  unfolding drop_both
  active-drop_both a b x y net =
      ground (arith, active-drop a b y x (drop_connection x y net), active-drop a b x y net)

  active-drop_to_group :
      (a b x : ℕ) (group : List ℕ) (net : Network)
      → is_connection_active a b (drop_to_group x group net)
        ≡ not (((a == x) && member b group) || (member a group && (b == x)))
          && is_connection_active a b net
  unfolding drop_to_group
  active-drop_to_group a b x [] net = ground arith
  active-drop_to_group a b x (y ∷ group) net =
      ground
        (arith, active-drop_to_group a b x group (drop_both x y net), active-drop_both a b x y net)

  active-between :
      (a b : ℕ) (group1 group2 : List ℕ) (net : Network)
      → is_connection_active a b (drop_connections_between_groups group1 group2 net)
        ≡ not ((member a group1 && member b group2) || (member b group1 && member a group2))
          && is_connection_active a b net
  unfolding drop_connections_between_groups
  active-between a b [] group2 net = ground arith
  active-between a b (x ∷ group1) group2 net = ground (
    arith,
    active-between a b group1 group2 (drop_to_group x group2 net),
    active-drop_to_group a b x group2 net,
  )

  active-drop_to_groups :
      (a b : ℕ) (group : List ℕ) (groups : List (List ℕ)) (net : Network)
      → is_connection_active a b (drop_to_groups group groups net)
        ≡ not ((member a group && in_some b groups) || (member b group && in_some a groups))
          && is_connection_active a b net
  unfolding drop_to_groups
  active-drop_to_groups a b group [] net = ground arith
  active-drop_to_groups a b group (other ∷ groups) net = ground (
    arith,
    active-drop_to_groups a b group groups (drop_connections_between_groups group other net),
    active-between a b group other net,
  )

  active-drop_groups :
      (a b : ℕ) (groups : List (List ℕ)) (net : Network)
      → is_connection_active a b (drop_groups groups net)
        ≡ not (across a b groups) && is_connection_active a b net
  unfolding drop_groups
  active-drop_groups a b [] net = ground arith
  active-drop_groups a b (group ∷ groups) net = ground (
    arith,
    active-drop_groups a b groups (drop_to_groups group groups net),
    active-drop_to_groups a b group groups net,
  )

  abbrev pub mapped : (VirtualNode → VirtualNode) → Option VirtualNode → Option VirtualNode
  mapped f none = none
  mapped f (some node) = some (f node)

  get-mark_node :
      (a i x : ℕ) (manager : NodeManager)
      → get_node a (mark_node i x manager)
        ≡ mapped (marked (if a == x then some i else none)) (get_node a manager)
  unfolding mark_node get_node set_node
  get-mark_node a i x manager = elim (Option-cases (StdMap.find x manager.nodes)) [
    | inl e ↦ rw (e, mark_node, get_node) (ground (arith, e, eq_of_same {K = ℕ} a x))
    | inr (node, e) ↦
        rw (e, mark_node, get_node)
          (ground (
            arith,
            e,
            find-insert {K = ℕ} a x (set_partition_id (cast32 (i + 1)) node) manager.nodes,
          ))
  ]

  marked-marked :
      (h k : Option ℕ) (o : Option VirtualNode)
      → mapped (marked k) (mapped (marked h) o)
        ≡ mapped (marked (elim k [ some j ↦ some j | none ↦ h ])) o
  unfolding set_partition_id
  marked-marked h none none = refl
  marked-marked h (some j) none = refl
  marked-marked h none (some node) = refl
  marked-marked none (some j) (some node) = refl
  marked-marked (some i) (some j) (some node) = refl

  get-mark_group :
      (a i : ℕ) (group : List ℕ) (manager : NodeManager)
      → get_node a (mark_group i group manager)
        ≡ mapped (marked (if member a group then some i else none)) (get_node a manager)
  unfolding mark_group
  get-mark_group a i [] manager = ground arith
  get-mark_group a i (x ∷ group) manager =
      get-mark_group a i group (mark_node i x manager)
      ∙ ap (mapped (marked (if member a group then some i else none))) (get-mark_node a i x manager)
      ∙ marked-marked (if a == x then some i else none) (if member a group then some i else none)
          (get_node a manager)
      ∙ ap (λ o. mapped (marked o) (get_node a manager)) (ground arith)

  pub get-mark_groups :
      (a i : ℕ) (groups : List (List ℕ)) (manager : NodeManager)
      → get_node a (mark_groups i groups manager)
        ≡ mapped (marked (last_group a i groups)) (get_node a manager)
  unfolding mark_groups
  get-mark_groups a i [] manager = ground arith
  get-mark_groups a i (group ∷ groups) manager =
      get-mark_groups a (suc i) groups (mark_group i group manager)
      ∙ ap (mapped (marked (last_group a (suc i) groups))) (get-mark_group a i group manager)
      ∙ marked-marked _ (last_group a (suc i) groups) (get_node a manager)

  -- A partition never throws. After it a connection is active when it was and its two nodes do not
  -- stand in two different groups, in whichever direction. A node that the manager has gets the
  -- position of its last group, counted from 1, as its partition (a 32-bit number), a node in no group
  -- keeps its partition, and nothing else of a node changes.
  pub partition_isolates :
      (clock : ℕ × ℕ) (groups : List (List ℕ)) (world : World)
      → let (result, after) = execute clock (network_partition groups) world in
        (result ≡ ok tt)
        × ((a b : ℕ)
            → is_connection_active a b after.network
              ≡ not (across a b groups) && is_connection_active a b world.network)
        × ((a : ℕ)
            → get_node a after.manager
              ≡ mapped (marked (last_group a 0 groups)) (get_node a world.manager))
  unfolding execute
  partition_isolates clock groups world = (
    refl,
    (λ a b. active-drop_groups a b groups world.network),
    λ a. get-mark_groups a 0 groups world.manager,
  )
