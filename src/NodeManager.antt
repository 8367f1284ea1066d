-- ===== src/NodeManager.antt =====
-- The node manager, src/core/node_manager.cpp. Its nodes are held in a map by identifier; the task
-- scheduler and the I/O context belong to other libraries.
pub mod Invariant
pub mod Operations
pub mod Connectivity
use Prim.Native.String.{◌++◌ as ◌+++◌}
use painless_mesh_simulator.Text.{to_string}
use painless_mesh_simulator.Prelude.{
  ℕ, zero, suc, ◌+◌, ◌%◌, String, Bool, true, false, not, List, [], ◌∷◌, Option, none, some, map,
  ◌++◌, str_eq, ◌==◌, leb, if◌then◌else◌, length, get_elem?,
}
use painless_mesh_simulator.Result.{
  Exception, invalid_argument, runtime_error, Result, ok, err, require, ◌>>=◌, ◌>>◌, Step,
}
use painless_mesh_simulator.Platform.{Platform}
use painless_mesh_simulator.Devices.{Devices}
use painless_mesh_simulator.StdMap
use painless_mesh_simulator.StdMap.{StdMap, ℕ_key}
use painless_mesh_simulator.Node.{
  VirtualNode, NodeConfig, virtual_node, start, stop, update, connect_to, load_firmware,
}

abbrev pub max_nodes : ℕ
max_nodes = 1000

module _ ⦃p : Platform⦄ ⦃d : Devices⦄ where
  pub record NodeManager : Type 0 where
    pub nodes : StdMap ℕ VirtualNode

  unfoldable pub node_manager : NodeManager
  node_manager = record { nodes = [] }

  -- The node as `createNode` stores it: a firmware that cannot be created is left out.
  unfoldable pub with_config_firmware : NodeConfig → VirtualNode → VirtualNode
  with_config_firmware config node =
      if str_eq config.firmware "" then node else (load_firmware config.firmware node).1

  unfoldable pub create_node : NodeConfig → ℕ → NodeManager → Result (VirtualNode × NodeManager)
  create_node config now manager = do
    require (not (config.node_id == 0)) (invalid_argument "Node ID must be non-zero")
    require (not (StdMap.contains config.node_id manager.nodes))
        (runtime_error ("Node ID already exists: " +++ to_string config.node_id))
    require (not (leb max_nodes (length manager.nodes)))
        (runtime_error ("Maximum node count reached: " +++ to_string max_nodes))
    created ← virtual_node config.node_id config true now
    let node = with_config_firmware config created
    ok (node, record manager { nodes = StdMap.insert config.node_id node manager.nodes })

  -- `none` is `false`; else the node that was removed, as the call leaves it.
  unfoldable pub remove_node : ℕ → ℕ → NodeManager → Option VirtualNode × NodeManager
  remove_node node_id now manager = elim (StdMap.find node_id manager.nodes) [
    | none ↦ (none, manager)
    | some node ↦ (
      some (if node.running then stop now node else node),
      record manager { nodes = StdMap.erase node_id manager.nodes },
    )
  ]

  unfoldable pub start_if_stopped : ℕ → Step VirtualNode
  start_if_stopped now node = if node.running then (ok tt, node) else start now node

  -- The loop of `startAll`, in the order of the identifiers; an exception ends it.
  unfoldable pub start_nodes : ℕ → Step (StdMap ℕ VirtualNode)
  start_nodes now [] = (ok tt, [])
  start_nodes now ((id, node) ∷ rest) =
      let (result, node') = start_if_stopped now node in
      let (later, rest') = start_nodes now rest in
      elim result [ ok u ↦ (later, (id, node') ∷ rest') | err e ↦ (err e, (id, node') ∷ rest) ]

  unfoldable pub start_all : ℕ → Step NodeManager
  start_all now manager =
      let (result, nodes) = start_nodes now manager.nodes in
      (result, record manager { nodes = nodes })

  abbrev pub on_nodes : (VirtualNode → VirtualNode) → NodeManager → NodeManager
  on_nodes f manager = record manager { nodes = map (λ e. (e.0, f e.1)) manager.nodes }

  -- `stop` does nothing to a node that does not run.
  unfoldable pub stop_all : ℕ → NodeManager → NodeManager
  stop_all now = on_nodes (λ node. if node.running then stop now node else node)

  -- Between the tasks of the scheduler and the poll of the I/O context.
  unfoldable pub update_all : NodeManager → NodeManager
  update_all = on_nodes update

  unfoldable pub get_node : ℕ → NodeManager → Option VirtualNode
  get_node node_id manager = StdMap.find node_id manager.nodes

  -- `node->f()` on the node that `getNode` gives, if any.
  unfoldable pub set_node : ℕ → VirtualNode → NodeManager → NodeManager
  set_node node_id node manager = record manager {
    nodes = StdMap.insert node_id node manager.nodes;
  }

  unfoldable pub get_node_count : NodeManager → ℕ
  get_node_count manager = length manager.nodes

  unfoldable get_node_ids : NodeManager → List ℕ
  get_node_ids manager = StdMap.keys manager.nodes

  unfoldable get_all_nodes : NodeManager → List VirtualNode
  get_all_nodes manager = map (λ e. e.1) manager.nodes

  unfoldable has_node : ℕ → NodeManager → Bool
  has_node node_id manager = StdMap.contains node_id manager.nodes

  -- The loop of `establishConnectivity`: `before` are the nodes at the positions below that of the
  -- next one, and `rand i` is what `std::rand` gives at position i. The first node connects to none.
  unfoldable pub connect_nodes :
      (ℕ → ℕ)
      → StdMap ℕ VirtualNode
      → StdMap ℕ VirtualNode
      → Result (Unit {0}) × StdMap ℕ VirtualNode
  connect_nodes rand before [] = (ok tt, before)
  connect_nodes rand before ((id, node) ∷ rest) =
      let i = length before in
      elim (get_elem? before (rand i % i)) [
        | none ↦ connect_nodes rand (before ++ (id, node) ∷ []) rest
        | some target ↦ elim (connect_to target.1 node) [
          | ok node' ↦ connect_nodes rand (before ++ (id, node') ∷ []) rest
          | err e ↦ (err e, before ++ (id, node) ∷ rest)
        ]
      ]

  unfoldable pub establish_connectivity : (ℕ → ℕ) → Step NodeManager
  establish_connectivity rand manager =
      let (result, nodes) = connect_nodes rand [] manager.nodes in
      (result, record manager { nodes = nodes })
