-- ===== src/NodeManager/Operations.antt =====
-- Every operation of the node manager keeps its invariant, and what `createNode` checks.
use painless_mesh_simulator.Prelude.{
  ℕ, ◌<◌, ◌≡◌, ◌≢◌, true, List, [], ◌∷◌, none, some, arith, Option-cases, inl, inr, if◌then◌else◌,
}
use painless_mesh_simulator.Result.{ok, err, Result-cases}
use painless_mesh_simulator.Platform.{Platform}
use painless_mesh_simulator.Devices.{Devices}
use painless_mesh_simulator.StdMap
use painless_mesh_simulator.StdMap.{StdMap, ℕ_key, same}
use painless_mesh_simulator.StdMap.Laws.{insert-IsSorted, erase-IsSorted, find-insert}
use painless_mesh_simulator.Node.{VirtualNode, NodeConfig, virtual_node}
use painless_mesh_simulator.NodeManager.{
  NodeManager, max_nodes, create_node, with_config_firmware, remove_node, start_all, stop_all,
  update_all, establish_connectivity, node_manager, get_node, get_node_count,
}
use painless_mesh_simulator.NodeManager.Invariant.{
  IsValid, SameIds-IsValid, SameIds-map, start_nodes-SameIds, connect_nodes-SameIds, All-insert,
  length-insert-le, All-erase, length-erase-le, stop-id, update-id, create_node-id,
}

module _ ⦃p : Platform⦄ ⦃d : Devices⦄ where
  -- What a successful `createNode` has checked and done.
  pub record Created (config : NodeConfig) (now : ℕ) (manager : NodeManager) (node : VirtualNode)
      (manager' : NodeManager) : Type 0 where
    pub nonzero : config.node_id ≢ 0
    pub fresh : get_node config.node_id manager ≡ none
    pub room : get_node_count manager < max_nodes
    pub made : VirtualNode
    pub constructed : virtual_node config.node_id config true now ≡ ok made
    pub firmware : node ≡ with_config_firmware config made
    pub stored :
        manager' ≡ record manager { nodes = StdMap.insert config.node_id node manager.nodes }

  create_node-Created :
      (config : NodeConfig) (now : ℕ) (manager : NodeManager) (node : VirtualNode)
      (manager' : NodeManager)
      → create_node config now manager ≡ ok (node, manager')
      → Created config now manager node manager'
  unfolding create_node get_node get_node_count StdMap.contains
  create_node-Created config now manager node manager' e =
      elim (Result-cases (virtual_node config.node_id config true now)) [
        | inl (made, m) ↦ record {
          nonzero = ground arith;
          fresh = ground arith;
          room = ground arith;
          made = made;
          constructed = m;
          firmware = ground (arith, m);
          stored = ground (arith, m);
        }
        | inr (x, m) ↦ absurd (ground (arith, m))
      ]

  create_node-IsValid :
      (config : NodeConfig) (now : ℕ) (manager : NodeManager) (node : VirtualNode)
      (manager' : NodeManager)
      → Created config now manager node manager'
      → IsValid manager
      → IsValid manager'
  unfolding get_node_count
  create_node-IsValid config now manager node manager' c v =
      let id : node.node_id ≡ config.node_id =
        rw (c.firmware) (create_node-id config now c.made c.constructed) in
      rw (c.stored) (record {
        sorted = insert-IsSorted {K = ℕ} config.node_id node manager.nodes v.sorted;
        keyed =
            All-insert config.node_id node manager.nodes
              (record { keyed = id; nonzero = c.nonzero }) v.keyed;
        bounded = omega (arith, length-insert-le config.node_id node manager.nodes, c.room);
      })

  remove_node-IsValid :
      (node_id now : ℕ) (manager : NodeManager)
      → IsValid manager
      → IsValid (remove_node node_id now manager).1
  unfolding remove_node
  remove_node-IsValid node_id now manager v =
      elim (Option-cases (StdMap.find node_id manager.nodes)) [
        | inl e ↦ rw (e, remove_node) v
        | inr (node, e) ↦
            rw (e, remove_node)
              (record {
                sorted = erase-IsSorted {K = ℕ} node_id manager.nodes v.sorted;
                keyed = All-erase node_id manager.nodes v.keyed;
                bounded = omega (arith, length-erase-le node_id manager.nodes, v.bounded);
              })
      ]

  -- The calls on a node manager; `creates` is a call of `createNode` that may throw.
  pub data Operation : Type 0 where
    creates : NodeConfig → ℕ → Operation
    removes : ℕ → ℕ → Operation
    starts_all stops_all : ℕ → Operation
    updates_all : Operation
    connects : (ℕ → ℕ) → Operation

  operate : Operation → NodeManager → NodeManager
  operate (creates config now) manager = elim (create_node config now manager) [
    | ok (node, manager') ↦ manager'
    | err e ↦ manager
  ]
  operate (removes node_id now) manager = (remove_node node_id now manager).1
  operate (starts_all now) manager = (start_all now manager).1
  operate (stops_all now) manager = stop_all now manager
  operate updates_all manager = update_all manager
  operate (connects rand) manager = (establish_connectivity rand manager).1

  operate-IsValid :
      (o : Operation) (manager : NodeManager) → IsValid manager → IsValid (operate o manager)
  unfolding operate start_all stop_all update_all establish_connectivity
  operate-IsValid (creates config now) manager v =
      elim (Result-cases (create_node config now manager)) [
        | inl ((node, manager'), e) ↦
            rw (e, operate)
              (create_node-IsValid config now manager node manager'
                (create_node-Created config now manager node manager' e) v)
        | inr (x, e) ↦ rw (e, operate) v
      ]
  operate-IsValid (removes node_id now) manager v = remove_node-IsValid node_id now manager v
  operate-IsValid (starts_all now) manager v =
      SameIds-IsValid manager _ (start_nodes-SameIds now manager.nodes) v
  operate-IsValid (stops_all now) manager v =
      SameIds-IsValid manager _
        (SameIds-map _ manager.nodes (λ node. ground (arith, stop-id now node))) v
  operate-IsValid updates_all manager v =
      SameIds-IsValid manager _ (SameIds-map _ manager.nodes update-id) v
  operate-IsValid (connects rand) manager v =
      SameIds-IsValid manager _ (connect_nodes-SameIds rand [] [] manager.nodes tt) v

  pub operations : List Operation → NodeManager → NodeManager
  operations [] manager = manager
  operations (o ∷ os) manager = operations os (operate o manager)

  operations-keep :
      (os : List Operation) (manager : NodeManager)
      → IsValid manager
      → IsValid (operations os manager)
  unfolding operations
  operations-keep [] manager v = v
  operations-keep (o ∷ os) manager v =
      operations-keep os (operate o manager) (operate-IsValid o manager v)

  -- After any calls of `createNode`, `removeNode`, `startAll`, `stopAll`, `updateAll` and
  -- `establishConnectivity` on a new node manager, some of which may throw, its identifiers rise
  -- strictly, each is not 0 and that of its node, and there are at most 1000 nodes.
  pub operations-IsValid : (os : List Operation) → IsValid (operations os node_manager)
  unfolding node_manager
  operations-IsValid os =
      operations-keep os _ (record { sorted = tt; keyed = tt; bounded = omega arith })

  -- If `createNode` returns, the identifier is not 0 and was not in use, there was room below the
  -- limit, and the new node is found under its identifier and every other node as before.
  pub create_node_lem :
      (config : NodeConfig) (now : ℕ) (manager : NodeManager) (node : VirtualNode)
      (manager' : NodeManager)
      → create_node config now manager ≡ ok (node, manager')
      → (config.node_id ≢ 0)
        × (get_node config.node_id manager ≡ none)
        × (get_node_count manager < max_nodes)
        × ((j : ℕ)
            → get_node j manager'
              ≡ (if same {K = ℕ} j config.node_id then some node else get_node j manager))
  unfolding get_node
  create_node_lem config now manager node manager' e =
      let c = create_node-Created config now manager node manager' e in
      (
        c.nonzero,
        c.fresh,
        c.room,
        λ j. rw (c.stored) (find-insert {K = ℕ} j config.node_id node manager.nodes),
      )
