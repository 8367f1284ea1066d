-- ===== src/NodeManager/Invariant.antt =====
-- The invariant of the node manager, kept by all its operations.
use painless_mesh_simulator.Prelude.{
  ℕ, ◌+◌, ◌≤◌, ◌≡◌, ◌≢◌, refl, true, [], ◌∷◌, ◌++◌, length, All, arith, Option-cases, inl, inr, ◌∙◌,
  get_elem?, ◌%◌, subst,
}
use mathlib.Core.List.{append-nil, append_assoc}
use painless_mesh_simulator.Result.{ok, Result-cases}
use painless_mesh_simulator.Platform.{Platform}
use painless_mesh_simulator.Devices.{Devices}
use painless_mesh_simulator.StdMap
use painless_mesh_simulator.StdMap.{StdMap, ℕ_key, OrderedKey}
use painless_mesh_simulator.StdMap.Laws.{IsSorted, Above}
use painless_mesh_simulator.Node.{
  VirtualNode, NodeConfig, virtual_node, start, stop, update, prepare, setup_firmware,
  route_callbacks_to_firmware, set_running, load_firmware, connect_to,
}
use painless_mesh_simulator.NodeManager.{
  NodeManager, max_nodes, with_config_firmware, start_nodes, start_if_stopped, on_nodes,
  connect_nodes,
}

module _ ⦃p : Platform⦄ ⦃d : Devices⦄ where
  -- A node stands under its own identifier, which is not 0.
  pub record IsKeyed (e : ℕ × VirtualNode) : Type 0 where
    pub keyed : e.1.node_id ≡ e.0
    pub nonzero : e.0 ≢ 0

  pub record IsValid (manager : NodeManager) : Type 0 where
    pub sorted : IsSorted {K = ℕ} manager.nodes
    pub keyed : All IsKeyed manager.nodes
    pub bounded : length manager.nodes ≤ max_nodes

  pub start-id : (now : ℕ) (node : VirtualNode) → (start now node).1.node_id ≡ node.node_id
  unfolding start prepare setup_firmware route_callbacks_to_firmware set_running
  start-id now node = ground arith

  start_if_stopped-id :
      (now : ℕ) (node : VirtualNode) → (start_if_stopped now node).1.node_id ≡ node.node_id
  unfolding start_if_stopped
  start_if_stopped-id now node = ground (arith, start-id now node)

  pub stop-id : (now : ℕ) (node : VirtualNode) → (stop now node).node_id ≡ node.node_id
  unfolding stop set_running
  stop-id now node = ground arith

  pub update-id : (node : VirtualNode) → (update node).node_id ≡ node.node_id
  unfolding update
  update-id node = ground arith

  pub create_node-id :
      (config : NodeConfig) (now : ℕ) (node : VirtualNode)
      → virtual_node config.node_id config true now ≡ ok node
      → (with_config_firmware config node).node_id ≡ config.node_id
  unfolding virtual_node with_config_firmware load_firmware
  create_node-id config now node e = ground arith

  -- Nodes changed one by one, under the same identifiers.
  abbrev pub SameIds : StdMap ℕ VirtualNode → StdMap ℕ VirtualNode → Type 0
  SameIds [] [] = Unit
  SameIds ((i, x) ∷ xs) ((j, y) ∷ ys) = (i ≡ j) × (y.node_id ≡ x.node_id) × SameIds xs ys
  SameIds _ _ = ⊥

  SameIds-Above :
      (k : ℕ) (xs ys : StdMap ℕ VirtualNode)
      → SameIds xs ys
      → Above {K = ℕ} k xs
      → Above {K = ℕ} k ys
  SameIds-Above k [] [] h a = tt
  SameIds-Above k [] (y ∷ ys) h a = absurd h
  SameIds-Above k (x ∷ xs) [] h a = absurd h
  SameIds-Above k ((i, x) ∷ xs) ((j, y) ∷ ys) (e, _, h) a =
      (rw (← e) a.0, SameIds-Above k xs ys h a.1)

  SameIds-IsSorted :
      (xs ys : StdMap ℕ VirtualNode) → SameIds xs ys → IsSorted {K = ℕ} xs → IsSorted {K = ℕ} ys
  SameIds-IsSorted [] [] h s = tt
  SameIds-IsSorted [] (y ∷ ys) h s = absurd h
  SameIds-IsSorted (x ∷ xs) [] h s = absurd h
  SameIds-IsSorted ((i, x) ∷ xs) ((j, y) ∷ ys) (e, _, h) s =
      (rw (← e) (SameIds-Above i xs ys h s.0), SameIds-IsSorted xs ys h s.1)

  SameIds-IsKeyed : (xs ys : StdMap ℕ VirtualNode) → SameIds xs ys → All IsKeyed xs → All IsKeyed ys
  SameIds-IsKeyed [] [] h k = tt
  SameIds-IsKeyed [] (y ∷ ys) h k = absurd h
  SameIds-IsKeyed (x ∷ xs) [] h k = absurd h
  SameIds-IsKeyed ((i, x) ∷ xs) ((j, y) ∷ ys) (e, e', h) k = (
    record { keyed = e' ∙ k.0.keyed ∙ e; nonzero = rw (← e) k.0.nonzero },
    SameIds-IsKeyed xs ys h k.1,
  )

  SameIds-length : (xs ys : StdMap ℕ VirtualNode) → SameIds xs ys → length xs ≡ length ys
  SameIds-length [] [] h = refl
  SameIds-length [] (y ∷ ys) h = absurd h
  SameIds-length (x ∷ xs) [] h = absurd h
  SameIds-length (x ∷ xs) (y ∷ ys) h = omega (arith, SameIds-length xs ys h.2)

  pub SameIds-IsValid :
      (manager : NodeManager) (nodes : StdMap ℕ VirtualNode)
      → SameIds manager.nodes nodes
      → IsValid manager
      → IsValid (record manager { nodes = nodes })
  SameIds-IsValid manager nodes h v = record {
    sorted = SameIds-IsSorted manager.nodes nodes h v.sorted;
    keyed = SameIds-IsKeyed manager.nodes nodes h v.keyed;
    bounded = omega (arith, SameIds-length manager.nodes nodes h, v.bounded);
  }

  pub SameIds-refl : (xs : StdMap ℕ VirtualNode) → SameIds xs xs
  SameIds-refl [] = tt
  SameIds-refl ((i, x) ∷ xs) = (refl, refl, SameIds-refl xs)

  pub SameIds-map :
      (f : VirtualNode → VirtualNode) (xs : StdMap ℕ VirtualNode)
      → ((node : VirtualNode) → (f node).node_id ≡ node.node_id)
      → SameIds xs (on_nodes f (record { nodes = xs })).nodes
  SameIds-map f [] h = tt
  SameIds-map f ((i, x) ∷ xs) h = (refl, h x, SameIds-map f xs h)

  pub start_nodes-SameIds :
      (now : ℕ) (xs : StdMap ℕ VirtualNode) → SameIds xs (start_nodes now xs).1
  unfolding start_nodes
  start_nodes-SameIds now [] = tt
  start_nodes-SameIds now ((i, x) ∷ xs) =
      let id = start_if_stopped-id now x in
      elim (Result-cases (start_if_stopped now x).0) [
        | inl (u, e) ↦ rw (e, start_nodes) (refl, id, start_nodes-SameIds now xs)
        | inr (u, e) ↦ rw (e, start_nodes) (refl, id, SameIds-refl xs)
      ]

  connect_to-id :
      (other node node' : VirtualNode)
      → connect_to other node ≡ ok node'
      → node'.node_id ≡ node.node_id
  unfolding connect_to
  connect_to-id other node node' e = ground arith

  SameIds-append :
      (xs ys zs ws : StdMap ℕ VirtualNode)
      → SameIds xs zs
      → SameIds ys ws
      → SameIds (xs ++ ys) (zs ++ ws)
  SameIds-append [] ys [] ws h k = k
  SameIds-append [] ys (z ∷ zs) ws h k = absurd h
  SameIds-append (x ∷ xs) ys [] ws h k = absurd h
  SameIds-append (x ∷ xs) ys (z ∷ zs) ws (e, e', h) k = (e, e', SameIds-append xs ys zs ws h k)

  -- `old` are the nodes at the positions of `before` as they were.
  pub connect_nodes-SameIds :
      (rand : ℕ → ℕ) (old before rest : StdMap ℕ VirtualNode)
      → SameIds old before
      → SameIds (old ++ rest) (connect_nodes rand before rest).1
  unfolding connect_nodes
  connect_nodes-SameIds rand old before [] h = rw append-nil h
  connect_nodes-SameIds rand old before ((i, x) ∷ rest) h =
      let at = rand (length before) % length before in
      let extended : (y : VirtualNode)
          → y.node_id ≡ x.node_id
          → SameIds (old ++ (i, x) ∷ rest) (connect_nodes rand (before ++ (i, y) ∷ []) rest).1 =
        λ y e.
          subst (λ z. SameIds z (connect_nodes rand (before ++ (i, y) ∷ []) rest).1)
            (append_assoc old ((i, x) ∷ []) rest)
            (connect_nodes-SameIds rand (old ++ (i, x) ∷ []) (before ++ (i, y) ∷ []) rest
              (SameIds-append old _ before _ h (refl, e, tt))) in
      elim (Option-cases (get_elem? before at)) [
        | inl e ↦ rw (e, connect_nodes) (extended x refl)
        | inr (target, e) ↦
            rw (e, connect_nodes)
              (elim (Result-cases (connect_to target.1 x)) [
                | inl (y, c) ↦ rw c (extended y (connect_to-id target.1 x y c))
                | inr (u, c) ↦ rw c (SameIds-append old _ before _ h (SameIds-refl ((i, x) ∷ rest)))
              ])
      ]

  pub All-insert :
      (k : ℕ) (node : VirtualNode) (m : StdMap ℕ VirtualNode)
      → IsKeyed (k, node)
      → All IsKeyed m
      → All IsKeyed (StdMap.insert k node m)
  unfolding StdMap.insert
  All-insert k node [] h a = (h, tt)
  All-insert k node ((i, x) ∷ m) h (a, as') = ground (arith, All-insert k node m h as')

  pub length-insert-le :
      (k : ℕ) (node : VirtualNode) (m : StdMap ℕ VirtualNode)
      → length (StdMap.insert k node m) ≤ length m + 1
  unfolding StdMap.insert
  length-insert-le k node [] = omega arith
  length-insert-le k node ((i, x) ∷ m) = ground (arith, length-insert-le k node m)

  pub All-erase :
      (k : ℕ) (m : StdMap ℕ VirtualNode) → All IsKeyed m → All IsKeyed (StdMap.erase k m)
  unfolding StdMap.erase
  All-erase k [] a = tt
  All-erase k ((i, x) ∷ m) (a, as') = ground (arith, All-erase k m as')

  pub length-erase-le : (k : ℕ) (m : StdMap ℕ VirtualNode) → length (StdMap.erase k m) ≤ length m
  unfolding StdMap.erase
  length-erase-le k [] = omega arith
  length-erase-le k ((i, x) ∷ m) = ground (arith, length-erase-le k m)
