-- ===== src/NodeManager/Connectivity.antt =====
-- The topology that `establishConnectivity` builds.
use painless_mesh_simulator.Prelude.{
  ℕ, zero, suc, ◌+◌, ◌%◌, ◌<◌, ◌≡◌, refl, true, List, [], ◌∷◌, ◌++◌, some, length, length-append,
  get_elem?, All, All-append, arith, Option-cases, inl, inr, ap, ◌∙◌, sym, subst,
}
use mathlib.Core.Option.{some-injective}
use mathlib.Core.List.{map, append-nil, append_assoc, map-append}
use native.Mathlib.Nat.{mod-lt}
use painless_mesh_simulator.Result.{Result, ok, Result-cases}
use painless_mesh_simulator.Platform.{Platform}
use painless_mesh_simulator.Devices.{Devices}
use painless_mesh_simulator.StdMap.{StdMap, ℕ_key}
use painless_mesh_simulator.Node.{VirtualNode, MeshCall, connect, connect_to}
use painless_mesh_simulator.NodeManager.{connect_nodes, establish_connectivity}

module _ {A : Type 0} where
  get_elem?-append_left :
      (xs ys : List A) (i : ℕ) → i < length xs → get_elem? (xs ++ ys) i ≡ get_elem? xs i
  get_elem?-append_left [] ys i h = elim h [ ]
  get_elem?-append_left (x ∷ xs) ys zero h = refl
  get_elem?-append_left (x ∷ xs) ys (suc i) h = get_elem?-append_left xs ys i (omega arith)

  get_elem?-append_middle : (xs ys : List A) (y : A) → get_elem? (xs ++ y ∷ ys) (length xs) ≡ some y
  get_elem?-append_middle [] ys y = refl
  get_elem?-append_middle (x ∷ xs) ys y = get_elem?-append_middle xs ys y

  All-get_elem? :
      (P : A → Type 0) (xs : List A) (i : ℕ) (x : A) → All P xs → get_elem? xs i ≡ some x → P x
  All-get_elem? P [] i x h e = cc
  All-get_elem? P (y ∷ xs) zero x h e = subst P (some-injective _ _ e) h.0
  All-get_elem? P (y ∷ xs) (suc i) x h e = All-get_elem? P xs i x h.1 e

  get_elem?_total : (xs : List A) (i : ℕ) → i < length xs → (x : A) × (get_elem? xs i ≡ some x)
  get_elem?_total [] i h = elim h [ ]
  get_elem?_total (x ∷ xs) zero h = (x, refl)
  get_elem?_total (x ∷ xs) (suc i) h = get_elem?_total xs i (omega arith)

module _ ⦃p : Platform⦄ ⦃d : Devices⦄ where
  -- The node stands under its own identifier, and has a mesh.
  pub record IsReady (e : ℕ × VirtualNode) : Type 0 where
    pub keyed : e.1.node_id ≡ e.0
    pub mesh : e.1.has_mesh ≡ true

  -- From the node `a` a chain of connections, each the last call on a node's mesh, leads to `root`.
  pub data Reaches (nodes : StdMap ℕ VirtualNode) (root : ℕ) : ℕ → Type 0 where
    here : Reaches nodes root root
    via :
        (i a b : ℕ) (node : VirtualNode) (calls : List MeshCall)
        → get_elem? nodes i ≡ some (a, node)
        → node.mesh_calls ≡ connect b ∷ calls
        → Reaches nodes root b
        → Reaches nodes root a

  connect_nodes_prefix :
      (rand : ℕ → ℕ) (before rest : StdMap ℕ VirtualNode) (i : ℕ)
      → i < length before
      → get_elem? (connect_nodes rand before rest).1 i ≡ get_elem? before i
  unfolding connect_nodes
  connect_nodes_prefix rand before [] i h = refl
  connect_nodes_prefix rand before ((id, node) ∷ rest) i h =
      let at = rand (length before) % length before in
      let extended : (node' : VirtualNode)
          → get_elem? (connect_nodes rand (before ++ (id, node') ∷ []) rest).1 i
            ≡ get_elem? before i =
        λ node'.
          connect_nodes_prefix rand (before ++ (id, node') ∷ []) rest i
            (omega (arith, length-append before ((id, node') ∷ [])))
          ∙ get_elem?-append_left before ((id, node') ∷ []) i h in
      elim (Option-cases (get_elem? before at)) [
        | inl e ↦ rw (e, connect_nodes) (extended node)
        | inr (target, e) ↦
            rw (e, connect_nodes)
              (elim (Result-cases (connect_to target.1 node)) [
                | inl (node', c) ↦ rw c (extended node')
                | inr (x, c) ↦ rw c (get_elem?-append_left before ((id, node) ∷ rest) i h)
              ])
      ]

  abbrev pub total_calls : StdMap ℕ VirtualNode → ℕ
  total_calls [] = 0
  total_calls ((id, node) ∷ rest) = length node.mesh_calls + total_calls rest

  total_calls-append :
      (xs ys : StdMap ℕ VirtualNode) → total_calls (xs ++ ys) ≡ total_calls xs + total_calls ys
  total_calls-append [] ys = omega arith
  total_calls-append ((id, node) ∷ xs) ys = omega (arith, total_calls-append xs ys)

  connect_to-ready :
      (other node : VirtualNode)
      → other.has_mesh ≡ true
      → node.has_mesh ≡ true
      → connect_to other node
        ≡ ok (record node { mesh_calls = connect other.node_id ∷ node.mesh_calls })
  unfolding connect_to
  connect_to-ready other node h k = rw (k, h)

  module _ (rand : ℕ → ℕ) (root : ℕ) where
    -- What the loop achieves: it does not throw, everybody reaches the root, no identifier changes,
    -- and every node of the rest has made one more call.
    record Connected (F before rest : StdMap ℕ VirtualNode) (r : Result (Unit {0})) : Type 0 where
      returns : r ≡ ok tt
      reach : All (λ e. Reaches F root e.0) F
      same_keys : map (λ e. e.0) F ≡ map (λ e. e.0) before ++ map (λ e. e.0) rest
      calls : total_calls F ≡ total_calls before + total_calls rest + length rest

    connect_nodes-step :
        (before rest : StdMap ℕ VirtualNode) (id tid : ℕ) (node target : VirtualNode)
        → get_elem? before (rand (length before) % length before) ≡ some (tid, target)
        → target.has_mesh ≡ true
        → node.has_mesh ≡ true
        → connect_nodes rand before ((id, node) ∷ rest)
          ≡ connect_nodes rand
              (before
                ++ (id, record node { mesh_calls = connect target.node_id ∷ node.mesh_calls }) ∷ [])
              rest
    unfolding connect_nodes
    connect_nodes-step before rest id tid node target found h k =
        rw (found, connect_nodes, connect_to-ready target node h k)

    connect_nodes_lem :
        (before rest F : StdMap ℕ VirtualNode) (r : Result (Unit {0}))
        → connect_nodes rand before rest ≡ (r, F)
        → 0 < length before
        → All IsReady before
        → All IsReady rest
        → All (λ e. Reaches F root e.0) before
        → Connected F before rest r
    unfolding connect_nodes
    connect_nodes_lem before [] F r e pos ready readies reach =
        let same : before ≡ F = ap (λ (x : Result (Unit {0}) × StdMap ℕ VirtualNode). x.1) e in
        record {
          returns = sym (ap (λ (x : Result (Unit {0}) × StdMap ℕ VirtualNode). x.0) e);
          reach = subst (All (λ e. Reaches F root e.0)) same reach;
          same_keys = rw append-nil (ap (map (λ e. e.0)) (sym same));
          calls = omega (arith, ap total_calls same);
        }
    connect_nodes_lem before ((id, node) ∷ rest) F r e pos ready readies reach =
        let at = rand (length before) % length before in
        let bound : at < length before = mod-lt _ pos in
        let ((tid, target), found) = get_elem?_total before at bound in
        let t = All-get_elem? IsReady before at (tid, target) ready found in
        let node' = record node { mesh_calls = connect target.node_id ∷ node.mesh_calls } in
        let before' = before ++ (id, node') ∷ [] in
        let step : connect_nodes rand before' rest ≡ (r, F) =
          sym (connect_nodes-step before rest id tid node target found t.mesh readies.0.mesh) ∙ e in
        let placed : get_elem? F (length before) ≡ some (id, node') =
          ap (λ (x : Result (Unit {0}) × StdMap ℕ VirtualNode). get_elem? x.1 (length before))
            (sym step)
          ∙ connect_nodes_prefix rand before' rest (length before)
              (omega (arith, length-append before ((id, node') ∷ [])))
          ∙ get_elem?-append_middle before [] (id, node') in
        let reached : Reaches F root id =
          via (length before) id tid node' node.mesh_calls placed
            (ap (λ (b : ℕ). connect b ∷ node.mesh_calls) t.keyed)
            (All-get_elem? (λ e. Reaches F root e.0) before at (tid, target) reach found) in
        let again : IsReady (id, node') = record {
          keyed = readies.0.keyed;
          mesh = readies.0.mesh;
        } in
        let c =
          connect_nodes_lem before' rest F r step
            (omega (arith, length-append before ((id, node') ∷ [])))
            (All-append IsReady before _ ready (again, tt)) readies.1
            (All-append (λ e. Reaches F root e.0) before _ reach (reached, tt)) in
        record {
          returns = c.returns;
          reach = c.reach;
          same_keys = c.same_keys ∙ simp (map-append, append_assoc);
          calls = omega (arith, c.calls, total_calls-append before ((id, node') ∷ []));
        }

  -- If every node stands under its own identifier and has a mesh, `establishConnectivity` does not
  -- throw, whatever the random numbers are, keeps the identifiers, and makes a tree: a chain of
  -- connections leads from every node to the first, and there is one connection less than nodes.
  pub establish_connectivity_connects :
      (rand : ℕ → ℕ) (root : ℕ) (first : VirtualNode) (rest : StdMap ℕ VirtualNode)
      → All IsReady ((root, first) ∷ rest)
      → let (r, manager) = establish_connectivity rand (record { nodes = (root, first) ∷ rest }) in
        (r ≡ ok tt)
        × All (λ e. Reaches manager.nodes root e.0) manager.nodes
        × (map (λ e. e.0) manager.nodes ≡ root ∷ map (λ e. e.0) rest)
        × (total_calls manager.nodes ≡ total_calls ((root, first) ∷ rest) + length rest)
  unfolding establish_connectivity connect_nodes
  establish_connectivity_connects rand root first rest ready =
      let c =
        connect_nodes_lem rand root ((root, first) ∷ []) rest _ _ refl (omega arith) (ready.0, tt)
          ready.1 (here, tt) in
      (c.returns, c.reach, c.same_keys, omega (arith, c.calls))
