-- ===== src/Scenario/Templates.antt =====
-- Node templates and the numeric identifiers of nodes: `expandTemplates` and `generateNodeId` of
-- src/config/config_loader.cpp. The hash function is that of the C++ library, `std::hash`.
use Prim.Native.String.{◌++◌ as ◌+++◌}
use painless_mesh_simulator.Prelude.{
  ℕ, zero, suc, ◌+◌, ◌%◌, ◌<◌, ◌≢◌, ◌≡◌, refl, sym, ◌∙◌, ap, String, List, [], ◌∷◌, ◌++◌, some,
  length, length-append, get_elem?, arith, ◌==◌, if◌then◌else◌,
}
use mathlib.Core.List.{append_assoc}
use painless_mesh_simulator.Text.{to_string}
use painless_mesh_simulator.Platform.{Platform}
use painless_mesh_simulator.Scenario.{NodeConfigExtended, NodeTemplate, ScenarioConfig}

unfoldable pub generate_node_id : (String → ℕ) → String → ℕ
generate_node_id hash id_str =
    let node_id = hash id_str % 2147483648 in if node_id == 0 then 1 else node_id

-- The node that a template makes at an index.
unfoldable pub template_node : (String → ℕ) → NodeTemplate → ℕ → NodeConfigExtended
template_node hash tmpl i =
    let id = tmpl.id_prefix +++ to_string i in
    record (tmpl.base_config) { id = id; node_id = generate_node_id hash id }

-- The inner loop from i on, with this many turns left: the nodes that it appends.
unfoldable pub template_nodes : (String → ℕ) → NodeTemplate → ℕ → ℕ → List NodeConfigExtended
template_nodes hash tmpl i zero = []
template_nodes hash tmpl i (suc left) =
    template_node hash tmpl i ∷ template_nodes hash tmpl (suc i) left

unfoldable pub all_template_nodes : (String → ℕ) → List NodeTemplate → List NodeConfigExtended
all_template_nodes hash [] = []
all_template_nodes hash (tmpl ∷ templates) =
    template_nodes hash tmpl 0 tmpl.count ++ all_template_nodes hash templates

module _ ⦃p : Platform⦄ where
  unfoldable pub expand_templates : (String → ℕ) → ScenarioConfig → ScenarioConfig
  expand_templates hash config = record config {
    nodes = config.nodes ++ all_template_nodes hash config.templates;
  }

  -- The nodes that these templates make.
  abbrev pub total_count : List NodeTemplate → ℕ
  total_count [] = 0
  total_count (tmpl ∷ templates) = tmpl.count + total_count templates

  length-template_nodes :
      (hash : String → ℕ) (tmpl : NodeTemplate) (i left : ℕ)
      → length (template_nodes hash tmpl i left) ≡ left
  unfolding template_nodes
  length-template_nodes hash tmpl i zero = refl
  length-template_nodes hash tmpl i (suc left) =
      ap suc (length-template_nodes hash tmpl (suc i) left)

  length-all_template_nodes :
      (hash : String → ℕ) (templates : List NodeTemplate)
      → length (all_template_nodes hash templates) ≡ total_count templates
  unfolding all_template_nodes
  length-all_template_nodes hash [] = refl
  length-all_template_nodes hash (tmpl ∷ templates) = omega (
    arith,
    length-append (template_nodes hash tmpl 0 tmpl.count) (all_template_nodes hash templates),
    length-template_nodes hash tmpl 0 tmpl.count,
    length-all_template_nodes hash templates,
  )

  get-append_left :
      {A : Type 0} (xs ys : List A) (i : ℕ)
      → i < length xs
      → get_elem? (xs ++ ys) i ≡ get_elem? xs i
  get-append_left [] ys i h = absurd (omega (arith, h))
  get-append_left (x ∷ xs) ys zero h = refl
  get-append_left (x ∷ xs) ys (suc i) h = get-append_left xs ys i (omega (arith, h))

  get-append_right :
      {A : Type 0} (xs ys : List A) (i : ℕ) → get_elem? (xs ++ ys) (length xs + i) ≡ get_elem? ys i
  get-append_right [] ys i = ap (get_elem? ys) (omega arith)
  get-append_right (x ∷ xs) ys i =
      ap (get_elem? (x ∷ (xs ++ ys))) {y = suc (length xs + i)} (omega arith)
      ∙ get-append_right xs ys i

  get-template_nodes :
      (hash : String → ℕ) (tmpl : NodeTemplate) (i left j : ℕ)
      → j < left
      → get_elem? (template_nodes hash tmpl i left) j ≡ some (template_node hash tmpl (i + j))
  unfolding template_nodes
  get-template_nodes hash tmpl i zero j h = absurd (omega (arith, h))
  get-template_nodes hash tmpl i (suc left) zero h =
      ap (λ n. some (template_node hash tmpl n)) (omega arith)
  get-template_nodes hash tmpl i (suc left) (suc j) h =
      get-template_nodes hash tmpl (suc i) left j (omega (arith, h))
      ∙ ap (λ n. some (template_node hash tmpl n)) (omega arith)

  all-append :
      (hash : String → ℕ) (before after : List NodeTemplate)
      → all_template_nodes hash (before ++ after)
        ≡ all_template_nodes hash before ++ all_template_nodes hash after
  unfolding all_template_nodes
  all-append hash [] after = refl
  all-append hash (tmpl ∷ before) after =
      ap (λ xs. template_nodes hash tmpl 0 tmpl.count ++ xs) (all-append hash before after)
      ∙ sym (append_assoc (template_nodes hash tmpl 0 tmpl.count) _ _)

  get-first_template :
      (hash : String → ℕ) (tmpl : NodeTemplate) (after : List NodeTemplate) (j : ℕ)
      → j < tmpl.count
      → get_elem? (all_template_nodes hash (tmpl ∷ after)) j ≡ some (template_node hash tmpl j)
  unfolding all_template_nodes
  get-first_template hash tmpl after j h =
      get-append_left (template_nodes hash tmpl 0 tmpl.count) (all_template_nodes hash after) j
        (omega (arith, h, length-template_nodes hash tmpl 0 tmpl.count))
      ∙ get-template_nodes hash tmpl 0 tmpl.count j h
      ∙ ap (λ n. some (template_node hash tmpl n)) (omega arith)

  get-all_template_nodes :
      (hash : String → ℕ) (before : List NodeTemplate) (tmpl : NodeTemplate)
      (after : List NodeTemplate) (j : ℕ)
      → j < tmpl.count
      → get_elem? (all_template_nodes hash (before ++ tmpl ∷ after)) (total_count before + j)
        ≡ some (template_node hash tmpl j)
  get-all_template_nodes hash before tmpl after j h =
      ap (λ xs. get_elem? xs (total_count before + j)) (all-append hash before (tmpl ∷ after))
      ∙ ap
          (λ n.
            get_elem? (all_template_nodes hash before ++ all_template_nodes hash (tmpl ∷ after))
              (n + j))
          (sym (length-all_template_nodes hash before))
      ∙ get-append_right (all_template_nodes hash before) (all_template_nodes hash (tmpl ∷ after)) j
      ∙ get-first_template hash tmpl after j h

  -- The numeric identifier of a text is one that a node may have: neither 0 nor 2^31 or more.
  generate_node_id-range :
      (hash : String → ℕ) (id : String)
      → (generate_node_id hash id ≢ 0) × (generate_node_id hash id < 2147483648)
  unfolding generate_node_id
  generate_node_id-range hash id = (ground arith, ground arith)

  -- The expansion keeps the nodes that are there, at their positions, and appends those of the
  -- templates, as many as the templates' counts say. The node with index j of a template stands behind
  -- those of the templates before it: it has the template's prefix with the index as its identifier,
  -- the numeric identifier of that text, which is neither 0 nor 2^31 or more, and else the values of
  -- the template. Nothing but the nodes changes.
  pub expand_templates_lem :
      (hash : String → ℕ) (config : ScenarioConfig)
      → let after = expand_templates hash config in
        (after ≡ record config { nodes = after.nodes })
        × (length after.nodes ≡ length config.nodes + total_count config.templates)
        × ((i : ℕ) → i < length config.nodes → get_elem? after.nodes i ≡ get_elem? config.nodes i)
        × ((before : List NodeTemplate) (tmpl : NodeTemplate) (rest : List NodeTemplate) (j : ℕ)
            → config.templates ≡ before ++ tmpl ∷ rest
            → j < tmpl.count
            → (node : NodeConfigExtended) × (get_elem? after.nodes
                  (length config.nodes + (total_count before + j))
                ≡ some node)
              × (node.id ≡ tmpl.id_prefix +++ to_string j)
              × (node.node_id ≡ generate_node_id hash node.id)
              × (node.node_id ≢ 0)
              × (node.node_id < 2147483648)
              × (node.node_type ≡ tmpl.base_config.node_type)
              × (node.position ≡ tmpl.base_config.position)
              × (node.sensor_interval ≡ tmpl.base_config.sensor_interval)
              × (node.mqtt_broker ≡ tmpl.base_config.mqtt_broker)
              × (node.mqtt_port ≡ tmpl.base_config.mqtt_port)
              × (node.mqtt_topic_prefix ≡ tmpl.base_config.mqtt_topic_prefix)
              × (node.firmware ≡ tmpl.base_config.firmware)
              × (node.mesh_prefix ≡ tmpl.base_config.mesh_prefix)
              × (node.mesh_password ≡ tmpl.base_config.mesh_password)
              × (node.mesh_port ≡ tmpl.base_config.mesh_port)
              × (node.firmware_config ≡ tmpl.base_config.firmware_config))
  unfolding expand_templates template_node
  expand_templates_lem hash config = (
    refl,
    omega (
      arith,
      length-append config.nodes (all_template_nodes hash config.templates),
      length-all_template_nodes hash config.templates,
    ),
    get-append_left config.nodes (all_template_nodes hash config.templates),
    λ before tmpl rest j e h.
        let range = generate_node_id-range hash (tmpl.id_prefix +++ to_string j) in
        (
          template_node hash tmpl j,
          get-append_right config.nodes (all_template_nodes hash config.templates)
                (total_count before + j)
              ∙ ap (λ ts. get_elem? (all_template_nodes hash ts) (total_count before + j)) e
              ∙ get-all_template_nodes hash before tmpl rest j h,
          refl,
          refl,
          range.0,
          range.1,
          refl,
          refl,
          refl,
          refl,
          refl,
          refl,
          refl,
          refl,
          refl,
          refl,
          refl,
        ),
  )
