-- ===== src/Node/FirmwareSetup.antt =====
-- When the firmware of a node is set up, and with which configuration.
use painless_mesh_simulator.Prelude.{
  ℕ, ◌≡◌, refl, ◌∙◌, ap, true, false, List, [], ◌∷◌, Option, some, none, String, str_eq, eq_iff,
  arith, if◌then◌else◌,
}
use painless_mesh_simulator.TextMap
use painless_mesh_simulator.TextMap.{TextMap}
use painless_mesh_simulator.Result.{Result, ok, err, Exception}
use painless_mesh_simulator.Platform.{Platform}
use painless_mesh_simulator.Devices.{Devices}
use painless_mesh_simulator.Node.{
  VirtualNode, NodeConfig, start, stop, crash, restart, prepare, setup_firmware,
  route_callbacks_to_firmware, set_running, set_firmware, update, put_all, firmware_map,
}
use painless_mesh_simulator.Node.Uptime.{
  Command, starts, stops, crashes, restarts, command, commands,
}

-- The keys of a map are different.
abbrev pub DistinctKeys : TextMap → Type 0
DistinctKeys [] = Unit
DistinctKeys ((key, value) ∷ m) = (TextMap.find key m ≡ none) × DistinctKeys m

-- What a firmware finds under a key: the custom entry of the node, else an entry of the mesh.
abbrev pub handed : NodeConfig → String → Option String
handed config key = elim (TextMap.find key config.firmware_config) [
  | some value ↦ some value
  | none ↦
      if str_eq "mesh_password" key
      then some config.mesh_password
      else if str_eq "mesh_prefix" key
      then some config.mesh_prefix
      else none
]

module _ ⦃p : Platform⦄ ⦃d : Devices⦄ where
  put_all-find :
      (custom m : TextMap) (key : String)
      → DistinctKeys custom
      → TextMap.find key (put_all custom m)
        ≡ elim (TextMap.find key custom) [ some value ↦ some value | none ↦ TextMap.find key m ]
  unfolding put_all TextMap.find
  put_all-find [] m key distinct = refl
  put_all-find ((k, v) ∷ custom) m key (fresh, distinct) = ground (
    arith,
    fresh,
    eq_iff k key,
    put_all-find custom (TextMap.insert k v m) key distinct,
    TextMap.find-insert key k v m,
  )

  firmware_map-handed :
      (config : NodeConfig) (key : String)
      → DistinctKeys config.firmware_config
      → TextMap.find key (firmware_map config) ≡ handed config key
  unfolding firmware_map TextMap.find
  firmware_map-handed config key distinct =
      put_all-find config.firmware_config _ key distinct
      ∙ ap
          (λ (o : Option String). elim (TextMap.find key config.firmware_config) [
            | some value ↦ some value
            | none ↦ o
          ])
          (TextMap.find-insert key "mesh_password" config.mesh_password _
            ∙ ap
                (λ (o : Option String).
                  if str_eq "mesh_password" key then some config.mesh_password else o)
                (TextMap.find-insert key "mesh_prefix" config.mesh_prefix []))

  -- The outcome of a first `start` and of later calls, by what the firmware's `setup` throws.
  abbrev pub FirstStart :
      d.Firmware → Option Exception → List (ℕ × Command) → Result (Unit {0}) → VirtualNode → Type 0
  FirstStart ready none cs r node =
      (r ≡ ok tt)
      × (node.running ≡ true)
      × ((commands cs node).firmware ≡ some ready)
      × ((commands cs node).firmware_initialized ≡ true)
  FirstStart ready (some e) cs r node =
      (r ≡ err e)
      × (node.running ≡ false)
      × (node.firmware ≡ some ready)
      × (node.firmware_initialized ≡ false)

  command-firmware :
      (now : ℕ) (c : Command) (node : VirtualNode)
      → node.firmware_initialized ≡ true
      → ((command now c node).firmware ≡ node.firmware)
        × ((command now c node).firmware_initialized ≡ true)
  unfolding command start stop crash restart prepare setup_firmware route_callbacks_to_firmware
      set_running
  command-firmware now starts node h = ground (arith, h)
  command-firmware now stops node h = ground (arith, h)
  command-firmware now crashes node h = ground (arith, h)
  command-firmware now restarts node h = ground (arith, h)

  commands-firmware :
      (cs : List (ℕ × Command)) (node : VirtualNode)
      → node.firmware_initialized ≡ true
      → ((commands cs node).firmware ≡ node.firmware)
        × ((commands cs node).firmware_initialized ≡ true)
  unfolding commands
  commands-firmware [] node h = (refl, h)
  commands-firmware ((now, c) ∷ cs) node h =
      let (same, kept) = command-firmware now c node h in
      let (rest, still) = commands-firmware cs (command now c node) kept in (rest ∙ same, still)

  first_start :
      (now : ℕ) (cs : List (ℕ × Command)) (node : VirtualNode) (f g : d.Firmware)
      (thrown : Option Exception)
      → node.running ≡ false
      → node.has_mesh ≡ true
      → node.firmware ≡ some f
      → node.firmware_initialized ≡ false
      → d.setup (d.initialize node.node_id (firmware_map node.config) f) ≡ (g, thrown)
      → let (r, node') = start now node in FirstStart g thrown cs r node'
  unfolding start prepare setup_firmware route_callbacks_to_firmware set_running
  first_start now cs node f g none stopped mesh loaded fresh s =
      let after = (start now node).1 in
      let initialized : after.firmware_initialized ≡ true = ground arith in
      let ready : after.firmware ≡ some g = ground arith in
      let (same, kept) = commands-firmware cs after initialized in
      (ground arith, ground arith, same ∙ ready, kept)
  first_start now cs node f g (some e) stopped mesh loaded fresh s = ground arith

  -- The firmware of a node is set up once. The first start of a stopped node with a mesh and firmware
  -- initializes it with the node's identifier and a configuration, and sets it up. In that configuration every key
  -- finds the node's custom entry, else, for the mesh's prefix and password, the mesh's, and nothing
  -- else. If `setup` returns, `start` returns and the node runs, and no series of `start`, `stop`,
  -- `crash` and `restart` calls behind it changes the firmware again. If `setup` throws, `start` throws
  -- the same exception, the node does not run and the firmware does not count as initialized. (No two
  -- custom entries have the same key.)
  pub firmware_is_set_up_once :
      (now : ℕ) (cs : List (ℕ × Command)) (node : VirtualNode) (f : d.Firmware)
      → node.running ≡ false
      → node.has_mesh ≡ true
      → node.firmware ≡ some f
      → node.firmware_initialized ≡ false
      → DistinctKeys node.config.firmware_config
      → (m : TextMap) × ((key : String) → TextMap.find key m ≡ handed node.config key)
        × (let (g, thrown) = d.setup (d.initialize node.node_id m f) in
            let (r, node') = start now node in FirstStart g thrown cs r node')
  firmware_is_set_up_once now cs node f stopped mesh loaded fresh distinct = (
    firmware_map node.config,
    λ key. firmware_map-handed node.config key distinct,
    first_start now cs node f _ _ stopped mesh loaded fresh refl,
  )

  -- A firmware that is loaded into a node whose earlier firmware was initialized is never set up: a
  -- start leaves it as it was loaded, although the node then runs, and an update calls its loop.
  pub reloaded_firmware_is_not_set_up :
      (now : ℕ) (node : VirtualNode) (f : d.Firmware)
      → node.running ≡ false
      → node.has_mesh ≡ true
      → node.firmware_initialized ≡ true
      → let (r, node') = start now (set_firmware (some f) node) in
        (r ≡ ok tt)
        × (node'.running ≡ true)
        × (node'.firmware ≡ some f)
        × ((update node').firmware ≡ some (d.loop f))
  unfolding start prepare setup_firmware route_callbacks_to_firmware set_running set_firmware update
  reloaded_firmware_is_not_set_up now node f stopped mesh initialized = ground arith
