-- ===== src/Node.antt =====
-- A virtual node, src/core/virtual_node.cpp. Times are nanoseconds of the steady clock, which
-- does not fall. The calls that a node makes on its mesh object are kept in `mesh_calls`, the last one
-- first.
pub mod Uptime
pub mod FirmwareSetup
use Prim.Native.String.{len, ◌++◌}
use painless_mesh_simulator.Prelude.{
  ℕ, ◌-◌, ◌/◌, String, Bool, true, false, not, ◌&&◌, ◌||◌, List, [], ◌∷◌, Option, none, some, map,
  str_eq, ◌==◌, if◌then◌else◌, add32, add64,
}
use painless_mesh_simulator.Result.{
  Exception, invalid_argument, runtime_error, Result, ok, err, require, ◌>>=◌, ◌>>◌, Step, ◌⨾◌,
  always,
}
use painless_mesh_simulator.Platform.{Platform}
use painless_mesh_simulator.Devices.{Devices}
use painless_mesh_simulator.TextMap
use painless_mesh_simulator.TextMap.{TextMap}

pub record NodeConfig : Type 0 where
  pub node_id : ℕ
  pub mesh_prefix : String
  pub mesh_password : String
  pub mesh_port : ℕ
  pub firmware : String
  pub firmware_config : TextMap

pub record NodeMetrics : Type 0 where
  pub messages_sent : ℕ
  pub messages_received : ℕ
  pub bytes_sent : ℕ
  pub bytes_received : ℕ
  pub start_time : ℕ
  pub crash_count : ℕ
  pub total_uptime_ms : ℕ

pub data MeshCall : Type 0 where
  set_callbacks mesh_stop mesh_update : MeshCall
  -- connect to the mesh of the node with this identifier
  connect : ℕ → MeshCall

module _ ⦃p : Platform⦄ ⦃d : Devices⦄ where
  pub record VirtualNode : Type 0 where
    pub node_id : ℕ
    -- `mesh_` is not null
    pub has_mesh : Bool
    pub mesh_calls : List MeshCall
    pub metrics : NodeMetrics
    pub running : Bool
    pub network_quality : p.Float
    pub partition_id : ℕ
    pub config : NodeConfig
    pub firmware : Option d.Firmware
    pub firmware_initialized : Bool

  -- The constructor; `has_scheduler` says that the scheduler is not null.
  unfoldable pub virtual_node : ℕ → NodeConfig → Bool → ℕ → Result VirtualNode
  virtual_node node_id config has_scheduler now = do
    require (not (node_id == 0)) (invalid_argument "Node ID must be non-zero")
    require has_scheduler (invalid_argument "Scheduler cannot be null")
    elim (d.mesh_error node_id) [
      | some what ↦ err (runtime_error (◌++◌ "Failed to create mesh instance: " what))
      | none ↦ ok (record {
        node_id = node_id;
        has_mesh = true;
        mesh_calls = [];
        metrics = record {
          messages_sent = 0;
          messages_received = 0;
          bytes_sent = 0;
          bytes_received = 0;
          start_time = now;
          crash_count = 0;
          total_uptime_ms = 0;
        };
        running = false;
        network_quality = p.float.of_ℕ 1;
        partition_id = 0;
        config = config;
        firmware = none;
        firmware_initialized = false;
      })
    ]

  abbrev call_mesh : MeshCall → VirtualNode → VirtualNode
  call_mesh c node = record node { mesh_calls = c ∷ node.mesh_calls }

  -- The configuration that the firmware gets: the two mesh entries, then the custom ones.
  unfoldable pub put_all : TextMap → TextMap → TextMap
  put_all [] m = m
  put_all ((key, value) ∷ rest) m = put_all rest (TextMap.insert key value m)

  unfoldable pub firmware_map : NodeConfig → TextMap
  firmware_map config = put_all config.firmware_config (
      TextMap.insert "mesh_password" config.mesh_password
        (TextMap.insert "mesh_prefix" config.mesh_prefix []))

  unfoldable pub setup_firmware : Step VirtualNode
  setup_firmware node = elim node.firmware [
    | none ↦ (ok tt, node)
    | some firmware ↦
        let (ready, thrown) =
          d.setup (d.initialize node.node_id (firmware_map node.config) firmware) in
        if node.firmware_initialized then (ok tt, node) else elim thrown [
          | none ↦ (ok tt, record node { firmware = some ready; firmware_initialized = true })
          | some e ↦ (err e, record node { firmware = some ready })
        ]
  ]

  unfoldable pub route_callbacks_to_firmware : VirtualNode → VirtualNode
  route_callbacks_to_firmware = call_mesh set_callbacks

  -- `start` up to the end of `setupFirmware`, once its guards have passed.
  unfoldable pub prepare : ℕ → Step VirtualNode
  prepare now node = setup_firmware (
      route_callbacks_to_firmware
        (record node { metrics = record (node.metrics) { start_time = now } }))

  unfoldable pub set_running : Bool → VirtualNode → VirtualNode
  set_running running node = record node { running = running }

  unfoldable pub start : ℕ → Step VirtualNode
  start now node =
      if node.running
      then (err (runtime_error "Node is already running"), node)
      else if node.has_mesh
      then (prepare now ⨾ always (set_running true)) node
      else (err (runtime_error "Mesh instance not initialized"), node)

  -- duration_cast<milliseconds>(now - start_time).count(), which cuts off what is less than one.
  abbrev milliseconds_since : ℕ → ℕ → ℕ
  milliseconds_since start_time now = (now - start_time) / 1000000

  -- The uptime since the start, added to the total.
  abbrev clock_out : ℕ → NodeMetrics → NodeMetrics
  clock_out now m = record m {
    total_uptime_ms = add64 m.total_uptime_ms (milliseconds_since m.start_time now);
  }

  abbrev stop_mesh : VirtualNode → VirtualNode
  stop_mesh node = if node.has_mesh then call_mesh mesh_stop node else node

  unfoldable pub stop : ℕ → VirtualNode → VirtualNode
  stop now node =
      if node.running
      then set_running false (stop_mesh (record node { metrics = clock_out now node.metrics }))
      else node

  unfoldable pub crash : ℕ → VirtualNode → VirtualNode
  crash now node =
      let timed = clock_out now node.metrics in
      let counted = record timed { crash_count = add32 timed.crash_count 1 } in
      if node.running
      then set_running false (stop_mesh (record node { metrics = counted }))
      else node

  -- `stop` and `start` read the clock one after the other.
  unfoldable pub restart : ℕ → ℕ → Step VirtualNode
  restart stopped started = always (stop stopped) ⨾ start started

  -- The firmware, where it is loaded and initialized.
  abbrev with_firmware : (d.Firmware → d.Firmware) → VirtualNode → VirtualNode
  with_firmware f node = elim node.firmware [
    | none ↦ node
    | some firmware ↦
        if node.firmware_initialized then record node { firmware = some (f firmware) } else node
  ]

  unfoldable pub update : VirtualNode → VirtualNode
  update node =
      let polled = if node.has_mesh then call_mesh mesh_update node else node in
      if node.running then with_firmware d.loop polled else node

  unfoldable pub get_uptime : ℕ → VirtualNode → ℕ
  get_uptime now node = if node.running then milliseconds_since node.metrics.start_time now else 0

  unfoldable pub set_network_quality : p.Float → VirtualNode → Result VirtualNode
  set_network_quality quality node = do
    require (not (p.float.lt quality (p.float.of_ℕ 0) || p.float.lt (p.float.of_ℕ 1) quality))
        (invalid_argument "Network quality must be between 0.0 and 1.0")
    ok (record node { network_quality = quality })

  unfoldable pub connect_to : VirtualNode → VirtualNode → Result VirtualNode
  connect_to other node = do
    require node.has_mesh (runtime_error "Mesh instance not initialized")
    require other.has_mesh (runtime_error "Target mesh instance not initialized")
    ok (call_mesh (connect other.node_id) node)

  unfoldable pub set_partition_id : ℕ → VirtualNode → VirtualNode
  set_partition_id partition_id node = record node { partition_id = partition_id }

  unfoldable pub on_receive : ℕ → String → VirtualNode → VirtualNode
  on_receive from message node =
      let m = node.metrics in
      let counted = record m {
        messages_received = add32 m.messages_received 1;
        bytes_received = add64 m.bytes_received (len message);
      } in
      with_firmware (d.on_receive from message) (record node { metrics = counted })

  unfoldable pub on_new_connection : ℕ → VirtualNode → VirtualNode
  on_new_connection node_id = with_firmware (d.on_new_connection node_id)

  unfoldable pub on_changed_connections : VirtualNode → VirtualNode
  on_changed_connections = with_firmware d.on_changed_connections

  abbrev is_some {ℓ} : {A : Type ℓ} → Option A → Bool
  is_some none = false
  is_some (some a) = true

  -- loadFirmware(name), with its result
  unfoldable pub load_firmware : String → VirtualNode → Bool × VirtualNode
  load_firmware name node =
      let created = d.create name in
      if str_eq name "" then (true, node) else (is_some created, record node { firmware = created })

  -- loadFirmware(firmware)
  unfoldable pub set_firmware : Option d.Firmware → VirtualNode → VirtualNode
  set_firmware firmware node = record node { firmware = firmware }
