-- ===== src/Firmware.antt =====
-- The base class of all firmware, include/simulator/firmware/firmware_base.hpp and
-- src/firmware/firmware_base.cpp. The mesh and the scheduler belong to other libraries: the calls that
-- a firmware makes on them and on its tasks are kept in `calls`, the last one first, and what the mesh
-- answers is an argument.
pub mod Report
pub mod Factory
pub mod SimpleBroadcast
pub mod Echo
pub mod LibraryValidation
pub mod Sketch
use painless_mesh_simulator.Prelude.{
  ℕ, String, Bool, true, false, List, [], ◌∷◌, Option, none, some, if◌then◌else◌,
}
use painless_mesh_simulator.TextMap
use painless_mesh_simulator.TextMap.{TextMap}

-- A task goes by the name of the member that holds it.
pub data FirmwareCall : Type 0 where
  broadcast : String → FirmwareCall
  single : ℕ → String → FirmwareCall
  add_task enable_task disable_task : String → FirmwareCall
  -- in milliseconds
  set_interval : String → ℕ → FirmwareCall

-- What the mesh answers while a method runs.
pub record MeshAnswers : Type 0 where
  pub node_time : ℕ
  pub node_list : List ℕ
  pub is_bridge : Bool
  pub has_internet : Bool

pub record FirmwareBase : Type 0 where
  pub name : String
  -- `mesh_` and `scheduler_` are not null
  pub has_mesh : Bool
  pub has_scheduler : Bool
  pub node_id : ℕ
  pub config : TextMap
  pub initialized : Bool
  pub calls : List FirmwareCall

unfoldable pub firmware_base : String → FirmwareBase
firmware_base name = record {
  name = name;
  has_mesh = false;
  has_scheduler = false;
  node_id = 0;
  config = [];
  initialized = false;
  calls = [];
}

-- The first two arguments say that the pointers are not null.
unfoldable pub initialize : Bool → Bool → ℕ → TextMap → FirmwareBase → FirmwareBase
initialize mesh scheduler node_id config base = record base {
  has_mesh = mesh;
  has_scheduler = scheduler;
  node_id = node_id;
  config = config;
  initialized = true;
}

unfoldable pub get_config : String → String → FirmwareBase → String
get_config key default base = elim (TextMap.find key base.config) [
  | none ↦ default
  | some value ↦ value
]

unfoldable has_config : String → FirmwareBase → Bool
has_config key base = elim (TextMap.find key base.config) [ none ↦ false | some value ↦ true ]

abbrev pub log : FirmwareCall → FirmwareBase → FirmwareBase
log call base = record base { calls = call ∷ base.calls }

unfoldable pub send_broadcast : String → FirmwareBase → FirmwareBase
send_broadcast message base = if base.has_mesh then log (broadcast message) base else base

unfoldable pub send_single : ℕ → String → FirmwareBase → FirmwareBase
send_single dest message base = if base.has_mesh then log (single dest message) base else base

unfoldable pub get_node_time : MeshAnswers → FirmwareBase → ℕ
get_node_time answers base = if base.has_mesh then answers.node_time else 0

unfoldable pub get_node_list : MeshAnswers → FirmwareBase → List ℕ
get_node_list answers base = if base.has_mesh then answers.node_list else []
