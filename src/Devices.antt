-- ===== src/Devices.antt =====
-- What a virtual node takes from outside: the creation of its mesh by the painlessMesh library, and
-- the firmware classes behind the abstract class `FirmwareBase` and `FirmwareFactory`.
use painless_mesh_simulator.Prelude.{ℕ, String, Option}
use painless_mesh_simulator.TextMap.{TextMap}
use painless_mesh_simulator.Result.{Exception}

pub record Devices : Type 1 where
  -- The text of the exception that the constructor of `MeshTest` throws for a node, if any.
  pub mesh_error : ℕ → Option String
  pub Firmware : Type 0
  -- FirmwareFactory::instance().create(name)
  pub create : String → Option Firmware
  -- initialize(mesh, scheduler, nodeId, config)
  pub initialize : ℕ → TextMap → Firmware → Firmware
  -- The firmware as `setup` leaves it, and the exception that it throws, if any.
  pub setup : Firmware → Firmware × Option Exception
  pub loop : Firmware → Firmware
  pub on_receive : ℕ → String → Firmware → Firmware
  pub on_new_connection : ℕ → Firmware → Firmware
  pub on_changed_connections : Firmware → Firmware
