-- ===== src/Firmware/Sketch/Bridge.antt =====
-- The sketch bridge.ino, src/firmware/bridge_ino_firmware.cpp.
use painless_mesh_simulator.Prelude.{
  ℕ, ◌%◌, String, Bool, true, false, ◌&&◌, none, some, if◌then◌else◌, ◌==◌, add32,
}
use painless_mesh_simulator.Firmware.{FirmwareBase, firmware_base, MeshAnswers}
use painless_mesh_simulator.Firmware.Sketch.{InoInterface}

pub record BridgeInoFirmware : Type 0 where
  pub base : FirmwareBase
  pub setup_completed : Bool
  pub internet_check_immediately_after_init : Bool
  pub loop_count : ℕ
  pub messages_received : ℕ
  pub internet_checks_performed : ℕ
  pub internet_available_checks : ℕ
  pub periodic_internet_checks : ℕ
  pub periodic_internet_available : ℕ

unfoldable bridge_ino_firmware : BridgeInoFirmware
bridge_ino_firmware = record {
  base = firmware_base "bridge.ino";
  setup_completed = false;
  internet_check_immediately_after_init = false;
  loop_count = 0;
  messages_received = 0;
  internet_checks_performed = 0;
  internet_available_checks = 0;
  periodic_internet_checks = 0;
  periodic_internet_available = 0;
}

unfoldable bridge_setup : MeshAnswers → BridgeInoFirmware → BridgeInoFirmware
bridge_setup answers s =
    let completed = record s { setup_completed = true } in
    if s.base.has_mesh && s.base.has_scheduler
    then if answers.is_bridge
      then record completed { internet_check_immediately_after_init = answers.has_internet }
      else completed
    else s

-- Every 100th turn checks the connection of a bridge.
unfoldable bridge_loop : MeshAnswers → BridgeInoFirmware → BridgeInoFirmware
bridge_loop answers s =
    let turned = record s { loop_count = add32 s.loop_count 1 } in
    if turned.loop_count % 100 == 0 && (s.base.has_mesh && answers.is_bridge)
    then record turned {
      internet_checks_performed = add32 s.internet_checks_performed 1;
      internet_available_checks =
          if answers.has_internet
          then add32 s.internet_available_checks 1
          else s.internet_available_checks;
    }
    else turned

unfoldable bridge_received_callback : ℕ → String → BridgeInoFirmware → BridgeInoFirmware
bridge_received_callback from message s = record s {
  messages_received = add32 s.messages_received 1;
}

unfoldable check_internet_status : MeshAnswers → BridgeInoFirmware → BridgeInoFirmware
check_internet_status answers s =
    if s.base.has_mesh && answers.is_bridge
    then record s {
      periodic_internet_checks = add32 s.periodic_internet_checks 1;
      periodic_internet_available =
          if answers.has_internet
          then add32 s.periodic_internet_available 1
          else s.periodic_internet_available;
    }
    else s

abbrev create_bridge_interface : InoInterface BridgeInoFirmware
create_bridge_interface = record {
  setup = some bridge_setup;
  loop = some bridge_loop;
  received_callback = some bridge_received_callback;
  new_connection_callback = none;
  changed_connection_callback = none;
  node_time_adjusted_callback = none;
}
