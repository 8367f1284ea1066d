-- ===== src/Firmware/Sketch/Basic.antt =====
-- The sketch basic.ino, src/firmware/basic_ino_firmware.cpp.
use Prim.Native.String.{◌++◌}
use painless_mesh_simulator.Prelude.{
  ℕ, ◌+◌, ◌*◌, ◌%◌, String, Bool, true, false, ◌&&◌, [], some, if◌then◌else◌, add32,
}
use painless_mesh_simulator.Prelude.Int.{ℤ}
use painless_mesh_simulator.Text.{to_string}
use painless_mesh_simulator.StdMap
use painless_mesh_simulator.StdMap.{StdMap, ℕ_key}
use painless_mesh_simulator.Firmware.{
  FirmwareBase, firmware_base, MeshAnswers, broadcast, add_task, enable_task, set_interval, log,
}
use painless_mesh_simulator.Firmware.Sketch.{InoInterface}

pub record BasicInoFirmware : Type 0 where
  pub base : FirmwareBase
  pub setup_completed : Bool
  pub loop_count : ℕ
  pub messages_sent : ℕ
  pub messages_received : ℕ
  pub new_connections : ℕ
  pub topology_changes : ℕ
  pub time_adjustments : ℕ
  pub received_from : StdMap ℕ ℕ

unfoldable pub basic_ino_firmware : BasicInoFirmware
basic_ino_firmware = record {
  base = firmware_base "basic.ino";
  setup_completed = false;
  loop_count = 0;
  messages_sent = 0;
  messages_received = 0;
  new_connections = 0;
  topology_changes = 0;
  time_adjustments = 0;
  received_from = [];
}

-- The task's function; `random` is what rand() returns, which is not negative.
unfoldable pub send_message : ℕ → BasicInoFirmware → BasicInoFirmware
send_message random s =
    let message = "Hello from node " ++ to_string s.base.node_id in
    let interval = 1000 * (1 + random % 4) in
    if s.base.has_mesh
    then record s {
      base = log (set_interval "taskSendMessage" interval) (log (broadcast message) s.base);
      messages_sent = add32 s.messages_sent 1;
    }
    else s

unfoldable pub ino_setup : MeshAnswers → BasicInoFirmware → BasicInoFirmware
ino_setup answers s =
    if s.base.has_mesh && s.base.has_scheduler
    then record s {
      base = log (enable_task "taskSendMessage") (log (add_task "taskSendMessage") s.base);
      setup_completed = true;
    }
    else s

unfoldable pub ino_loop : MeshAnswers → BasicInoFirmware → BasicInoFirmware
ino_loop answers s = record s { loop_count = add32 s.loop_count 1 }

unfoldable pub ino_received_callback : ℕ → String → BasicInoFirmware → BasicInoFirmware
ino_received_callback from message s = record s {
  messages_received = add32 s.messages_received 1;
  received_from =
      StdMap.insert from (add32 (StdMap.find_or 0 from s.received_from) 1) s.received_from;
}

unfoldable pub ino_new_connection_callback : ℕ → BasicInoFirmware → BasicInoFirmware
ino_new_connection_callback node_id s = record s { new_connections = add32 s.new_connections 1 }

unfoldable pub ino_changed_connection_callback : BasicInoFirmware → BasicInoFirmware
ino_changed_connection_callback s = record s { topology_changes = add32 s.topology_changes 1 }

unfoldable pub ino_node_time_adjusted_callback : ℤ → BasicInoFirmware → BasicInoFirmware
ino_node_time_adjusted_callback offset s = record s {
  time_adjustments = add32 s.time_adjustments 1;
}

abbrev pub create_ino_interface : InoInterface BasicInoFirmware
create_ino_interface = record {
  setup = some ino_setup;
  loop = some ino_loop;
  received_callback = some ino_received_callback;
  new_connection_callback = some ino_new_connection_callback;
  changed_connection_callback = some ino_changed_connection_callback;
  node_time_adjusted_callback = some ino_node_time_adjusted_callback;
}
