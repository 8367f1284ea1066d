-- ===== src/Firmware/SimpleBroadcast.antt =====
-- The firmware that broadcasts a message from time to time,
-- include/simulator/firmware/simple_broadcast_firmware.hpp.
use Prim.Native.String.{◌++◌}
use painless_mesh_simulator.Prelude.{ℕ, String, if◌then◌else◌, add32, cast32}
use painless_mesh_simulator.Result.{ok, err, Step}
use painless_mesh_simulator.Text.{to_string}
use painless_mesh_simulator.Text.Stoul.{stoul}
use painless_mesh_simulator.Firmware.{
  FirmwareBase, firmware_base, broadcast, add_task, enable_task, set_interval, log, get_config,
}

pub record SimpleBroadcastFirmware : Type 0 where
  pub base : FirmwareBase
  pub broadcast_interval : ℕ
  pub broadcast_message : String
  pub messages_sent : ℕ
  pub messages_received : ℕ

unfoldable simple_broadcast_firmware : SimpleBroadcastFirmware
simple_broadcast_firmware = record {
  base = firmware_base "SimpleBroadcast";
  broadcast_interval = 5000;
  broadcast_message = "";
  messages_sent = 0;
  messages_received = 0;
}

unfoldable pub setup : Step SimpleBroadcastFirmware
setup f = elim (stoul (get_config "broadcast_interval" "5000" f.base)) [
  | err e ↦ (err e, f)
  | ok n ↦
      let interval = cast32 n in
      let timed = log (set_interval "broadcast_task_" interval) f.base in
      let scheduled =
        log (enable_task "broadcast_task_") (log (add_task "broadcast_task_") timed) in
      (
        ok tt,
        record f {
          base = if f.base.has_scheduler then scheduled else timed;
          broadcast_interval = interval;
          broadcast_message = get_config "broadcast_message" "Hello from node" f.base;
        },
      )
]

unfoldable pub on_receive : ℕ → String → SimpleBroadcastFirmware → SimpleBroadcastFirmware
on_receive from message f = record f { messages_received = add32 f.messages_received 1 }

unfoldable broadcast_message : SimpleBroadcastFirmware → SimpleBroadcastFirmware
broadcast_message f =
    let message = (f.broadcast_message ++ " ") ++ to_string f.base.node_id in
    if f.base.has_mesh
    then record f { base = log (broadcast message) f.base; messages_sent = add32 f.messages_sent 1 }
    else f
