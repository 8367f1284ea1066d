-- ===== src/Firmware/Echo.antt =====
-- The firmware that asks and the firmware that answers,
-- include/simulator/firmware/echo_client_firmware.hpp and echo_server_firmware.hpp.
pub mod Exchange
use Prim.Native.String.{◌++◌}
use text.Mathlib.Text.{starts_with}
use painless_mesh_simulator.Prelude.{ℕ, String, if◌then◌else◌, ◌==◌, add32, mul32, cast32}
use painless_mesh_simulator.Result.{ok, err, Step}
use painless_mesh_simulator.Text.{to_string}
use painless_mesh_simulator.Text.Stoul.{stoul}
use painless_mesh_simulator.Firmware.{
  FirmwareBase, firmware_base, broadcast, single, add_task, enable_task, set_interval, log,
  get_config,
}

pub record EchoClientFirmware : Type 0 where
  pub base : FirmwareBase
  pub server_node_id : ℕ
  pub request_interval : ℕ
  pub requests_sent : ℕ
  pub responses_received : ℕ

pub record EchoServerFirmware : Type 0 where
  pub base : FirmwareBase
  pub echo_count : ℕ
  pub connection_count : ℕ

-- TASK_SECOND is 1000.
unfoldable echo_client_firmware : EchoClientFirmware
echo_client_firmware = record {
  base = firmware_base "EchoClient";
  server_node_id = 0;
  request_interval = 5000;
  requests_sent = 0;
  responses_received = 0;
}

-- The server is known before the interval is read, which may throw.
unfoldable setup_client : Step EchoClientFirmware
setup_client f = elim (stoul (get_config "server_node_id" "0" f.base)) [
  | err e ↦ (err e, f)
  | ok server ↦
      let known = record f { server_node_id = cast32 server } in
      elim (stoul (get_config "request_interval" "5" f.base)) [
        | err e ↦ (err e, known)
        | ok seconds ↦
            let interval = mul32 (cast32 seconds) 1000 in
            let timed = log (set_interval "request_task_" interval) f.base in
            let scheduled =
              log (enable_task "request_task_") (log (add_task "request_task_") timed) in
            (
              ok tt,
              record known {
                base = if f.base.has_scheduler then scheduled else timed;
                request_interval = interval;
              },
            )
      ]
]

-- msg.find("ECHO: ") == 0
unfoldable pub client_on_receive : ℕ → String → EchoClientFirmware → EchoClientFirmware
client_on_receive from message f =
    if starts_with message "ECHO: "
    then record f { responses_received = add32 f.responses_received 1 }
    else f

unfoldable pub send_request : EchoClientFirmware → EchoClientFirmware
send_request f =
    let message = "Request #" ++ to_string f.requests_sent in
    let sent =
      if f.server_node_id == 0 then broadcast message else single f.server_node_id message in
    if f.base.has_mesh
    then record f { base = log sent f.base; requests_sent = add32 f.requests_sent 1 }
    else f

unfoldable echo_server_firmware : EchoServerFirmware
echo_server_firmware = record {
  base = firmware_base "EchoServer";
  echo_count = 0;
  connection_count = 0;
}

unfoldable pub server_on_receive : ℕ → String → EchoServerFirmware → EchoServerFirmware
server_on_receive from message f =
    let response = "ECHO: " ++ message in
    if f.base.has_mesh
    then record f { base = log (single from response) f.base; echo_count = add32 f.echo_count 1 }
    else f

unfoldable server_on_new_connection : ℕ → EchoServerFirmware → EchoServerFirmware
server_on_new_connection node_id f = record f { connection_count = add32 f.connection_count 1 }
