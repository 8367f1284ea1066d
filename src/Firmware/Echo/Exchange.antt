-- ===== src/Firmware/Echo/Exchange.antt =====
-- The echo client and the echo server over a mesh that delivers.
use Prim.Native.String.{◌++◌}
use text.Mathlib.TextPositions.{starts_with-append}
use painless_mesh_simulator.Prelude.{
  ℕ, zero, suc, ◌+◌, ◌%◌, ◌<◌, ◌≡◌, ◌⊎◌, String, true, List, ◌∷◌, Option, none, some, if◌then◌else◌,
  ◌==◌, add32, arith,
}
use painless_mesh_simulator.Text.{to_string}
use painless_mesh_simulator.Firmware.{FirmwareCall, broadcast, single, log}
use painless_mesh_simulator.Firmware.Echo.{
  EchoClientFirmware, EchoServerFirmware, send_request, client_on_receive, server_on_receive,
}

-- The message that a call sends to a node.
abbrev pub message_to : ℕ → List FirmwareCall → Option String
message_to node (broadcast message ∷ calls) = some message
message_to node (single dest message ∷ calls) = if dest == node then some message else none
message_to node calls = none

abbrev pub Pair : Type 0
Pair = EchoClientFirmware × EchoServerFirmware

-- The client sends a request, and the mesh delivers it to the server.
ask : Pair → Pair
ask (client, server) =
    let asked = send_request client in
    elim (message_to server.base.node_id asked.base.calls) [
      | none ↦ (asked, server)
      | some message ↦ (asked, server_on_receive client.base.node_id message server)
    ]

-- The mesh delivers what the server sent last to the client.
answer : Pair → Pair
answer (client, server) = elim (message_to client.base.node_id server.base.calls) [
  | none ↦ (client, server)
  | some message ↦ (client_on_receive server.base.node_id message client, server)
]

pub exchanges : ℕ → Pair → Pair
exchanges zero pair = pair
exchanges (suc n) pair = exchanges n (answer (ask pair))

-- Both have a mesh, and the client asks this server or all nodes.
pub record Connected (pair : Pair) : Type 0 where
  pub client_mesh : pair.0.base.has_mesh ≡ true
  pub server_mesh : pair.1.base.has_mesh ≡ true
  pub addressed : (pair.0.server_node_id ≡ 0) ⊎ (pair.0.server_node_id ≡ pair.1.base.node_id)

abbrev pub Counted : ℕ → Pair → Pair → Type 0
Counted n before after =
    (after.0.requests_sent ≡ (before.0.requests_sent + n) % 4294967296)
    × (after.0.responses_received ≡ (before.0.responses_received + n) % 4294967296)
    × (after.1.echo_count ≡ (before.1.echo_count + n) % 4294967296)

module _ (client : EchoClientFirmware) (server : EchoServerFirmware) where
  abbrev request : String
  request = "Request #" ++ to_string client.requests_sent

  server_after : EchoServerFirmware
  server_after = record server {
    base = log (single client.base.node_id ("ECHO: " ++ request)) server.base;
    echo_count = add32 server.echo_count 1;
  }

  ask_lem : Connected (client, server) → ask (client, server) ≡ (send_request client, server_after)
  unfolding ask send_request server_on_receive server_after
  ask_lem h = ground arith

  answer_lem :
      client.base.has_mesh ≡ true
      → answer (send_request client, server_after) ≡ (
        record (send_request client) { responses_received = add32 client.responses_received 1 },
        server_after,
      )
  unfolding answer send_request client_on_receive server_after
  answer_lem h = ground (arith, starts_with-append "ECHO: " request)

  exchange_once :
      Connected (client, server)
      → let after = answer (ask (client, server)) in
        Connected after
        × Counted 1 (client, server) after
        × (message_to after.0.base.node_id after.1.base.calls ≡ some ("ECHO: " ++ request))
  unfolding send_request server_after
  exchange_once h =
      rw (ask_lem h, answer_lem h.client_mesh) (ground arith, ground arith, ground arith)

-- The counters are 32-bit numbers.
abbrev pub Fits : Pair → Type 0
Fits (client, server) =
    (client.requests_sent < 4294967296)
    × (client.responses_received < 4294967296)
    × (server.echo_count < 4294967296)

-- A client and a server that have a mesh, where the client asks this server or all nodes, exchange any
-- number of messages over a mesh that delivers: each request that was sent has been echoed once and
-- its response counted once, in 32-bit counters. The server's last answer to the client echoes the
-- client's last request, which has its number.
pub exchanges_lem :
    (n : ℕ) (pair : Pair)
    → Connected pair
    → Fits pair
    → let after = exchanges n pair in
      let last = exchanges (suc n) pair in
      Counted n pair after
      × (message_to last.0.base.node_id last.1.base.calls
          ≡ some ("ECHO: " ++ ("Request #" ++ to_string after.0.requests_sent)))
unfolding exchanges
exchanges_lem zero (client, server) h fits =
    let once = exchange_once client server h in (ground arith, once.2)
exchanges_lem (suc n) (client, server) h fits =
    let once = exchange_once client server h in
    let rest = exchanges_lem n (answer (ask (client, server))) once.0 (omega (arith, once.1)) in
    (omega (arith, once.1, rest.0), rest.1)
