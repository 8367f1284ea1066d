-- ===== src/Network/Messages.antt =====
-- The message queue: `enqueueMessage`, `getReadyMessages`, `getPendingMessageCount` and `clear`.
pub mod Ready
pub mod Cases
pub mod Outcome
pub mod Pace
pub mod RateLimit
pub mod Idle
pub mod Attempts
pub mod Counted
pub mod AllAttempts
pub mod Reports
use Prim.Native.String.{len}
use painless_mesh_simulator.Prelude.{
  ℕ, suc, Bool, true, false, List, String, length, if◌then◌else◌, add64,
}
use painless_mesh_simulator.Platform.{Platform}
use painless_mesh_simulator.MinQueue.{MinQueue, size}
use painless_mesh_simulator.MinQueue.Drain.{drain}
use painless_mesh_simulator.Network.State.{Network, DelayedMessage, delivery_key}
use painless_mesh_simulator.Network.Connections.{is_connection_active}
use painless_mesh_simulator.Network.Latency.{get_latency, calculate_latency}
use painless_mesh_simulator.Network.Loss.{should_drop_packet}
use painless_mesh_simulator.Network.Bandwidth.{can_send_message, consume_bandwidth}
use painless_mesh_simulator.Network.Stats.{record_stats, record_packet_stats, record_throttled}

module _ ⦃p : Platform⦄ ⦃queues : MinQueue DelayedMessage delivery_key⦄ where
  -- The part of `enqueueMessage` behind its three guards.
  unfoldable pub accept_message : ℕ → ℕ → String → ℕ → Network → Network
  accept_message from to message now net =
      let consumed = consume_bandwidth from to (len message) net in
      let delivered = record_packet_stats from to false consumed in
      let (latency_ms, e) = calculate_latency (get_latency from to delivered) delivered.rng in
      let recorded = record_stats from to latency_ms (record delivered { rng = e }) in
      let delayed : DelayedMessage = record {
        from = from;
        to = to;
        message = message;
        delivery_time = add64 now latency_ms;
      } in
      record recorded { message_queue = queues.push delayed recorded.message_queue }

  unfoldable pub enqueue_message : ℕ → ℕ → String → ℕ → Network → Network
  enqueue_message from to message now net =
      let (dropped, net1) = should_drop_packet from to net in
      let (sendable, net2) = can_send_message from to (len message) now net1 in
      if is_connection_active from to net
      then if dropped
        then record_packet_stats from to true net1
        else if sendable
        then accept_message from to message now net2
        else record_throttled from to net2
      else record_packet_stats from to true net

  -- The loop of `getReadyMessages` pops at most as many messages as the queue holds.
  unfoldable pub get_ready_messages : ℕ → Network → List DelayedMessage × Network
  get_ready_messages now net =
      let (ready, rest) =
        drain queues (suc (size queues net.message_queue)) now net.message_queue in
      (ready, record net { message_queue = rest })

  unfoldable get_pending_message_count : Network → ℕ
  get_pending_message_count net = size queues net.message_queue

  unfoldable pub clear : Network → Network
  clear net = record net { message_queue = queues.empty }
