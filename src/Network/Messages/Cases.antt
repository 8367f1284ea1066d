-- ===== src/Network/Messages/Cases.antt =====
-- The branches of `enqueueMessage`, and what its first guard may change.
use Prim.Native.String.{len}
use painless_mesh_simulator.Prelude.{ℕ, ◌≡◌, refl, true, false, String, arith, Bool-cases, inl, inr}
use painless_mesh_simulator.Platform.{Platform}
use painless_mesh_simulator.MinQueue.{MinQueue}
use painless_mesh_simulator.Network.Config.{PacketLossConfig}
use painless_mesh_simulator.Network.State.{Network, DelayedMessage, delivery_key, ConnectionKey}
use painless_mesh_simulator.Network.Connections.{is_connection_active}
use painless_mesh_simulator.Network.Loss.{
  should_drop_packet, random_drop, burst_drop, get_packet_loss,
}
use painless_mesh_simulator.Network.Bandwidth.{can_send_message}
use painless_mesh_simulator.Network.Stats.{record_packet_stats, record_throttled}
use painless_mesh_simulator.Network.Messages.{accept_message, enqueue_message}

module _ ⦃p : Platform⦄ ⦃queues : MinQueue DelayedMessage delivery_key⦄ where
  -- To prove something of the state after `enqueueMessage`, prove it of each of its four ends.
  pub enqueue_cases {ℓ} :
      (P : Network → Type ℓ) (from to : ℕ) (message : String) (now : ℕ) (net : Network)
      → let (dropped, net1) = should_drop_packet from to net in
        let (sendable, net2) = can_send_message from to (len message) now net1 in
        (is_connection_active from to net ≡ false → P (record_packet_stats from to true net))
        → (is_connection_active from to net ≡ true
            → dropped ≡ true
            → P (record_packet_stats from to true net1))
        → (is_connection_active from to net ≡ true
            → dropped ≡ false
            → sendable ≡ false
            → P (record_throttled from to net2))
        → (is_connection_active from to net ≡ true
            → dropped ≡ false
            → sendable ≡ true
            → P (accept_message from to message now net2))
        → P (enqueue_message from to message now net)
  unfolding enqueue_message
  enqueue_cases P from to message now net inactive lost throttled accepted =
      let (dropped, net1) = should_drop_packet from to net in
      let (sendable, net2) = can_send_message from to (len message) now net1 in
      elim (Bool-cases (is_connection_active from to net)) [
        | inr a ↦ rw a (inactive a)
        | inl a ↦ elim (Bool-cases dropped) [
          | inl d ↦ rw (a, d) (lost a d)
          | inr d ↦ elim (Bool-cases sendable) [
            | inl s ↦ rw (a, d, s) (accepted a d s)
            | inr s ↦ rw (a, d, s) (throttled a d s)
          ]
        ]
      ]

  -- A network that differs from `net` in the burst states and the random engine alone.
  abbrev Redrawn : Network → Network → Type 0
  Redrawn net net' = net' ≡ record net { burst_state_map = net'.burst_state_map; rng = net'.rng }

  random_drop-Redrawn :
      (config : PacketLossConfig) (net : Network) → Redrawn net (random_drop config net).1
  unfolding random_drop
  random_drop-Redrawn config net = refl

  burst_drop-Redrawn :
      (key : ConnectionKey) (config : PacketLossConfig) (net : Network)
      → Redrawn net (burst_drop key config net).1
  unfolding burst_drop
  burst_drop-Redrawn key config net = ground arith

  pub should_drop_packet-Redrawn :
      (from to : ℕ) (net : Network) → Redrawn net (should_drop_packet from to net).1
  unfolding should_drop_packet
  should_drop_packet-Redrawn from to net =
      let config = get_packet_loss from to net in
      ground (arith, random_drop-Redrawn config net, burst_drop-Redrawn (from, to) config net)
