-- ===== src/Network/Messages/Ready.antt =====
-- What `getReadyMessages` takes out of the queue.
use painless_mesh_simulator.Prelude.{ℕ, suc, ◌≡◌, refl, arith}
use painless_mesh_simulator.Platform.{Platform}
use painless_mesh_simulator.MinQueue.{MinQueue, size}
use painless_mesh_simulator.MinQueue.Drain.{Drained, drain-Drained}
use painless_mesh_simulator.Network.State.{Network, DelayedMessage, delivery_key}
use painless_mesh_simulator.Network.Messages.{get_ready_messages}

module _ ⦃p : Platform⦄ ⦃queues : MinQueue DelayedMessage delivery_key⦄ where
  -- `getReadyMessages` ends, and splits the queue: the messages that it returns and those that stay
  -- are together the messages that were queued; those returned are due at the given time and come in
  -- the order of their delivery times, and those that stay are due later. Nothing else changes.
  pub get_ready_messages_lem :
      (now : ℕ) (net : Network)
      → let (ready, net') = get_ready_messages now net in
        Drained queues now net.message_queue (ready, net'.message_queue)
        × (net' ≡ record net { message_queue = net'.message_queue })
  unfolding get_ready_messages
  get_ready_messages_lem now net = (
    drain-Drained queues (suc (size queues net.message_queue)) now net.message_queue (omega arith),
    refl,
  )
