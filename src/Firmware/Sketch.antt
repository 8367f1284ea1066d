-- ===== src/Firmware/Sketch.antt =====
-- Arduino sketches as firmware, include/simulator/firmware/ino_firmware_wrapper.hpp. The wrapper calls
-- the functions of the sketch that its interface holds; until `setup` has created the interface, it
-- holds none.
pub mod Basic
pub mod Bridge
pub mod Senders
use painless_mesh_simulator.Prelude.{
  ℕ, String, Bool, true, false, Option, none, some, if◌then◌else◌,
}
use painless_mesh_simulator.Prelude.Int.{ℤ}
use painless_mesh_simulator.Firmware.{MeshAnswers}

-- InoFirmwareInterface: a function that is not bound is `none`.
pub record InoInterface (S : Type 0) : Type 0 where
  pub setup : Option (MeshAnswers → S → S)
  pub loop : Option (MeshAnswers → S → S)
  pub received_callback : Option (ℕ → String → S → S)
  pub new_connection_callback : Option (ℕ → S → S)
  pub changed_connection_callback : Option (S → S)
  pub node_time_adjusted_callback : Option (ℤ → S → S)

pub record InoFirmwareWrapper (S : Type 0) : Type 0 where
  pub sketch : S
  pub interface : InoInterface S
  pub interface_created : Bool

abbrev no_interface : {S : Type 0} → InoInterface S
no_interface = record {
  setup = none;
  loop = none;
  received_callback = none;
  new_connection_callback = none;
  changed_connection_callback = none;
  node_time_adjusted_callback = none;
}

unfoldable pub wrapper : {S : Type 0} → S → InoFirmwareWrapper S
wrapper sketch = record { sketch = sketch; interface = no_interface; interface_created = false }

-- if (f) f(...);
abbrev if_bound : {S : Type 0} → Option (S → S) → S → S
if_bound none s = s
if_bound (some f) s = f s

abbrev pub bound : {A S : Type 0} → Option (A → S → S) → A → S → S
bound none a s = s
bound (some f) a s = f a s

module _ {S : Type 0} where
  abbrev on_sketch : (S → S) → InoFirmwareWrapper S → InoFirmwareWrapper S
  on_sketch f w = record w { sketch = f w.sketch }

  unfoldable pub create_interface : InoInterface S → InoFirmwareWrapper S → InoFirmwareWrapper S
  create_interface created w =
      if w.interface_created then w else record w { interface = created; interface_created = true }

  -- The first argument is what `createInoInterface` returns.
  unfoldable pub setup : InoInterface S → MeshAnswers → InoFirmwareWrapper S → InoFirmwareWrapper S
  unfolding create_interface
  setup created answers w =
      let ready = create_interface created w in
      on_sketch (bound ready.interface.setup answers) ready

  unfoldable pub loop : MeshAnswers → InoFirmwareWrapper S → InoFirmwareWrapper S
  loop answers w = on_sketch (bound w.interface.loop answers) w

  unfoldable pub on_receive : ℕ → String → InoFirmwareWrapper S → InoFirmwareWrapper S
  on_receive from message w = elim w.interface.received_callback [
    | none ↦ w
    | some f ↦ on_sketch (f from message) w
  ]

  unfoldable pub on_new_connection : ℕ → InoFirmwareWrapper S → InoFirmwareWrapper S
  on_new_connection node_id w = on_sketch (bound w.interface.new_connection_callback node_id) w

  unfoldable pub on_changed_connections : InoFirmwareWrapper S → InoFirmwareWrapper S
  on_changed_connections w = on_sketch (if_bound w.interface.changed_connection_callback) w

  unfoldable pub on_node_time_adjusted : ℤ → InoFirmwareWrapper S → InoFirmwareWrapper S
  on_node_time_adjusted offset w =
      on_sketch (bound w.interface.node_time_adjusted_callback offset) w
