-- ===== src/Firmware/LibraryValidation/Callbacks.antt =====
-- The callbacks of the validation firmware.
use Prim.Native.String.{◌++◌}
use text.Mathlib.Text.{starts_with}
use painless_mesh_simulator.Prelude.{ℕ, String, true, false, [], ◌∷◌, if◌then◌else◌, add32}
use mathlib.Core.List.{◌++◌ as ◌+++◌}
use painless_mesh_simulator.Prelude.Int.{ℤ}
use painless_mesh_simulator.Platform.{Platform}
use painless_mesh_simulator.StdMap
use painless_mesh_simulator.StdMap.{ℕ_key}
use painless_mesh_simulator.Text.{to_string}
use painless_mesh_simulator.Firmware.{send_single}
use painless_mesh_simulator.Firmware.LibraryValidation.State.{
  LibraryValidationFirmware, record_message,
}

module _ ⦃p : Platform⦄ where
  unfoldable pub on_receive : ℕ → String → LibraryValidationFirmware → LibraryValidationFirmware
  on_receive from message f =
      let counted = record_message false f in
      let tracked = record counted {
        messages_from_node =
            StdMap.insert from (add32 (StdMap.find_or 0 from counted.messages_from_node) 1)
              counted.messages_from_node;
      } in
      let response = "PONG:" ++ to_string f.base.node_id in
      if starts_with message "PING:"
      then record_message true (record tracked { base = send_single from response tracked.base })
      else tracked

  unfoldable pub on_new_connection : ℕ → LibraryValidationFirmware → LibraryValidationFirmware
  on_new_connection node_id f = record f {
    connected_nodes = StdMap.insert node_id tt f.connected_nodes;
  }

  unfoldable pub on_changed_connections : LibraryValidationFirmware → LibraryValidationFirmware
  on_changed_connections f = record f {
    report = record (f.report) { topology_change_count = add32 f.report.topology_change_count 1 };
  }

  unfoldable pub on_node_time_adjusted : ℤ → LibraryValidationFirmware → LibraryValidationFirmware
  on_node_time_adjusted offset f = record f {
    time_adjustments = f.time_adjustments +++ (offset ∷ []);
  }
