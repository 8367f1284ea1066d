-- ===== src/Firmware/Factory.antt =====
-- The registry of firmware classes, include/simulator/firmware/firmware_factory.hpp. A creator is the
-- firmware that it makes.
pub mod Refinement
use painless_mesh_simulator.Prelude.{ℕ, String, Bool, true, false, List, [], Option, if◌then◌else◌}
use painless_mesh_simulator.StdMap
use painless_mesh_simulator.StdMap.TextOrder.{text_key}
use painless_mesh_simulator.StdMap.{StdMap}

abbrev pub FirmwareFactory : Type 0 → Type 0
FirmwareFactory F = StdMap String F

module _ {F : Type 0} where
  unfoldable pub register_firmware : String → F → FirmwareFactory F → Bool × FirmwareFactory F
  register_firmware name creator creators =
      if StdMap.contains name creators
      then (false, creators)
      else (true, StdMap.insert name creator creators)

  unfoldable pub create : String → FirmwareFactory F → Option F
  create name creators = StdMap.find name creators

  unfoldable pub is_registered : String → FirmwareFactory F → Bool
  is_registered name creators = StdMap.contains name creators

  unfoldable pub get_registered_names : FirmwareFactory F → List String
  get_registered_names creators = StdMap.keys creators

  unfoldable pub unregister_firmware : String → FirmwareFactory F → Bool × FirmwareFactory F
  unregister_firmware name creators = (StdMap.contains name creators, StdMap.erase name creators)

  unfoldable pub clear : FirmwareFactory F → FirmwareFactory F
  clear creators = []
