-- ===== src/Firmware/LibraryValidation.antt =====
-- The firmware that tests the painlessMesh library while a simulation runs,
-- src/firmware/library_validation_firmware.cpp.
pub mod State
pub mod Suites
pub mod Phases
pub mod Callbacks
pub mod Judged
pub mod Operations
pub mod Quiet
pub mod Reported
pub mod Verdict
pub mod Gaps
pub mod Order
