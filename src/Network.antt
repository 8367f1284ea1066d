-- ===== src/Network.antt =====
-- The network simulator, src/network/network_simulator.cpp and its header.
pub mod Config
pub mod State
pub mod Connections
pub mod Latency
pub mod Loss
pub mod Bandwidth
pub mod Stats
pub mod Messages
pub mod Settings
