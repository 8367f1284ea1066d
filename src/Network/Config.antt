-- ===== src/Network/Config.antt =====
-- The configuration structs of include/simulator/network_simulator.hpp and their `isValid`, and the
-- names of the latency distributions.
use painless_mesh_simulator.Prelude.{ℕ, Bool, false, ◌&&◌, leb, ltb}
use painless_mesh_simulator.Platform.{Platform}

pub data DistributionType : Type 0 where
  uniform normal exponential : DistributionType

pub record LatencyConfig : Type 0 where
  pub min_ms : ℕ
  pub max_ms : ℕ
  pub distribution : DistributionType

-- LatencyConfig::isValid
abbrev pub is_valid_latency : LatencyConfig → Bool
is_valid_latency c = leb c.min_ms c.max_ms

pub record BandwidthConfig : Type 0 where
  pub max_bytes_per_sec : ℕ
  pub max_messages_per_sec : ℕ
  pub bucket_size : ℕ

-- BandwidthConfig::isValid
abbrev pub is_valid_bandwidth : BandwidthConfig → Bool
is_valid_bandwidth c = ltb 0 c.bucket_size

-- The values that a default-constructed struct has.
abbrev pub latency_default : LatencyConfig
latency_default = record { min_ms = 0; max_ms = 100; distribution = DistributionType.uniform }

abbrev pub bandwidth_default : BandwidthConfig
bandwidth_default = record { max_bytes_per_sec = 0; max_messages_per_sec = 0; bucket_size = 1000 }

module _ ⦃p : Platform⦄ where
  pub record PacketLossConfig : Type 0 where
    pub probability : p.Float
    pub burst_mode : Bool
    pub burst_length : ℕ

  -- PacketLossConfig::isValid
  abbrev pub is_valid_loss : PacketLossConfig → Bool
  is_valid_loss c =
      p.float.le (p.float.of_ℕ 0) c.probability
      && p.float.le c.probability (p.float.of_ℕ 1)
      && ltb 0 c.burst_length

  abbrev pub loss_default : PacketLossConfig
  loss_default = record { probability = p.float.of_ℕ 0; burst_mode = false; burst_length = 3 }
