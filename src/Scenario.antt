-- ===== src/Scenario.antt =====
-- The configuration of a scenario, include/simulator/config_loader.hpp. The YAML reader that fills it
-- in belongs to another library.
pub mod Reader
pub mod Validation
pub mod Templates
pub mod ValidScenario
pub mod Checks
pub mod NoErrors
pub mod Accepted
use painless_mesh_simulator.Prelude.Int.{ℤ}
use painless_mesh_simulator.Prelude.{ℕ, Bool, String, Option, List}
use painless_mesh_simulator.Platform.{Platform}
use painless_mesh_simulator.TextMap.{TextMap}
use painless_mesh_simulator.Network.Config.{LatencyConfig, PacketLossConfig, BandwidthConfig}

pub data TopologyType : Type 0 where
  random star ring mesh custom : TopologyType

pub data EventAction : Type 0 where
  stop_node start_node restart_node crash_node remove_node add_nodes : EventAction
  partition_network heal_partition break_link restore_link inject_message : EventAction
  set_network_quality connection_drop connection_restore connection_degrade : EventAction

pub record ConnectionLatencyConfig : Type 0 where
  pub from : String
  pub to : String
  pub config : LatencyConfig

pub record ConnectionBandwidthConfig : Type 0 where
  pub from : String
  pub to : String
  pub config : BandwidthConfig

pub record NodeConfigExtended : Type 0 where
  pub id : String
  pub node_id : ℕ
  pub node_type : String
  pub firmware : String
  pub position : List ℤ
  pub mesh_prefix : String
  pub mesh_password : String
  pub mesh_port : ℕ
  pub firmware_config : TextMap
  pub sensor_interval : Option ℕ
  pub mqtt_broker : Option String
  pub mqtt_port : Option ℕ
  pub mqtt_topic_prefix : Option String

pub record NodeTemplate : Type 0 where
  pub template_name : String
  pub count : ℕ
  pub id_prefix : String
  pub base_config : NodeConfigExtended

pub record MetricsConfig : Type 0 where
  pub output : String
  pub interval : ℕ
  pub collect : List String
  pub export_formats : List String

pub record ValidationError : Type 0 where
  pub field : String
  pub message : String
  pub suggestion : String

module _ ⦃p : Platform⦄ where
  pub record ConnectionPacketLossConfig : Type 0 where
    pub from : String
    pub to : String
    pub config : PacketLossConfig

  pub record NetworkConfig : Type 0 where
    pub default_latency : LatencyConfig
    pub specific_latencies : List ConnectionLatencyConfig
    pub default_packet_loss : PacketLossConfig
    pub specific_packet_losses : List ConnectionPacketLossConfig
    pub default_bandwidth : BandwidthConfig
    pub specific_bandwidths : List ConnectionBandwidthConfig
    pub packet_loss : p.Float
    pub bandwidth : ℕ

  pub record SimulationConfig : Type 0 where
    pub name : String
    pub description : String
    -- in seconds, where 0 has no end
    pub duration : ℕ
    pub time_scale : p.Float
    pub seed : ℕ

  pub record TopologyConfig : Type 0 where
    pub topology_type : TopologyType
    pub hub : Option String
    pub density : p.Float
    pub bidirectional : Bool
    pub connections : List (String × String)

  pub record EventConfig : Type 0 where
    pub time : ℕ
    pub action : EventAction
    pub target : String
    pub targets : List String
    pub description : String
    pub groups : List (List String)
    pub from : String
    pub to : String
    pub payload : String
    pub quality : p.Float
    pub count : ℕ
    pub template_name : String
    pub id_prefix : String
    pub graceful : Bool
    pub delay : ℕ
    pub latency : ℕ
    pub packet_loss : p.Float

  pub record ScenarioConfig : Type 0 where
    pub simulation : SimulationConfig
    pub network : NetworkConfig
    pub nodes : List NodeConfigExtended
    pub templates : List NodeTemplate
    pub topology : TopologyConfig
    pub events : List EventConfig
    pub metrics : MetricsConfig
