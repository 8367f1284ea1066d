-- ===== src/Samples.antt =====
-- A concrete platform, devices and states on which the models run: fixed-point numbers in thousandths
-- in place of floating point, and a congruential generator in place of the Mersenne twister.
mod NetworkRuns
mod NodeRuns
mod EventRuns
mod ScenarioRuns
mod ProgramRuns
mod SimulationRuns
mod MainRuns
mod FirmwareRuns
mod YamlTree
mod ReaderRuns
use painless_mesh_simulator.Prelude.{
  ℕ, ◌+◌, ◌-◌, ◌*◌, ◌/◌, ◌%◌, ◌≤◌, ◌<◌, ◌≡◌, refl, Bool, true, false, List, [], ◌∷◌, Option, none,
  some, String, ltb, leb, str_eq, if◌then◌else◌, arith,
}
use painless_mesh_simulator.Result.{Exception}
use painless_mesh_simulator.Platform.{Platform, FloatOps, UniformInRange}
use painless_mesh_simulator.Devices.{Devices}
use painless_mesh_simulator.MinQueue.{MinQueue}
use painless_mesh_simulator.MinQueue.Sorted.{sorted_queue}
use painless_mesh_simulator.Network.State.{Network, DelayedMessage, delivery_key}
use painless_mesh_simulator.Network.Config.{DistributionType, PacketLossConfig}
use painless_mesh_simulator.Node.{VirtualNode, NodeConfig, NodeMetrics}
use painless_mesh_simulator.EventScheduler.{ScheduledEvent, due_key}

-- Numbers in thousandths.
abbrev thousandths : FloatOps ℕ
thousandths = record {
  of_ℕ = λ n. n * 1000;
  lt = ltb;
  le = leb;
  add = λ a b. a + b;
  mul = λ a b. a * b / 1000;
  div = λ a b. a * 1000 / b;
  round = λ a. (a + 500) / 1000;
  trunc = λ a. a / 1000;
}

abbrev pub next : ℕ → ℕ
next e = (e * 1103515245 + 12345) % 2147483648

instance abbrev pub sample_platform : Platform
sample_platform = record {
  Float = ℕ;
  Double = ℕ;
  Engine = ℕ;
  float = thousandths;
  double = thousandths;
  uniform_int = λ lo hi e. (lo + e % (hi - lo + 1), next e);
  uniform_real = λ e. (e % 1000, next e);
  normal = λ mean stddev e. (mean, next e);
  exponential = λ lambda e. (1000000 / lambda, next e);
}

pub sample_uniform : UniformInRange sample_platform
sample_uniform lo hi e h =
    let small : e % (hi - lo + 1) < hi - lo + 1 = omega arith in (omega arith, omega (arith, small))

-- A firmware that counts the calls of its methods.
instance abbrev pub sample_devices : Devices
sample_devices = record {
  mesh_error = λ id. none;
  Firmware = ℕ;
  create = λ name. if str_eq name "SimpleBroadcast" then some 0 else none;
  initialize = λ id config f. f + 1;
  setup = λ f. (f + 1, none);
  loop = λ f. f + 1;
  on_receive = λ from message f. f + 1;
  on_new_connection = λ id f. f + 1;
  on_changed_connections = λ f. f + 1;
}

instance abbrev pub message_queue : MinQueue DelayedMessage delivery_key
message_queue = sorted_queue delivery_key

instance abbrev pub event_queue : MinQueue ScheduledEvent due_key
event_queue = sorted_queue due_key

abbrev pub sample_loss : PacketLossConfig
sample_loss = record { probability = 500; burst_mode = true; burst_length = 3 }

abbrev pub sample_network : Network
sample_network = record {
  default_latency = record { min_ms = 10; max_ms = 50; distribution = DistributionType.uniform };
  latency_map = [];
  message_queue = message_queue.empty;
  default_packet_loss = record { probability = 0; burst_mode = false; burst_length = 3 };
  packet_loss_map = [];
  default_bandwidth = record { max_bytes_per_sec = 100; max_messages_per_sec = 2; bucket_size = 5 };
  bandwidth_map = [];
  bandwidth_buckets = [];
  stats_map = [];
  burst_state_map = [];
  dropped_connections = [];
  rng = 7;
}

abbrev pub sample_config : ℕ → NodeConfig
sample_config id = record {
  node_id = id;
  mesh_prefix = "TestMesh";
  mesh_password = "password";
  mesh_port = 5555;
  firmware = "SimpleBroadcast";
  firmware_config = [];
}

abbrev sample_metrics : NodeMetrics
sample_metrics = record {
  messages_sent = 0;
  messages_received = 0;
  bytes_sent = 0;
  bytes_received = 0;
  start_time = 100;
  crash_count = 0;
  total_uptime_ms = 0;
}

abbrev pub sample_node : ℕ → Bool → VirtualNode
sample_node id running = record {
  node_id = id;
  has_mesh = true;
  mesh_calls = [];
  metrics = sample_metrics;
  running = running;
  network_quality = 1000;
  partition_id = 0;
  config = sample_config id;
  firmware = some 0;
  firmware_initialized = false;
}
