-- ===== src/Scenario/Reader/NetworkSection.antt =====
-- The network section of a scenario file, `parseNetwork`.
use painless_mesh_simulator.Prelude.{ℕ, String, false, List, [], Option, none, some, if◌then◌else◌}
use painless_mesh_simulator.Platform.{Platform}
use painless_mesh_simulator.Result.{Result, ok, err, ◌>>=◌}
use painless_mesh_simulator.Network.Config.{
  DistributionType, LatencyConfig, PacketLossConfig, BandwidthConfig, latency_default, loss_default,
  bandwidth_default,
}
use painless_mesh_simulator.Scenario.{
  ConnectionLatencyConfig, ConnectionPacketLossConfig, ConnectionBandwidthConfig, NetworkConfig,
}
use painless_mesh_simulator.Scenario.Reader.Yaml.{
  Yaml, get_string, get_uint32, get_float, get_bool, sequence_at, read_each,
}
use painless_mesh_simulator.Scenario.Reader.Names.{
  distribution_type_to_string, string_to_distribution_type,
}

-- try { stringToDistributionType(name) } with a value for the exception
unfoldable pub distribution_or : DistributionType → String → DistributionType
distribution_or fallback name = elim (string_to_distribution_type name) [
  | ok distribution ↦ distribution
  | err e ↦ fallback
]

module _ ⦃p : Platform⦄ ⦃y : Yaml⦄ where
  unfoldable pub parse_default_latency : y.Node → Result LatencyConfig
  parse_default_latency node = do
    min_ms ← get_uint32 node "min" 10
    max_ms ← get_uint32 node "max" 50
    name ← get_string node "distribution" "normal"
    ok (record {
      min_ms = min_ms;
      max_ms = max_ms;
      distribution = distribution_or DistributionType.normal name;
    })

  unfoldable pub parse_connection_latency : LatencyConfig → y.Node → Result ConnectionLatencyConfig
  parse_connection_latency default node = do
    from ← get_string node "from" ""
    to ← get_string node "to" ""
    min_ms ← get_uint32 node "min" default.min_ms
    max_ms ← get_uint32 node "max" default.max_ms
    name ← get_string node "distribution" (distribution_type_to_string default.distribution)
    ok (record {
      from = from;
      to = to;
      config = record {
        min_ms = min_ms;
        max_ms = max_ms;
        distribution = distribution_or default.distribution name;
      };
    })

  -- The section under "latency", where "default" may hold the default settings.
  unfoldable pub parse_latency : y.Node → Result (LatencyConfig × List ConnectionLatencyConfig)
  parse_latency node = do
    found ← y.at node "default"
    default ← parse_default_latency (elim found [ none ↦ node | some inner ↦ inner ])
    connections ← sequence_at node "specific_connections"
    specific ← read_each (parse_connection_latency default) connections
    ok (default, specific)

  unfoldable pub parse_default_loss : y.Node → Result PacketLossConfig
  parse_default_loss node = do
    probability ← get_float node "probability" (p.float.of_ℕ 0)
    burst_mode ← get_bool node "burst_mode" false
    burst_length ← get_uint32 node "burst_length" 3
    ok (record { probability = probability; burst_mode = burst_mode; burst_length = burst_length })

  unfoldable pub parse_connection_loss :
      PacketLossConfig → y.Node → Result ConnectionPacketLossConfig
  parse_connection_loss default node = do
    from ← get_string node "from" ""
    to ← get_string node "to" ""
    probability ← get_float node "probability" default.probability
    burst_mode ← get_bool node "burst_mode" default.burst_mode
    burst_length ← get_uint32 node "burst_length" default.burst_length
    ok (record {
      from = from;
      to = to;
      config = record {
        probability = probability;
        burst_mode = burst_mode;
        burst_length = burst_length;
      };
    })

  -- A section in the structured format: the settings under "default", where they are given, and those
  -- of single connections.
  unfoldable pub parse_structured :
      {C D : Type 0}
      → C
      → (y.Node → Result C)
      → (C → y.Node → Result D)
      → y.Node
      → Result (C × List D)
  parse_structured initial parse_default parse_connection node = do
    found ← y.at node "default"
    default ← elim found [ none ↦ ok initial | some inner ↦ parse_default inner ]
    connections ← sequence_at node "specific_connections"
    specific ← read_each (parse_connection default) connections
    ok (default, specific)

  -- The last part is the legacy rate.
  unfoldable pub parse_packet_loss :
      y.Node → Result (PacketLossConfig × List ConnectionPacketLossConfig × p.Float)
  parse_packet_loss node = do
    found ← y.at node "packet_loss"
    elim found [
      | none ↦ ok (record loss_default { probability = p.float.of_ℕ 0 }, [], p.float.of_ℕ 0)
      | some loss ↦
          if y.is_map loss
          then (parse_structured loss_default parse_default_loss parse_connection_loss loss
              >>= λ read. ok (read.0, read.1, p.float.of_ℕ 0))
          else y.as_float loss >>= λ legacy.
              ok (record loss_default { probability = legacy }, [], legacy)
    ]

  unfoldable pub parse_default_bandwidth : y.Node → Result BandwidthConfig
  parse_default_bandwidth node = do
    bytes ← get_uint32 node "max_bytes_per_sec" 0
    messages ← get_uint32 node "max_messages_per_sec" 0
    bucket ← get_uint32 node "bucket_size" 1000
    ok (record { max_bytes_per_sec = bytes; max_messages_per_sec = messages; bucket_size = bucket })

  unfoldable pub parse_connection_bandwidth :
      BandwidthConfig → y.Node → Result ConnectionBandwidthConfig
  parse_connection_bandwidth default node = do
    from ← get_string node "from" ""
    to ← get_string node "to" ""
    bytes ← get_uint32 node "max_bytes_per_sec" default.max_bytes_per_sec
    messages ← get_uint32 node "max_messages_per_sec" default.max_messages_per_sec
    bucket ← get_uint32 node "bucket_size" default.bucket_size
    ok (record {
      from = from;
      to = to;
      config = record {
        max_bytes_per_sec = bytes;
        max_messages_per_sec = messages;
        bucket_size = bucket;
      };
    })

  -- The last part is the legacy bandwidth in bits per second.
  unfoldable pub parse_bandwidth :
      y.Node → Result (BandwidthConfig × List ConnectionBandwidthConfig × ℕ)
  parse_bandwidth node = do
    found ← y.at node "bandwidth"
    elim found [
      | none ↦ ok (bandwidth_default, [], 1000000)
      | some bandwidth ↦
          if y.is_map bandwidth
          then (parse_structured bandwidth_default parse_default_bandwidth
                parse_connection_bandwidth bandwidth
              >>= λ read. ok (read.0, read.1, 1000000))
          else y.as_uint64 bandwidth >>= λ legacy. ok (bandwidth_default, [], legacy)
    ]

  unfoldable pub latency_section :
      Option y.Node → Result (LatencyConfig × List ConnectionLatencyConfig)
  latency_section none = ok (latency_default, [])
  latency_section (some node) = parse_latency node

  unfoldable pub parse_network : y.Node → Result NetworkConfig
  parse_network node = do
    found ← y.at node "latency"
    latency ← latency_section found
    loss ← parse_packet_loss node
    bandwidth ← parse_bandwidth node
    ok (record {
      default_latency = latency.0;
      specific_latencies = latency.1;
      default_packet_loss = loss.0;
      specific_packet_losses = loss.1;
      default_bandwidth = bandwidth.0;
      specific_bandwidths = bandwidth.1;
      packet_loss = loss.2;
      bandwidth = bandwidth.2;
    })
