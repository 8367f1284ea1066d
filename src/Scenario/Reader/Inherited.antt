-- ===== src/Scenario/Reader/Inherited.antt =====
-- Where the settings of a single connection come from.
use painless_mesh_simulator.Prelude.{◌≡◌, sym, List, none, some, subst}
use painless_mesh_simulator.Platform.{Platform}
use painless_mesh_simulator.Result.{Result, ok, both_returned}
use painless_mesh_simulator.Network.Config.{
  LatencyConfig, PacketLossConfig, BandwidthConfig, loss_default, bandwidth_default,
}
use painless_mesh_simulator.Scenario.{
  ConnectionLatencyConfig, ConnectionPacketLossConfig, ConnectionBandwidthConfig,
}
use painless_mesh_simulator.Scenario.Reader.Yaml.{
  Yaml, get_string, get_uint32, get_float, get_bool, read_each, sequence_at,
}
use painless_mesh_simulator.Scenario.Reader.Names.{distribution_type_to_string}
use painless_mesh_simulator.Scenario.Reader.Chosen.{
  Chosen, get-Chosen, value_of, DistributionChosen, name-DistributionChosen, Each, read_each-Each,
  ConnectionsOf,
}
use painless_mesh_simulator.Scenario.Reader.NetworkSection.{
  parse_connection_latency, parse_connection_loss, parse_connection_bandwidth,
  parse_default_latency, parse_latency, parse_structured, parse_default_loss,
  parse_default_bandwidth,
}

module _ ⦃p : Platform⦄ ⦃y : Yaml⦄ where
  abbrev pub LatencyChosen : LatencyConfig → y.Node → LatencyConfig → Type 0
  LatencyChosen default node c =
      Chosen y.as_uint32 node "min" default.min_ms c.min_ms
      × Chosen y.as_uint32 node "max" default.max_ms c.max_ms
      × DistributionChosen node default.distribution c.distribution

  abbrev pub LossChosen : PacketLossConfig → y.Node → PacketLossConfig → Type 0
  LossChosen default node c =
      Chosen y.as_float node "probability" default.probability c.probability
      × Chosen y.as_bool node "burst_mode" default.burst_mode c.burst_mode
      × Chosen y.as_uint32 node "burst_length" default.burst_length c.burst_length

  abbrev pub BandwidthChosen : BandwidthConfig → y.Node → BandwidthConfig → Type 0
  BandwidthChosen default node c =
      Chosen y.as_uint32 node "max_bytes_per_sec" default.max_bytes_per_sec c.max_bytes_per_sec
      × Chosen y.as_uint32 node "max_messages_per_sec" default.max_messages_per_sec
          c.max_messages_per_sec
      × Chosen y.as_uint32 node "bucket_size" default.bucket_size c.bucket_size

  latency_chosen :
      (default : LatencyConfig) (node : y.Node) (c : ConnectionLatencyConfig)
      → parse_connection_latency default node ≡ ok c
      → LatencyChosen default node c.config
  unfolding parse_connection_latency
  latency_chosen default node c h =
      let (from, _, h1) = both_returned (get_string node "from" "") _ h in
      let (to, _, h2) = both_returned (get_string node "to" "") _ h1 in
      let (min_ms, e3, h3) = both_returned (get_uint32 node "min" default.min_ms) _ h2 in
      let (max_ms, e4, h4) = both_returned (get_uint32 node "max" default.max_ms) _ h3 in
      let (name, e5, h5) =
        both_returned
          (get_string node "distribution" (distribution_type_to_string default.distribution)) _
          h4 in
      subst (λ c. LatencyChosen default node c.config) (sym (value_of h5))
        (
          get-Chosen y.as_uint32 node "min" default.min_ms min_ms e3,
          get-Chosen y.as_uint32 node "max" default.max_ms max_ms e4,
          name-DistributionChosen node default.distribution name
              (get-Chosen y.as_string node "distribution" _ name e5),
        )

  loss_chosen :
      (default : PacketLossConfig) (node : y.Node) (c : ConnectionPacketLossConfig)
      → parse_connection_loss default node ≡ ok c
      → LossChosen default node c.config
  unfolding parse_connection_loss
  loss_chosen default node c h =
      let (from, _, h1) = both_returned (get_string node "from" "") _ h in
      let (to, _, h2) = both_returned (get_string node "to" "") _ h1 in
      let (probability, e3, h3) =
        both_returned (get_float node "probability" default.probability) _ h2 in
      let (mode, e4, h4) = both_returned (get_bool node "burst_mode" default.burst_mode) _ h3 in
      let (burst, e5, h5) =
        both_returned (get_uint32 node "burst_length" default.burst_length) _ h4 in
      subst (λ c. LossChosen default node c.config) (sym (value_of h5))
        (
          get-Chosen y.as_float node "probability" _ probability e3,
          get-Chosen y.as_bool node "burst_mode" _ mode e4,
          get-Chosen y.as_uint32 node "burst_length" _ burst e5,
        )

  bandwidth_chosen :
      (default : BandwidthConfig) (node : y.Node) (c : ConnectionBandwidthConfig)
      → parse_connection_bandwidth default node ≡ ok c
      → BandwidthChosen default node c.config
  unfolding parse_connection_bandwidth
  bandwidth_chosen default node c h =
      let (from, _, h1) = both_returned (get_string node "from" "") _ h in
      let (to, _, h2) = both_returned (get_string node "to" "") _ h1 in
      let (bytes, e3, h3) =
        both_returned (get_uint32 node "max_bytes_per_sec" default.max_bytes_per_sec) _ h2 in
      let (messages, e4, h4) =
        both_returned (get_uint32 node "max_messages_per_sec" default.max_messages_per_sec) _ h3 in
      let (bucket, e5, h5) =
        both_returned (get_uint32 node "bucket_size" default.bucket_size) _ h4 in
      subst (λ c. BandwidthChosen default node c.config) (sym (value_of h5))
        (
          get-Chosen y.as_uint32 node "max_bytes_per_sec" _ bytes e3,
          get-Chosen y.as_uint32 node "max_messages_per_sec" _ messages e4,
          get-Chosen y.as_uint32 node "bucket_size" _ bucket e5,
        )

  latency_connections :
      (section : y.Node) (default : LatencyConfig) (specific : List ConnectionLatencyConfig)
      → parse_latency section ≡ ok (default, specific)
      → ConnectionsOf (λ n c. LatencyChosen default n c.config) section specific
  unfolding parse_latency
  latency_connections section default specific h =
      let (found, _, h1) = both_returned (y.at section "default") _ h in
      let (read, _, h2) =
        both_returned (parse_default_latency (elim found [ none ↦ section | some inner ↦ inner ])) _
          h1 in
      let (items, e3, h3) = both_returned (sequence_at section "specific_connections") _ h2 in
      let (cs, e4, h4) = both_returned (read_each (parse_connection_latency read) items) _ h3 in
      let same = value_of h4 in
      (
        items,
        e3,
        subst (λ r. Each (λ n c. LatencyChosen r.0 n c.config) items r.1) (sym same)
            (read_each-Each (λ n c. LatencyChosen read n c.config) (parse_connection_latency read)
              (latency_chosen read) items cs e4),
      )

  structured_connections :
      {C D : Type 0} (P : C → y.Node → D → Type 0) (initial : C) (parse_default : y.Node → Result C)
      (parse_connection : C → y.Node → Result D)
      → ((d : C) (n : y.Node) (c : D) → parse_connection d n ≡ ok c → P d n c)
      → (section : y.Node) (default : C) (specific : List D)
      → parse_structured initial parse_default parse_connection section ≡ ok (default, specific)
      → ConnectionsOf (P default) section specific
  unfolding parse_structured
  structured_connections P initial parse_default parse_connection f section default specific h =
      let (found, _, h1) = both_returned (y.at section "default") _ h in
      let (read, _, h2) =
        both_returned (elim found [ none ↦ ok initial | some inner ↦ parse_default inner ]) _ h1 in
      let (items, e3, h3) = both_returned (sequence_at section "specific_connections") _ h2 in
      let (cs, e4, h4) = both_returned (read_each (parse_connection read) items) _ h3 in
      (
        items,
        e3,
        subst (λ r. Each (P r.0) items r.1) (sym (value_of h4))
            (read_each-Each (P read) (parse_connection read) (f read) items cs e4),
      )

  -- The settings of single connections, in the latency section and in the structured formats of packet
  -- loss and bandwidth: when a section is read, each item under "specific_connections" gives one
  -- connection, in order, and each of its settings is what the item gives, or else the section's
  -- default. A distribution with a name that is not known is the default's too.
  pub connections_inherit :
      (latency loss bandwidth : y.Node) (default_latency : LatencyConfig)
      (latencies : List ConnectionLatencyConfig) (default_loss : PacketLossConfig)
      (losses : List ConnectionPacketLossConfig) (default_bandwidth : BandwidthConfig)
      (bandwidths : List ConnectionBandwidthConfig)
      → parse_latency latency ≡ ok (default_latency, latencies)
      → parse_structured loss_default parse_default_loss parse_connection_loss loss
        ≡ ok (default_loss, losses)
      → parse_structured bandwidth_default parse_default_bandwidth parse_connection_bandwidth
          bandwidth
        ≡ ok (default_bandwidth, bandwidths)
      → ConnectionsOf (λ n c. LatencyChosen default_latency n c.config) latency latencies
        × ConnectionsOf (λ n c. LossChosen default_loss n c.config) loss losses
        × ConnectionsOf (λ n c. BandwidthChosen default_bandwidth n c.config) bandwidth bandwidths
  connections_inherit latency loss bandwidth dl ls dp ps db bs h1 h2 h3 = (
    latency_connections latency dl ls h1,
    structured_connections (λ d n c. LossChosen d n c.config) _ _ _ loss_chosen loss dp ps h2,
    structured_connections (λ d n c. BandwidthChosen d n c.config) _ _ _ bandwidth_chosen bandwidth
        db bs h3,
  )
