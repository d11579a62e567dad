-- ===== src/Examples/Engines.antt =====
-- A router with one neighbor, over a fixed link cost, and an Update that it receives.
use babel_rs.Base.{ℕ, true, false, [], ◌∷◌, none, some, Bytes, bytes_eq, pair_eq}
use babel_rs.Model.{v6, net_eq, key_eq}
use babel_rs.Metric.{additive_extend, empty_histories}
use babel_rs.Wire.{ResolvedUpdate}
use babel_rs.Engine.Api.{EngineConfig, MetricProfile, NeighborMetric, RouteSelectionConfig}
use babel_rs.Engine.State.{Engine, Neighbor, NeighborKey, neighbor_eq, SourceEntry}
use babel_rs.Examples.Prefixes.{Prefix, prefix_net, network_key}

-- A metric of the host: a fixed link cost.
instance abbrev pub fixed_metric : NeighborMetric ℕ
fixed_metric = record {
  on_hello = λ m h. m;
  on_ihu = λ m cost. m;
  on_rtt_sample = λ m sample now. m;
  receive_cost = λ m. m;
  transmit_cost = λ m. m;
  link_cost = λ m. m;
}

abbrev pub fixed_profile : MetricProfile ℕ
fixed_profile = record {
  name = [];
  new_neighbor = λ interface. 96;
  timestamps_enabled = false;
  rtt_probe_interval_ms = none;
}

abbrev pub own_id : Bytes
own_id = 0 ∷ 0 ∷ 0 ∷ 0 ∷ 0 ∷ 0 ∷ 0 ∷ 1 ∷ []

abbrev pub other_id : Bytes
other_id = 0 ∷ 0 ∷ 0 ∷ 0 ∷ 0 ∷ 0 ∷ 0 ∷ 2 ∷ []

abbrev pub margins : RouteSelectionConfig
margins = record { switch_margin_percent = 5; switch_margin_metric = 8; better_for_ms = 8_000 }

abbrev pub router_config : EngineConfig Prefix ℕ
router_config = record {
  route_policy = record { accept = λ c. true; announce = λ c. true };
  ipv4_via_ipv6 = true;
  limits = record {
    max_neighbors = 256;
    max_candidates = 16_384;
    max_candidates_per_neighbor = 4_096;
  };
  router_id = own_id;
  metric = fixed_profile;
  metric_algebra = additive_extend;
  sequence_number = 7;
  hello_interval_cs = 400;
  update_interval_cs = 1600;
  route_selection = margins;
}

abbrev pub peer : NeighborKey
peer = record {
  interface = 101 ∷ 48 ∷ [];
  address = v6 (0xfe ∷ 0x80 ∷ 0 ∷ 0 ∷ 0 ∷ 0 ∷ 0 ∷ 0 ∷ 0 ∷ 0 ∷ 0 ∷ 0 ∷ 0 ∷ 0 ∷ 0 ∷ 2 ∷ []);
}

abbrev pub peer_state : Neighbor ℕ
peer_state = record {
  candidates = 0;
  rejected_candidates = 0;
  last_hello_ms = 0;
  histories = empty_histories;
  multicast_timer = none;
  unicast_timer = none;
  last_ihu_ms = none;
  last_ihu_cost = none;
  ihu_interval_cs = 1200;
  next_ihu_ms = 0;
  next_rtt_probe_ms = none;
  origin_timestamp = none;
  receive_timestamp = none;
  unicast_hello_seqno = 0;
  metric = 96;
}

abbrev pub old_source : SourceEntry
old_source = record { distance = record { seqno = 4; metric = 50 }; expires_ms = 10_000 }

-- The source of the network was once advertised at distance 50.
abbrev pub router : Engine Prefix ℕ
router = record {
  resources = record {
    limits = router_config.limits;
    candidates = 0;
    sources = 0;
    pending_requests = 0;
    unreachable = 0;
    rejected_neighbors = 0;
    rejected_candidates_global = 0;
    rejected_candidates_per_neighbor = 0;
  };
  config = router_config;
  interfaces = [];
  neighbours = (peer, peer_state) ∷ [];
  candidates = [];
  feasible = ((network_key, other_id), old_source) ∷ [];
  originated = [];
  selected = [];
  pending_seqno = [];
  recent_seqno = [];
  tombstones = [];
  advertised_until = [];
  pending_advertisements = [];
  pending_switches = [];
  settling_since = [];
  settled_routes = [];
  generation = 0;
  sequence_number = 7;
}

abbrev pub offer : ResolvedUpdate Prefix
offer = record {
  key = some network_key;
  router_id = some other_id;
  next_hop = some peer.address;
  interval_cs = 1600;
  seqno = 5;
  metric = 40;
  v4_via_v6 = true;
  sub_tlvs = [];
}
