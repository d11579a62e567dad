-- ===== src/Engine/Api.antt =====
-- crates/babel-protocol/src/engine/api.rs, policy.rs and limits.rs: configuration and actions.
-- The traits of the host (metrics, algebra, policy) are records of functions.
use babel_rs.Base.{
  ℕ, min, Bool, true, false, not, ◌&&◌, Option, none, some, List, [], ◌∷◌, ltb, leb, ◌==◌,
  if◌then◌else◌, Bytes,
}
use babel_rs.Base.Words.{saturating_add64, saturating_mul64}
use babel_rs.Model.{IpAddr, v4, v6, RouterId, RouteKey}
use babel_rs.Metric.{HelloHistories}
use babel_rs.Wire.{OutboundPacket}

pub record SendTiming : Type 0 where
  pub deadline_ms : ℕ
  pub max_jitter_ms : ℕ

abbrev pub urgent_timeout_ms : ℕ
urgent_timeout_ms = 200

abbrev pub max_triggered_jitter_ms : ℕ
max_triggered_jitter_ms = 100

abbrev pub urgent : ℕ → SendTiming
urgent now = record {
  deadline_ms = saturating_add64 now urgent_timeout_ms;
  max_jitter_ms = urgent_timeout_ms;
}

abbrev pub triggered : ℕ → ℕ → SendTiming
triggered now hello_interval_cs =
    let delta = saturating_mul64 hello_interval_cs 5 in
    record {
      deadline_ms = saturating_add64 now delta;
      max_jitter_ms = min delta max_triggered_jitter_ms;
    }

pub record RouteSelectionConfig : Type 0 where
  pub switch_margin_percent : ℕ
  pub switch_margin_metric : ℕ
  pub better_for_ms : ℕ

pub data ControlTransport : Type 0 where
  transport_ipv6 transport_ipv4 : ControlTransport

abbrev pub is_transport_ipv4 : ControlTransport → Bool
is_transport_ipv4 transport_ipv6 = false
is_transport_ipv4 transport_ipv4 = true

abbrev pub multicast : ControlTransport → IpAddr
multicast transport_ipv6 =
    v6 (0xff ∷ 2 ∷ 0 ∷ 0 ∷ 0 ∷ 0 ∷ 0 ∷ 0 ∷ 0 ∷ 0 ∷ 0 ∷ 0 ∷ 0 ∷ 1 ∷ 0 ∷ 6 ∷ [])
multicast transport_ipv4 = v4 (224 ∷ 0 ∷ 0 ∷ 111 ∷ [])

pub data Ipv4NextHop : Type 0 where
  auto only_ipv4 only_ipv6 : Ipv4NextHop

-- The order of `Ipv4Addr` and of `[u8; 8]`: by the first octet that differs.
unfoldable pub bytes_ltb : Bytes → Bytes → Bool
bytes_ltb xs [] = false
bytes_ltb [] (y ∷ ys) = true
bytes_ltb (x ∷ xs) (y ∷ ys) = if x == y then bytes_ltb xs ys else ltb x y

-- Not unspecified, loopback, multicast or the broadcast address.
abbrev pub usable_ipv4 : Bytes → Bool
usable_ipv4 (a ∷ b ∷ c ∷ d ∷ []) =
    not (a == 0 && b == 0 && c == 0 && d == 0)
    && not (a == 127)
    && not (leb 224 a && leb a 239)
    && not (a == 255 && b == 255 && c == 255 && d == 255)
usable_ipv4 other = false

abbrev pub smaller_ipv4 : Bytes → Option Bytes → Option Bytes
smaller_ipv4 a none = some a
smaller_ipv4 a (some b) = if bytes_ltb b a then some b else some a

abbrev pub least_ipv4 : List IpAddr → Option Bytes
least_ipv4 [] = none
least_ipv4 (v4 a ∷ rest) =
    if usable_ipv4 a then smaller_ipv4 a (least_ipv4 rest) else least_ipv4 rest
least_ipv4 (v6 a ∷ rest) = least_ipv4 rest

-- `Ipv4NextHop::ipv4_address`.
unfoldable pub ipv4_address : Ipv4NextHop → List IpAddr → Option Bytes
ipv4_address only_ipv6 addresses = none
ipv4_address auto addresses = least_ipv4 addresses
ipv4_address only_ipv4 addresses = least_ipv4 addresses

pub record ImportContext (N : Type 0) : Type 0 where
  pub key : RouteKey N
  pub interface : Bytes
  pub neighbor : IpAddr
  pub next_hop : IpAddr
  pub router_id : RouterId
  pub seqno : ℕ
  pub advertised_metric : ℕ

pub record ExportContext (N : Type 0) : Type 0 where
  pub key : RouteKey N
  pub interface : Bytes
  pub router_id : RouterId
  pub locally_originated : Bool

pub record RoutePolicy (N : Type 0) : Type 0 where
  pub accept : ImportContext N → Bool
  pub announce : ExportContext N → Bool

-- The state of a neighbor's metric, and how it moves.
pub record NeighborMetric (M : Type 0) : Type 0 where
  pub on_hello : M → HelloHistories → M
  pub on_ihu : M → ℕ → M
  pub on_rtt_sample : M → ℕ → ℕ → M
  pub receive_cost : M → ℕ
  pub transmit_cost : M → ℕ
  pub link_cost : M → ℕ

pub record MetricProfile (M : Type 0) : Type 0 where
  pub name : Bytes
  pub new_neighbor : Bytes → M
  pub timestamps_enabled : Bool
  pub rtt_probe_interval_ms : Option ℕ

pub record ResourceLimits : Type 0 where
  pub max_neighbors : ℕ
  pub max_candidates : ℕ
  pub max_candidates_per_neighbor : ℕ

pub record InterfacePolicy (M : Type 0) : Type 0 where
  pub control_transport : ControlTransport
  pub ipv4_next_hop : Ipv4NextHop
  pub metric : MetricProfile M
  pub hello_interval_cs : ℕ
  pub update_interval_cs : ℕ
  pub split_horizon : Bool

pub record EngineConfig (N M : Type 0) : Type 0 where
  pub route_policy : RoutePolicy N
  pub ipv4_via_ipv6 : Bool
  pub limits : ResourceLimits
  pub router_id : RouterId
  pub metric : MetricProfile M
  pub metric_algebra : ℕ → ℕ → ℕ
  pub sequence_number : ℕ
  pub hello_interval_cs : ℕ
  pub update_interval_cs : ℕ
  pub route_selection : RouteSelectionConfig

pub record SelectedRoute (N : Type 0) : Type 0 where
  pub key : RouteKey N
  pub router_id : RouterId
  pub seqno : ℕ
  pub metric : ℕ
  pub next_hop : IpAddr
  pub interface : Bytes

pub data Action (N : Type 0) : Type 0 where
  invalidate_pending_sends : Action N
  send :
      (interface : Bytes) (destination : IpAddr) (packet : OutboundPacket N) (timing : SendTiming)
      → Action N
  routes_changed :
      (generation : ℕ) (routes : List (SelectedRoute N)) (unreachable : List (RouteKey N))
      → Action N
  sequence_number_changed : ℕ → Action N
