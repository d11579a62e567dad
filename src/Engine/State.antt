-- ===== src/Engine/State.antt =====
-- crates/babel-protocol/src/engine.rs: the state of the engine. Its maps are association lists, and
-- an iteration over one follows the list.
use babel_rs.Base.{ℕ, Bool, ◌↔◌, ◌≡◌, true, ◌&&◌, arith, Option, List, Bytes, bytes_eq, Eq, ◌=?◌}
use babel_rs.Base.Map.{Map}
use babel_rs.Model.{IpAddr, ip_eq, RouterId, RouteKey, Distance}
use babel_rs.Metric.{HelloHistories}
use babel_rs.Engine.Api.{EngineConfig, InterfacePolicy, ResourceLimits, SelectedRoute}

pub record InterfaceState (M : Type 0) : Type 0 where
  pub local_addresses : List IpAddr
  pub policy : InterfacePolicy M
  pub hello_seqno : ℕ
  pub next_hello_ms : ℕ
  pub next_update_ms : ℕ
  pub last_full_update_ms : Option ℕ

pub record NeighborKey : Type 0 where
  pub interface : Bytes
  pub address : IpAddr

abbrev pub neighbor_beq : NeighborKey → NeighborKey → Bool
neighbor_beq a b = a.interface =? b.interface && a.address =? b.address

pub neighbor_beq_iff : (a b : NeighborKey) → (neighbor_beq a b ≡ true) ↔ (a ≡ b)
neighbor_beq_iff a b =
    ground (arith, bytes_eq.beq_iff a.interface b.interface, ip_eq.beq_iff a.address b.address)

instance abbrev pub neighbor_eq : Eq NeighborKey
neighbor_eq = record { beq = neighbor_beq; beq_iff = neighbor_beq_iff }

pub record HelloTimer : Type 0 where
  pub interval_cs : ℕ
  pub next_expiry_ms : ℕ

pub record Neighbor (M : Type 0) : Type 0 where
  pub candidates : ℕ
  pub rejected_candidates : ℕ
  pub last_hello_ms : ℕ
  pub histories : HelloHistories
  pub multicast_timer : Option HelloTimer
  pub unicast_timer : Option HelloTimer
  pub last_ihu_ms : Option ℕ
  pub last_ihu_cost : Option ℕ
  pub ihu_interval_cs : ℕ
  pub next_ihu_ms : ℕ
  pub next_rtt_probe_ms : Option ℕ
  pub origin_timestamp : Option ℕ
  pub receive_timestamp : Option ℕ
  pub unicast_hello_seqno : ℕ
  pub metric : M

pub record Candidate (N : Type 0) : Type 0 where
  pub key : RouteKey N
  pub router_id : RouterId
  pub seqno : ℕ
  pub advertised_metric : ℕ
  pub metric : ℕ
  pub next_hop : IpAddr
  pub interface : Bytes
  pub interval_cs : ℕ
  pub expires_ms : ℕ
  pub refresh_requested : Bool

pub record Originated : Type 0 where
  pub metric : ℕ
  pub seqno : ℕ

pub record SourceEntry : Type 0 where
  pub distance : Distance
  pub expires_ms : ℕ

pub record PendingSeqnoRequest : Type 0 where
  pub seqno : ℕ
  pub hop_count : ℕ
  pub next_hop : NeighborKey
  pub requester : Option NeighborKey
  pub retries_left : ℕ
  pub next_retry_ms : ℕ

pub record SeqnoRequestSpec (N : Type 0) : Type 0 where
  pub key : RouteKey N
  pub router_id : RouterId
  pub seqno : ℕ
  pub hop_count : ℕ
  pub next_hop : NeighborKey
  pub requester : Option NeighborKey

pub record PendingSwitch : Type 0 where
  pub router_id : RouterId
  pub next_hop : IpAddr
  pub interface : Bytes
  pub since_ms : ℕ
  pub current_peak_metric : ℕ

pub record ResourceStatus : Type 0 where
  pub limits : ResourceLimits
  pub candidates : ℕ
  pub sources : ℕ
  pub pending_requests : ℕ
  pub unreachable : ℕ
  pub rejected_neighbors : ℕ
  pub rejected_candidates_global : ℕ
  pub rejected_candidates_per_neighbor : ℕ

pub record Engine (N M : Type 0) : Type 0 where
  pub resources : ResourceStatus
  pub config : EngineConfig N M
  pub interfaces : Map Bytes (InterfaceState M)
  pub neighbours : Map NeighborKey (Neighbor M)
  pub candidates : Map (RouteKey N × NeighborKey) (Candidate N)
  pub feasible : Map (RouteKey N × RouterId) SourceEntry
  pub originated : Map (RouteKey N) Originated
  pub selected : Map (RouteKey N) (SelectedRoute N)
  pub pending_seqno : Map (RouteKey N × RouterId) PendingSeqnoRequest
  pub recent_seqno : Map (RouteKey N × RouterId) (ℕ × ℕ)
  pub tombstones : Map (RouteKey N) ℕ
  pub advertised_until : Map (RouteKey N) ℕ
  pub pending_advertisements : Map (RouteKey N) (ℕ × ℕ)
  pub pending_switches : Map (RouteKey N) PendingSwitch
  pub settling_since : Map (RouteKey N) ℕ
  pub settled_routes : List (RouteKey N)
  pub generation : ℕ
  pub sequence_number : ℕ
