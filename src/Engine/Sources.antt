-- ===== src/Engine/Sources.antt =====
-- crates/babel-protocol/src/engine/sources.rs: feasibility history and sequence number requests.
pub mod Distances
use babel_rs.Base.{
  ℕ, ◌+◌, Bool, ◌&&◌, ◌||◌, Option, none, some, List, [], ◌∷◌, ltb, ◌==◌, if◌then◌else◌, bytes_eq,
  pair_eq, map,
}
use babel_rs.Base.Map.{lookup, insert}
use babel_rs.Base.Words.{wrapping_add16, saturating_add64}
use babel_rs.Model.{IpNet, net_eq, key_eq, RouterId, RouteKey, Distance, seqno_gt}
use babel_rs.Wire.{OutboundPacket, seqno_request}
use babel_rs.Engine.Api.{Action, send, urgent}
use babel_rs.Engine.State.{
  Engine, NeighborKey, Originated, SourceEntry, PendingSeqnoRequest, SeqnoRequestSpec,
}

abbrev pub source_gc_time_ms : ℕ
source_gc_time_ms = 180_000

abbrev pub request_retry_initial_ms : ℕ
request_retry_initial_ms = 2_000

abbrev pub request_retries : ℕ
request_retries = 3

abbrev pub request_hop_count : ℕ
request_hop_count = 64

abbrev pub recent_request_ms : ℕ
recent_request_ms = 16_000

-- The better of the stored distance and a new one.
unfoldable pub tighter : Distance → Distance → Distance
tighter d stored =
    if seqno_gt d.seqno stored.seqno || (d.seqno == stored.seqno && ltb d.metric stored.metric)
    then d
    else stored

abbrev pub or_distance : Option SourceEntry → Distance → Distance
or_distance none d = d
or_distance (some entry) d = entry.distance

module _ {N : Type 0} where
  -- `seqno_request_action`.
  abbrev pub seqno_request_action : RouteKey N → RouterId → ℕ → ℕ → NeighborKey → ℕ → Action N
  seqno_request_action key router_id seqno hop_count next_hop now =
      send next_hop.interface next_hop.address
        (record { tlvs = seqno_request key seqno hop_count router_id [] ∷ [] }) (urgent now)

module _ {N M : Type 0} ⦃net : IpNet N⦄ where
  -- `Engine::originate_seqno_request`.
  unfoldable pub originate_seqno_request :
      Engine N M → SeqnoRequestSpec N → ℕ → List (Action N) × Engine N M
  originate_seqno_request e request now = (
    seqno_request_action request.key request.router_id request.seqno request.hop_count
          request.next_hop now
        ∷ [],
    record e {
      pending_seqno =
          insert (request.key, request.router_id)
            (record {
              seqno = request.seqno;
              hop_count = request.hop_count;
              next_hop = request.next_hop;
              requester = request.requester;
              retries_left = request_retries;
              next_retry_ms = saturating_add64 now request_retry_initial_ms;
            })
            e.pending_seqno;
    },
  )

  -- `Engine::maintain_source`.
  unfoldable pub maintain_source : Engine N M → RouteKey N → RouterId → Distance → ℕ → Engine N M
  maintain_source e key router_id d now = record e {
    feasible =
        insert (key, router_id)
          (record {
            distance = tighter d (or_distance (lookup (key, router_id) e.feasible) d);
            expires_ms = saturating_add64 now source_gc_time_ms;
          })
          e.feasible;
  }

module _ {N : Type 0} where
  abbrev pub set_seqno : ℕ → RouteKey N × Originated → RouteKey N × Originated
  set_seqno n (k, o) = (k, record o { seqno = n })

module _ {N M : Type 0} where
  -- `Engine::bump_sequence_number`.
  unfoldable pub bump_sequence_number : Engine N M → Engine N M
  bump_sequence_number e =
      let next = wrapping_add16 e.sequence_number 1 in
      record e { sequence_number = next; originated = map (set_seqno next) e.originated }
