-- ===== src/Engine/Admission/Table.antt =====
-- What an Update may do to the table of candidates, as a specification that receive_update implements.
use babel_rs.Base.{
  ℕ, ◌≡◌, true, false, not, ◌&&◌, ◌||◌, none, some, ◌==◌, leb, pair_eq, bytes_eq, length, map, ◌=?◌,
}
use babel_rs.Base.Map.{Map, lookup, insert, remove, contains_key}
use babel_rs.Model.{IpNet, net_eq, key_eq, infinity, RouterId, RouteKey, IpAddr, is_ipv4}
use babel_rs.Wire.{ResolvedUpdate}
use babel_rs.Engine.Api.{NeighborMetric}
use babel_rs.Engine.State.{Engine, Candidate, NeighborKey, neighbor_eq, Neighbor}
use babel_rs.Engine.Rib.{
  forbidden_destination, safe_extend, retracted, retract_from, entry_distance, is_feasible_distance,
  is_retained,
}
use babel_rs.Engine.Admission.{proposed, import_context}

-- When an Update may enter the table: every check of the source, and the metric it enters with.
pub record IsAdmissible {N M : Type 0} ⦃net : IpNet N⦄ ⦃link : NeighborMetric M⦄ (e : Engine N M)
    (nk : NeighborKey) (nb : Neighbor M) (key : RouteKey N) (router_id : RouterId)
    (next_hop : IpAddr) (u : ResolvedUpdate N) (metric : ℕ) : Type 0 where
  pub known : lookup nk e.neighbours ≡ some nb
  pub named : u.router_id ≡ some router_id
  pub reached : u.next_hop ≡ some next_hop
  pub is_finite : (u.metric == infinity) ≡ false
  pub is_allowed : forbidden_destination key.destination ≡ false
  pub is_foreign : (router_id =? e.config.router_id) ≡ false
  pub is_forwardable :
      (is_ipv4 (net.addr key.destination) && not (is_ipv4 next_hop) && not e.config.ipv4_via_ipv6)
      ≡ false
  pub is_accepted : e.config.route_policy.accept (import_context nk key router_id next_hop u) ≡ true
  pub has_room :
      (not (contains_key (key, nk) e.candidates)
        && (leb e.config.limits.max_candidates_per_neighbor nb.candidates
            || leb e.config.limits.max_candidates (length e.candidates)))
      ≡ false
  pub extends : metric ≡ safe_extend e.config.metric_algebra u.metric (link.link_cost nb.metric)
  pub keeps_selected :
      (not (
          is_feasible_distance
            (record { seqno = u.seqno; metric = u.metric })
            (entry_distance (lookup (key, router_id) e.feasible)))
        && is_retained (lookup key e.selected) router_id nk.interface next_hop)
      ≡ false

-- The table after an Update: kept, one or all of the neighbor's candidates ended, one dropped by the
-- policy, or an admissible one stored.
pub data TableStep {N M : Type 0} ⦃net : IpNet N⦄ ⦃link : NeighborMetric M⦄ (e : Engine N M)
    (nk : NeighborKey) (u : ResolvedUpdate N) (now : ℕ)
    (after : Map (RouteKey N × NeighborKey) (Candidate N)) : Type 0 where
  kept : after ≡ e.candidates → TableStep e nk u now after
  ended_all :
      u.key ≡ none
      → u.metric ≡ infinity
      → after ≡ map (retract_from nk) e.candidates
      → TableStep e nk u now after
  ended_one :
      (key : RouteKey N) (c : Candidate N)
      → u.key ≡ some key
      → u.metric ≡ infinity
      → lookup (key, nk) e.candidates ≡ some c
      → after ≡ insert (key, nk) (retracted c) e.candidates
      → TableStep e nk u now after
  dropped :
      (key : RouteKey N) (router_id : RouterId) (next_hop : IpAddr)
      → u.key ≡ some key
      → e.config.route_policy.accept (import_context nk key router_id next_hop u) ≡ false
      → after ≡ remove (key, nk) e.candidates
      → TableStep e nk u now after
  stored :
      (nb : Neighbor M) (key : RouteKey N) (router_id : RouterId) (next_hop : IpAddr) (metric : ℕ)
      → u.key ≡ some key
      → IsAdmissible e nk nb key router_id next_hop u metric
      → after ≡ insert (key, nk) (proposed nk key router_id next_hop u metric now) e.candidates
      → TableStep e nk u now after
