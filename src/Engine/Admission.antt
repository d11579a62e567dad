-- ===== src/Engine/Admission.antt =====
-- `Engine::receive_update` of crates/babel-protocol/src/engine/rib.rs. A result is whether the inputs
-- of the selection changed, the actions and the engine after them.
pub mod Frame
pub mod Table
pub mod Refined
pub mod Bounds
use babel_rs.Base.{
  ℕ, ◌+◌, ◌-◌, ◌*◌, Bool, true, false, not, ◌&&◌, ◌||◌, Option, none, some, List, [], ◌∷◌, ◌++◌,
  map, ltb, leb, ◌==◌, if◌then◌else◌, Bytes, bytes_eq, pair_eq, ◌=?◌, any, length,
}
use babel_rs.Base.Map.{Map, lookup, insert, remove, contains_key, is_some}
use babel_rs.Base.Words.{wrapping_add16, saturating_add64}
use babel_rs.Model.{
  IpNet, net_eq, key_eq, IpAddr, ip_eq, is_ipv4, infinity, RouterId, RouteKey, Distance,
}
use babel_rs.Wire.{ResolvedUpdate}
use babel_rs.Engine.Api.{Action, ImportContext, RoutePolicy, NeighborMetric, SelectedRoute}
use babel_rs.Engine.State.{
  Engine, Candidate, Neighbor, NeighborKey, neighbor_eq, PendingSeqnoRequest, SeqnoRequestSpec,
  ResourceStatus,
}
use babel_rs.Engine.Sources.{originate_seqno_request, request_hop_count, recent_request_ms}
use babel_rs.Engine.Output.{update_action_to_candidate}
use babel_rs.Engine.Rib.{
  safe_extend, forbidden_destination, retracted, was_finite, Entry, retract_from, entry_distance,
  is_feasible_distance, is_satisfied, is_retained, worse_than_selected, is_changed,
}
use babel_rs.Engine.FollowUp.{request_newer, follow_up}

abbrev pub count_rejected : ResourceStatus → Bool → ResourceStatus
count_rejected r true = record r {
  rejected_candidates_per_neighbor = saturating_add64 r.rejected_candidates_per_neighbor 1;
}
count_rejected r false = record r {
  rejected_candidates_global = saturating_add64 r.rejected_candidates_global 1;
}

abbrev pub Outcome : Type 0 → Type 0 → Type 0
Outcome N M = Bool × List (Action N) × Engine N M

module _ {N : Type 0} where
  -- What the policy is asked.
  abbrev pub import_context :
      NeighborKey → RouteKey N → RouterId → IpAddr → ResolvedUpdate N → ImportContext N
  import_context nk key router_id next_hop u = record {
    key = key;
    interface = nk.interface;
    neighbor = nk.address;
    next_hop = next_hop;
    router_id = router_id;
    seqno = u.seqno;
    advertised_metric = u.metric;
  }

  -- The candidate that an Update proposes.
  abbrev pub proposed :
      NeighborKey → RouteKey N → RouterId → IpAddr → ResolvedUpdate N → ℕ → ℕ → Candidate N
  proposed nk key router_id next_hop u metric now = record {
    key = key;
    router_id = router_id;
    seqno = u.seqno;
    advertised_metric = u.metric;
    metric = metric;
    next_hop = next_hop;
    interface = nk.interface;
    interval_cs = u.interval_cs;
    expires_ms = saturating_add64 now (u.interval_cs * 35);
    refresh_requested = false;
  }

module _ {N M : Type 0} where
  abbrev pub unchanged : Engine N M → Outcome N M
  unchanged e = (false, [], e)

module _ {N M : Type 0} ⦃net : IpNet N⦄ where
  -- A wildcard retraction ends every candidate of the neighbor.
  unfoldable pub retract_all : Engine N M → NeighborKey → ℕ → Outcome N M
  retract_all e nk metric =
      if metric == infinity
      then (
        any (λ (p : Entry N). p.0.1 =? nk && was_finite p.1) e.candidates,
        [],
        record e { candidates = map (retract_from nk) e.candidates },
      )
      else unchanged e

  unfoldable pub retract_one : Engine N M → RouteKey N → NeighborKey → Outcome N M
  retract_one e key nk = elim (lookup (key, nk) e.candidates) [
    | none ↦ unchanged e
    | some c ↦
        (was_finite c, [], record e { candidates = insert (key, nk) (retracted c) e.candidates })
  ]

  -- The policy rejects the route: its candidate is dropped, and no longer counted.
  unfoldable pub drop_candidate : Engine N M → RouteKey N → NeighborKey → Neighbor M → Outcome N M
  drop_candidate e key nk neighbour =
      if contains_key (key, nk) e.candidates
      then (
        true,
        [],
        record e {
          candidates = remove (key, nk) e.candidates;
          neighbours =
              insert nk (record neighbour { candidates = neighbour.candidates - 1 }) e.neighbours;
        },
      )
      else unchanged e

  -- There is no room for a new candidate.
  unfoldable pub reject_candidate : Engine N M → NeighborKey → Neighbor M → Bool → Outcome N M
  reject_candidate e nk neighbour per_neighbor = (
    false,
    [],
    record e {
      resources = count_rejected e.resources per_neighbor;
      neighbours =
          insert nk
            (record neighbour {
              rejected_candidates = saturating_add64 neighbour.rejected_candidates 1;
            })
            e.neighbours;
    },
  )

  unfoldable pub count_new : Bool → Engine N M → NeighborKey → Neighbor M → Engine N M
  count_new is_new e nk neighbour =
      if is_new
      then record e {
        neighbours =
            insert nk (record neighbour { candidates = neighbour.candidates + 1 }) e.neighbours;
      }
      else e

  -- The candidate enters the table, unless it is an infeasible Update of the selected route.
  unfoldable pub store_candidate :
      Engine N M → NeighborKey → Neighbor M → Bool → Candidate N → ℕ → Outcome N M
  store_candidate e nk neighbour is_new c now =
      let fd = entry_distance (lookup (c.key, c.router_id) e.feasible) in
      let is_feasible =
        is_feasible_distance (record { seqno = c.seqno; metric = c.advertised_metric }) fd in
      if not is_feasible
        && is_retained (lookup c.key e.selected) c.router_id nk.interface c.next_hop
      then (let (actions, asked) = request_newer e fd c.key c.router_id nk now in
          (false, actions, asked))
      else (let (actions, asked) = follow_up e nk c fd is_feasible now in
          let counted = count_new is_new asked nk neighbour in
          (
            is_changed (lookup (c.key, nk) counted.candidates) c,
            actions,
            record counted { candidates = insert (c.key, nk) c counted.candidates },
          ))

  -- From the policy on: the neighbor is known.
  unfoldable pub admit_from :
      ⦃link : NeighborMetric M⦄
      → Engine N M
      → NeighborKey
      → Neighbor M
      → RouteKey N
      → RouterId
      → IpAddr
      → ResolvedUpdate N
      → ℕ
      → Outcome N M
  admit_from ⦃link⦄ e nk neighbour key router_id next_hop u now =
      let is_new = not (contains_key (key, nk) e.candidates) in
      let per_neighbor = leb e.config.limits.max_candidates_per_neighbor neighbour.candidates in
      let metric = safe_extend e.config.metric_algebra u.metric (link.link_cost neighbour.metric) in
      if not (e.config.route_policy.accept (import_context nk key router_id next_hop u))
      then drop_candidate e key nk neighbour
      else if is_new && (per_neighbor || leb e.config.limits.max_candidates (length e.candidates))
      then reject_candidate e nk neighbour per_neighbor
      else if not (metric == infinity) && leb metric u.metric
      then unchanged e
      else store_candidate e nk neighbour is_new (proposed nk key router_id next_hop u metric now)
          now

  -- A finite Update of an allowed destination: the fixed checks before the policy.
  unfoldable pub admit_update :
      ⦃link : NeighborMetric M⦄
      → Engine N M
      → NeighborKey
      → RouteKey N
      → ResolvedUpdate N
      → ℕ
      → Outcome N M
  admit_update e nk key u now = elim u.router_id [
    | none ↦ unchanged e
    | some router_id ↦ if router_id =? e.config.router_id then unchanged e else (elim u.next_hop [
      | none ↦ unchanged e
      | some next_hop ↦
          if is_ipv4 (net.addr key.destination)
            && not (is_ipv4 next_hop)
            && not e.config.ipv4_via_ipv6
          then unchanged e
          else (elim (lookup nk e.neighbours) [
            | none ↦ unchanged e
            | some neighbour ↦ admit_from e nk neighbour key router_id next_hop u now
          ])
    ])
  ]

  -- `Engine::receive_update`.
  unfoldable pub receive_update :
      ⦃link : NeighborMetric M⦄ → Engine N M → NeighborKey → ResolvedUpdate N → ℕ → Outcome N M
  receive_update e nk u now = elim u.key [
    | none ↦ retract_all e nk u.metric
    | some key ↦
        if forbidden_destination key.destination
        then unchanged e
        else if u.metric == infinity
        then retract_one e key nk
        else admit_update e nk key u now
  ]
