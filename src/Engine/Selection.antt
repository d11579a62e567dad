-- ===== src/Engine/Selection.antt =====
-- The selection of routes, the loop of `Engine::reselect` in crates/babel-protocol/src/engine/rib.rs:
-- grouping of the eligible candidates by key, hysteresis, and the new table of selected routes.
pub mod Sound
use babel_rs.Base.{
  ℕ, ◌-◌, max, Bool, true, false, not, ◌&&◌, ◌||◌, Option, none, some, List, [], ◌∷◌, ltb, leb,
  ◌==◌, if◌then◌else◌, Bytes, bytes_eq, ◌=?◌, any,
}
use babel_rs.Base.Map.{Map, lookup, insert, remove}
use babel_rs.Model.{IpNet, net_eq, key_eq, IpAddr, v4, v6, ip_eq, infinity, RouteKey}
use babel_rs.Engine.Api.{SelectedRoute, RouteSelectionConfig, bytes_ltb}
use babel_rs.Engine.State.{Engine, Candidate, NeighborKey, PendingSwitch}
use babel_rs.Engine.Rib.{candidate_is_feasible, metric_improvement_is_significant}

-- The order of `IpAddr`: IPv4 before IPv6.
abbrev pub ip_ltb : IpAddr → IpAddr → Bool
ip_ltb (v4 a) (v4 b) = bytes_ltb a b
ip_ltb (v4 a) (v6 b) = true
ip_ltb (v6 a) (v4 b) = false
ip_ltb (v6 a) (v6 b) = bytes_ltb a b

module _ {N : Type 0} where
  -- `candidate_order`, as "comes before".
  unfoldable pub candidate_before : Candidate N → Candidate N → Bool
  candidate_before l r =
      if not (l.metric == r.metric)
      then ltb l.metric r.metric
      else if not (l.router_id =? r.router_id)
      then bytes_ltb l.router_id r.router_id
      else if not (l.interface =? r.interface)
      then bytes_ltb l.interface r.interface
      else ip_ltb l.next_hop r.next_hop

  -- `min_by`: the first of the least.
  abbrev pub best_of : Candidate N → List (Candidate N) → Candidate N
  best_of c [] = c
  best_of c (d ∷ ds) = if candidate_before d c then best_of d ds else best_of c ds

  abbrev pub same_candidate : Candidate N → Candidate N → Bool
  same_candidate l r =
      l.router_id =? r.router_id && l.next_hop =? r.next_hop && l.interface =? r.interface

  abbrev pub is_current : SelectedRoute N → Candidate N → Bool
  is_current s c =
      c.router_id =? s.router_id && c.next_hop =? s.next_hop && c.interface =? s.interface

  abbrev pub find_current : SelectedRoute N → List (Candidate N) → Option (Candidate N)
  find_current s [] = none
  find_current s (c ∷ cs) = if is_current s c then some c else find_current s cs

  abbrev pub current_of : Option (SelectedRoute N) → List (Candidate N) → Option (Candidate N)
  current_of none cs = none
  current_of (some s) cs = find_current s cs

  abbrev pub selected_from_candidate : Candidate N → SelectedRoute N
  selected_from_candidate c = record {
    key = c.key;
    router_id = c.router_id;
    seqno = c.seqno;
    metric = c.metric;
    next_hop = c.next_hop;
    interface = c.interface;
  }

  -- A switch to `best` that starts to wait now.
  abbrev pub new_switch : Candidate N → Candidate N → ℕ → PendingSwitch
  new_switch best current now = record {
    router_id = best.router_id;
    next_hop = best.next_hop;
    interface = best.interface;
    since_ms = now;
    current_peak_metric = current.metric;
  }

  abbrev pub is_switch_to : PendingSwitch → Candidate N → Bool
  is_switch_to p best =
      p.router_id =? best.router_id && p.next_hop =? best.next_hop && p.interface =? best.interface

  -- The switch that waits for this key, or a new one if it is to another candidate.
  unfoldable pub waiting_switch :
      Option PendingSwitch → Candidate N → Candidate N → ℕ → PendingSwitch
  waiting_switch none best current now = new_switch best current now
  waiting_switch (some p) best current now =
      if is_switch_to p best
      then record p { current_peak_metric = max p.current_peak_metric current.metric }
      else new_switch best current now

module _ {N M : Type 0} ⦃net : IpNet N⦄ where
  -- The candidates that may be selected: finite and feasible.
  abbrev pub is_eligible : Engine N M → Candidate N → Bool
  is_eligible e c = ltb c.metric infinity && candidate_is_feasible e c

  unfoldable pub eligible :
      Engine N M → RouteKey N → Map (RouteKey N × NeighborKey) (Candidate N) → List (Candidate N)
  eligible e key [] = []
  eligible e key ((ck, c) ∷ m) =
      if c.key =? key && is_eligible e c then c ∷ eligible e key m else eligible e key m

  -- Whether the key's route has settled, which starts its clock.
  unfoldable pub settle_key : Engine N M → RouteKey N → ℕ → Bool × Engine N M
  settle_key e key now =
      if any (λ k. k =? key) e.settled_routes
      then (true, e)
      else (elim (lookup key e.settling_since) [
        | none ↦
            let started = record e { settling_since = insert key now e.settling_since } in
            if leb e.config.route_selection.better_for_ms 0
            then (true, record started { settled_routes = key ∷ started.settled_routes })
            else (false, started)
        | some since ↦
            if leb e.config.route_selection.better_for_ms (now - since)
            then (true, record e { settled_routes = key ∷ e.settled_routes })
            else (false, e)
      ])

  abbrev pub forget_switch : Engine N M → RouteKey N → Engine N M
  forget_switch e key = record e { pending_switches = remove key e.pending_switches }

  abbrev pub restart_settling : Engine N M → RouteKey N → ℕ → Engine N M
  restart_settling e key now = record e { settling_since = insert key now e.settling_since }

  abbrev pub keep_switch : Engine N M → RouteKey N → PendingSwitch → Engine N M
  keep_switch e key p = record e { pending_switches = insert key p e.pending_switches }

  -- An alternative that has waited: the margins were met all the time, and long enough.
  unfoldable pub wait_or_switch :
      Engine N M → RouteKey N → Candidate N → Candidate N → ℕ → Candidate N × Engine N M
  wait_or_switch e key best current now =
      let waiting = waiting_switch (lookup key e.pending_switches) best current now in
      if metric_improvement_is_significant current.metric waiting.current_peak_metric
        e.config.route_selection
      then (
        current,
        keep_switch e key (record waiting { since_ms = now; current_peak_metric = current.metric }),
      )
      else if leb e.config.route_selection.better_for_ms (now - waiting.since_ms)
      then (best, forget_switch e key)
      else (current, keep_switch e key waiting)

  unfoldable pub choose :
      Engine N M
      → RouteKey N
      → Option (Candidate N)
      → Candidate N
      → Bool
      → ℕ
      → Candidate N × Engine N M
  choose e key none best settled now = (
    best,
    if settled then forget_switch e key else restart_settling (forget_switch e key) key now,
  )
  choose e key (some current) best settled now =
      if same_candidate best current
        || not
            (metric_improvement_is_significant best.metric current.metric e.config.route_selection)
      then (current, forget_switch e key)
      else if not settled
      then (best, restart_settling (forget_switch e key) key now)
      else wait_or_switch e key best current now

  -- One round of the loop, on the group of a key.
  unfoldable pub select_key :
      Engine N M
      → RouteKey N
      → List (Candidate N)
      → ℕ
      → Map (RouteKey N) (SelectedRoute N)
      → Map (RouteKey N) (SelectedRoute N) × Engine N M
  select_key e key [] now next = (next, e)
  select_key e key (c ∷ cs) now next =
      let (settled, clocked) = settle_key e key now in
      let current = current_of (lookup key e.selected) (c ∷ cs) in
      let (chosen, after) = choose clocked key current (best_of c cs) settled now in
      (insert key (selected_from_candidate chosen) next, after)

  -- The loop over the groups. Feasibility is that of the engine before it.
  unfoldable pub select_all :
      Engine N M
      → Engine N M
      → List (RouteKey N)
      → ℕ
      → Map (RouteKey N) (SelectedRoute N)
      → Map (RouteKey N) (SelectedRoute N) × Engine N M
  select_all before e [] now next = (next, e)
  select_all before e (k ∷ ks) now next =
      let (more, after) = select_key e k (eligible before k before.candidates) now next in
      select_all before after ks now more
