-- ===== src/Engine/Sources/Distances.antt =====
-- The feasibility distances that are recorded for the sources.
use babel_rs.Base.{
  ℕ, ◌≤◌, ◌≡◌, ◌≢◌, refl, true, false, some, arith, ◌⊎◌, ◌==◌, pair_eq, bytes_eq, if◌then◌else◌,
}
use babel_rs.Base.Map.{lookup, lookup-insert, =?_refl}
use babel_rs.Base.Words.{saturating_add64}
use babel_rs.Model.{
  IpNet, infinity, net_eq, key_eq, RouterId, RouteKey, Distance, seqno_gt, feasible_against,
}
use babel_rs.Engine.State.{Engine, SourceEntry, NeighborKey}
use babel_rs.Engine.Sources.{maintain_source, tighter, or_distance, source_gc_time_ms}
use babel_rs.Engine.Output.{advertisement, update_action_to_candidate}
use babel_rs.Engine.Rib.{is_feasible_distance, entry_distance}

-- `maintain_source` decides as `feasible_against` does.
pub tighter-feasible_against :
    (d stored : Distance) → tighter d stored ≡ (if feasible_against d stored then d else stored)
unfolding tighter feasible_against
tighter-feasible_against d stored = refl

-- The distance that is stored is the old one or feasible against it, and the new one is not feasible.
tighter_bounds :
    (d stored : Distance)
    → ((tighter d stored ≡ stored) ⊎ (feasible_against (tighter d stored) stored ≡ true))
      × (feasible_against d (tighter d stored) ≡ false)
unfolding tighter feasible_against seqno_gt
tighter_bounds d stored = ground arith

-- What is no better than an infeasible distance is infeasible.
worse-feasible_against :
    (d w stored : Distance)
    → w.seqno ≡ d.seqno
    → d.metric ≤ w.metric
    → feasible_against d stored ≡ false
    → feasible_against w stored ≡ false
unfolding feasible_against seqno_gt
worse-feasible_against d w stored hs hm h = ground arith

module _ {N M : Type 0} ⦃net : IpNet N⦄ where
  -- What is stored for a source after a distance was advertised.
  lookup-maintain_source :
      (e : Engine N M) (key : RouteKey N) (router_id : RouterId) (d : Distance) (now : ℕ)
      → lookup (key, router_id) (maintain_source e key router_id d now).feasible
        ≡ some (record {
          distance = tighter d (or_distance (lookup (key, router_id) e.feasible) d);
          expires_ms = saturating_add64 now source_gc_time_ms;
        })
  unfolding maintain_source
  lookup-maintain_source e key router_id d now =
      rw
        (
          lookup-insert (key, router_id) (key, router_id)
              (record {
                distance = tighter d (or_distance (lookup (key, router_id) e.feasible) d);
                expires_ms = saturating_add64 now source_gc_time_ms;
              })
              e.feasible,
          =?_refl {K = RouteKey N × RouterId} (key, router_id),
        )
        refl

  -- Advertising a distance never loosens the feasibility distance of the source: what is stored
  -- afterwards is the distance that was stored or feasible against it. It is kept for the time of
  -- garbage collection from now on, and the advertised distance itself is not feasible against it.
  pub maintain_source_tightens :
      (e : Engine N M) (key : RouteKey N) (router_id : RouterId) (d : Distance) (now : ℕ)
      (old : SourceEntry)
      → lookup (key, router_id) e.feasible ≡ some old
      → (kept : SourceEntry) × (lookup
            (key, router_id)
            (maintain_source e key router_id d now).feasible
          ≡ some kept)
        × (kept.expires_ms ≡ saturating_add64 now source_gc_time_ms)
        × ((kept.distance ≡ old.distance) ⊎ (feasible_against kept.distance old.distance ≡ true))
        × (feasible_against d kept.distance ≡ false)
  maintain_source_tightens e key router_id d now old h =
      let bounds = tighter_bounds d old.distance in
      (
        record {
          distance = tighter d old.distance;
          expires_ms = saturating_add64 now source_gc_time_ms;
        },
        rw h at (lookup-maintain_source e key router_id d now),
        refl,
        bounds.0,
        bounds.1,
      )

  -- After a finite Update was sent to one neighbor, no distance with the sequence number it carried
  -- and a metric at least the one it carried is feasible for that key and router id.
  pub update_action_to_candidate_echo :
      (e : Engine N M) (key : RouteKey N) (router_id : RouterId) (seqno metric : ℕ)
      (destination : NeighborKey) (now : ℕ) (echo : Distance)
      → (advertisement e destination.interface key router_id seqno metric).metric ≢ infinity
      → echo.seqno ≡ seqno
      → (advertisement e destination.interface key router_id seqno metric).metric ≤ echo.metric
      → is_feasible_distance echo (
          entry_distance (
            lookup
              (key, router_id)
              (update_action_to_candidate e key router_id seqno metric destination now).1.feasible))
        ≡ false
  unfolding update_action_to_candidate
  update_action_to_candidate_echo e key router_id seqno metric destination now echo finite hs hm =
      let sent = (advertisement e destination.interface key router_id seqno metric).metric in
      let d : Distance = record { seqno = seqno; metric = sent } in
      let no : (sent == infinity) ≡ false = ground arith in
      let stored = or_distance (lookup (key, router_id) e.feasible) d in
      rw (no, lookup-maintain_source e key router_id d now)
        (worse-feasible_against d echo (tighter d stored) hs hm (tighter_bounds d stored).1)
