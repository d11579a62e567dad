-- ===== src/Engine/Recompute/Longer.antt =====
-- New link costs keep every candidate longer than what its neighbor advertises.
use babel_rs.Base.{refl, inl, inr, Option, Option-cases}
use babel_rs.Base.Entries.{AllValues, map-AllValues}
use babel_rs.Engine.Api.{NeighborMetric}
use babel_rs.Engine.State.{Engine, NeighborKey}
use babel_rs.Engine.Rib.{Entry, safe_extend}
use babel_rs.Engine.Recompute.{recompute_candidate_metrics, recompute_entry, cost_of}
use babel_rs.Engine.Admission.Bounds.{IsLonger, longer_extend}

module _ {N M : Type 0} ⦃link : NeighborMetric M⦄ where
  recompute_entry-IsLonger :
      (e : Engine N M) (only : Option NeighborKey) (p : Entry N)
      → IsLonger p.1
      → IsLonger (recompute_entry e only p).1
  unfolding recompute_entry IsLonger
  recompute_entry-IsLonger e only (ck, c) h = elim (Option-cases (cost_of e only ck.1)) [
    | inl unknown ↦ rw unknown h
    | inr (cost, known) ↦ rw known (
        longer_extend e.config.metric_algebra c.advertised_metric cost
          (safe_extend e.config.metric_algebra c.advertised_metric cost) refl)
  ]

  -- If every candidate is unreachable or longer than what its neighbor advertises, this is so after
  -- the metrics of one or of all neighbors' candidates are computed again from any link costs.
  pub recompute_candidate_metrics-IsLonger :
      (e : Engine N M) (only : Option NeighborKey)
      → AllValues IsLonger e.candidates
      → AllValues IsLonger (recompute_candidate_metrics e only).1.candidates
  unfolding recompute_candidate_metrics
  recompute_candidate_metrics-IsLonger e only h =
      map-AllValues IsLonger (recompute_entry e only) (recompute_entry-IsLonger e only) e.candidates
        h
