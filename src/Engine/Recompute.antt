-- ===== src/Engine/Recompute.antt =====
-- `Engine::recompute_candidate_metrics` of crates/babel-protocol/src/engine/rib.rs.
pub mod Longer
use babel_rs.Base.{
  ℕ, Bool, true, not, Option, none, some, List, [], ◌∷◌, ◌==◌, if◌then◌else◌, ◌=?◌, any, map,
}
use babel_rs.Base.Map.{lookup}
use babel_rs.Engine.Api.{NeighborMetric}
use babel_rs.Engine.State.{Engine, Candidate, Neighbor, NeighborKey, neighbor_eq}
use babel_rs.Engine.Rib.{safe_extend, Entry}

abbrev pub is_wanted : Option NeighborKey → NeighborKey → Bool
is_wanted none nk = true
is_wanted (some wanted) nk = wanted =? nk

module _ {N M : Type 0} ⦃link : NeighborMetric M⦄ where
  -- The entry of the neighbor in the table of link costs.
  unfoldable pub cost_of : Engine N M → Option NeighborKey → NeighborKey → Option ℕ
  cost_of e only nk =
      if is_wanted only nk
      then (elim (lookup nk e.neighbours) [
        | none ↦ none
        | some neighbour ↦ some (link.link_cost neighbour.metric)
      ])
      else none

  abbrev pub extended : Engine N M → Candidate N → Option ℕ → Candidate N
  extended e c none = c
  extended e c (some cost) = record c {
    metric = safe_extend e.config.metric_algebra c.advertised_metric cost;
  }

  unfoldable pub recompute_entry : Engine N M → Option NeighborKey → Entry N → Entry N
  recompute_entry e only (ck, c) = (ck, extended e c (cost_of e only ck.1))

  unfoldable pub recompute_candidate_metrics : Engine N M → Option NeighborKey → Bool × Engine N M
  recompute_candidate_metrics e only = (
    any (λ (p : Entry N). not (p.1.metric == (recompute_entry e only p).1.metric)) e.candidates,
    record e { candidates = map (recompute_entry e only) e.candidates },
  )
