-- ===== src/Engine/Admission/Bounds.antt =====
-- The table of candidates stays within its limit and free of short cuts.
use babel_rs.Base.{
  ℕ, ◌<◌, ◌≤◌, max, ◌≡◌, ◌≢◌, refl, sym, subst, true, arith, inl, inr, ◌⊎◌, Bool-cases, pair_eq,
  bytes_eq, length, ◌=?◌,
}
use babel_rs.Base.Map.{Map, insert, contains_key, length-insert}
use babel_rs.Base.Entries.{
  AllValues, map-AllValues, insert-AllValues, remove-AllValues, length-remove, length-map,
}
use babel_rs.Model.{IpNet, net_eq, key_eq, infinity, RouteKey}
use babel_rs.Wire.{ResolvedUpdate}
use babel_rs.Engine.Api.{NeighborMetric}
use babel_rs.Engine.State.{Engine, Candidate, NeighborKey, neighbor_eq}
use babel_rs.Engine.Rib.{safe_extend, Entry, retracted, retract_from}
use babel_rs.Engine.Admission.{receive_update, proposed}
use babel_rs.Engine.Admission.Table.{kept, ended_all, ended_one, dropped, stored}
use babel_rs.Engine.Admission.Refined.{receive_update-TableStep}

-- Whatever the host's algebra computes, the extended metric is infinite; or it is the algebra's, it is
-- above the advertised metric, that metric and the link cost are finite and the link cost is not 0.
pub safe_extend_cases :
    (algebra : ℕ → ℕ → ℕ) (advertised link : ℕ)
    → (safe_extend algebra advertised link ≡ infinity)
      ⊎ ((advertised < safe_extend algebra advertised link)
          × (safe_extend algebra advertised link ≡ algebra advertised link)
          × (advertised ≢ infinity)
          × (link ≢ infinity)
          × (0 < link))
unfolding safe_extend
safe_extend_cases algebra advertised link = ground arith

pub longer_extend :
    (algebra : ℕ → ℕ → ℕ) (advertised link metric : ℕ)
    → metric ≡ safe_extend algebra advertised link
    → (metric ≡ infinity) ⊎ (advertised < metric)
longer_extend algebra advertised link metric h =
    ground (arith, safe_extend_cases algebra advertised link)

-- A candidate is unreachable or longer than what its neighbor advertises.
unfoldable pub IsLonger : {N : Type 0} → Candidate N → Type 0
IsLonger c = (c.metric ≡ infinity) ⊎ (c.advertised_metric < c.metric)

module _ {N : Type 0} ⦃net : IpNet N⦄ where
  retract_from-IsLonger :
      (nk : NeighborKey) (p : Entry N) → IsLonger p.1 → IsLonger (retract_from nk p).1
  unfolding IsLonger
  retract_from-IsLonger nk (ck, c) h = elim (Bool-cases (ck.1 =? nk)) [
    | inl e ↦ rw e (inl refl)
    | inr e ↦ rw e h
  ]

  insert-has_room :
      (ck : RouteKey N × NeighborKey) (c : Candidate N)
      (m : Map (RouteKey N × NeighborKey) (Candidate N)) (limit : ℕ)
      → ((contains_key ck m ≡ true) ⊎ (length m < limit))
      → length (insert ck c m) ≤ max (length m) limit
  insert-has_room ck c m limit h = ground (arith, length-insert ck c m)

module _ {N M : Type 0} ⦃net : IpNet N⦄ ⦃link : NeighborMetric M⦄ where
  -- If every candidate is unreachable or longer than what its neighbor advertises, this is so after
  -- any Update of any neighbor, for every algebra of the host.
  pub receive_update-IsLonger :
      (e : Engine N M) (nk : NeighborKey) (u : ResolvedUpdate N) (now : ℕ)
      → AllValues IsLonger e.candidates
      → AllValues IsLonger (receive_update e nk u now).2.candidates
  unfolding IsLonger
  receive_update-IsLonger e nk u now h = elim (receive_update-TableStep e nk u now) [
    | kept same ↦ subst (AllValues IsLonger) (sym same) h
    | ended_all _ _ same ↦
        subst (AllValues IsLonger) (sym same)
          (map-AllValues IsLonger (retract_from nk) (retract_from-IsLonger nk) e.candidates h)
    | ended_one key c _ _ _ same ↦
        subst (AllValues IsLonger) (sym same)
          (insert-AllValues IsLonger (key, nk) (retracted c) e.candidates (inl refl) h)
    | dropped key _ _ _ _ same ↦
        subst (AllValues IsLonger) (sym same) (remove-AllValues IsLonger (key, nk) e.candidates h)
    | stored nb key router_id next_hop metric _ passed same ↦
        subst (AllValues IsLonger) (sym same) (
          insert-AllValues IsLonger (key, nk) (proposed nk key router_id next_hop u metric now)
            e.candidates
            (longer_extend e.config.metric_algebra u.metric (link.link_cost nb.metric) metric
              passed.extends)
            h)
  ]

  -- An Update of any neighbor does not raise the number of candidates above the limit on all
  -- candidates; where it is above already, it does not rise.
  pub receive_update-max_candidates :
      (e : Engine N M) (nk : NeighborKey) (u : ResolvedUpdate N) (now : ℕ)
      → length (receive_update e nk u now).2.candidates
        ≤ max (length e.candidates) e.config.limits.max_candidates
  receive_update-max_candidates e nk u now = elim (receive_update-TableStep e nk u now) [
    | kept same ↦ rw same (omega arith)
    | ended_all _ _ same ↦ rw same (omega (arith, length-map (retract_from nk) e.candidates))
    | ended_one key c _ _ found same ↦ rw same (
        insert-has_room (key, nk) (retracted c) e.candidates e.config.limits.max_candidates
          (inl (rw found refl)))
    | dropped key _ _ _ _ same ↦ rw same (omega (arith, length-remove (key, nk) e.candidates))
    | stored nb key router_id next_hop metric _ passed same ↦ rw same (
        insert-has_room (key, nk) (proposed nk key router_id next_hop u metric now) e.candidates
          e.config.limits.max_candidates (ground (arith, passed.has_room)))
  ]
