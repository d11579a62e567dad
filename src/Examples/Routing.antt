-- ===== src/Examples/Routing.antt =====
-- Admission, selection and announcements of the example router.
use babel_rs.Base.{
  Bool, ℕ, ◌-◌, ◌*◌, ◌<◌, ◌≤◌, max, ◌≡◌, ◌≢◌, ◌↔◌, ◌⊎◌, refl, true, false, [], ◌∷◌, none, some,
  arith, Bytes, length, bytes_eq, pair_eq,
}
use babel_rs.Base.Map.{Map, lookup, insert}
use babel_rs.Base.Entries.{AllValues}
use babel_rs.Base.Words.{saturating_add64}
use babel_rs.Model.{RouteKey, v4, infinity, net_eq, key_eq, Distance, feasible_against, seqno_gt}
use babel_rs.Metric.{additive_extend}
use babel_rs.Wire.{OutboundUpdate}
use babel_rs.Engine.State.{Engine, Candidate, neighbor_eq, SourceEntry}
use babel_rs.Engine.Sources.{maintain_source, source_gc_time_ms}
use babel_rs.Engine.Sources.Distances.{maintain_source_tightens, update_action_to_candidate_echo}
use babel_rs.Engine.Output.Announced.{advertisement_cases}
use babel_rs.Engine.Output.{advertisement, unavailable, denied, update_action_to_candidate}
use babel_rs.Engine.Rib.{
  safe_extend, metric_improvement_is_significant, forbidden_destination, is_feasible_distance,
  entry_distance,
}
use babel_rs.Engine.Rib.Hysteresis.{metric_improvement_iff}
use babel_rs.Engine.Admission.{
  receive_update, admit_update, admit_from, store_candidate, count_new, proposed,
}
use babel_rs.Engine.FollowUp.{follow_up, satisfy_all}
use babel_rs.Engine.Admission.Table.{TableStep}
use babel_rs.Engine.Admission.Refined.{receive_update-TableStep}
use babel_rs.Engine.Admission.Bounds.{
  IsLonger, safe_extend_cases, receive_update-IsLonger, receive_update-max_candidates,
}
use babel_rs.Engine.Selection.{
  choose, wait_or_switch, waiting_switch, select_all, select_key, settle_key, eligible,
  selected_from_candidate,
}
use babel_rs.Engine.Selection.Sound.{choose_hysteresis, IsChosen, select_all-IsChosen}
use babel_rs.Engine.Recompute.{recompute_candidate_metrics}
use babel_rs.Engine.Recompute.Longer.{recompute_candidate_metrics-IsLonger}
use babel_rs.Engine.Rib.{candidate_is_feasible}
use babel_rs.Base.Results.{ok}
use babel_rs.Engine.Validation.{validate_config, validate_origins}
use babel_rs.Engine.Validation.Exact.{validate_config_iff, validate_origins_iff}
use babel_rs.Model.{route_key_new}
use babel_rs.Base.{All}
use babel_rs.Examples.Prefixes.{Prefix, prefix_net, network_key}
use babel_rs.Examples.Engines.{
  fixed_metric, other_id, margins, router_config, peer, old_source, router, offer,
}

-- The offer becomes a candidate at the metric 136.
offer_stored :
    (receive_update router peer offer 1_000).2.candidates
    ≡ ((network_key, peer), proposed peer network_key other_id peer.address offer 136 1_000) ∷ []
unfolding receive_update admit_update admit_from store_candidate follow_up satisfy_all count_new
    safe_extend additive_extend forbidden_destination feasible_against seqno_gt lookup insert
offer_stored = refl

receive_update-TableStep_example :
    TableStep router peer offer 1_000 (receive_update router peer offer 1_000).2.candidates
receive_update-TableStep_example = receive_update-TableStep router peer offer 1_000

abbrev learned : Engine Prefix ℕ
learned = (receive_update router peer offer 1_000).2

-- After the first offer, a second one of the same key.
receive_update-IsLonger_example :
    AllValues IsLonger
      (receive_update learned peer (record offer { metric = 20 }) 2_000).2.candidates
receive_update-IsLonger_example =
    receive_update-IsLonger learned peer (record offer { metric = 20 }) 2_000
      (receive_update-IsLonger router peer offer 1_000 tt)

receive_update-max_candidates_example :
    length (receive_update router peer offer 1_000).2.candidates ≤ max 0 16_384
receive_update-max_candidates_example = receive_update-max_candidates router peer offer 1_000

safe_extend_cases_example :
    (safe_extend additive_extend 40 96 ≡ infinity)
    ⊎ ((40 < safe_extend additive_extend 40 96)
        × (safe_extend additive_extend 40 96 ≡ additive_extend 40 96)
        × (◌≢◌ {A = ℕ} 40 infinity)
        × (◌≢◌ {A = ℕ} 96 infinity)
        × (0 < 96))
safe_extend_cases_example = safe_extend_cases additive_extend 40 96

metric_improvement_iff_example :
    (metric_improvement_is_significant 90 100 margins ≡ true)
    ↔ ((90 < 100) × (8 ≤ 100 - 90) × (100 * 5 ≤ (100 - 90) * 100))
metric_improvement_iff_example = metric_improvement_iff 90 100 margins (omega arith) (omega arith)

abbrev forty : Distance
forty = record { seqno = 4; metric = 40 }

source_known : lookup (network_key, other_id) router.feasible ≡ some old_source
unfolding lookup
source_known = refl

maintain_source_tightens_example :
    (kept : SourceEntry) × (lookup
        (network_key, other_id)
        (maintain_source router network_key other_id forty 1_000).feasible
      ≡ some kept)
    × (kept.expires_ms ≡ saturating_add64 1_000 source_gc_time_ms)
    × ((kept.distance ≡ old_source.distance)
        ⊎ (feasible_against kept.distance old_source.distance ≡ true))
    × (feasible_against forty kept.distance ≡ false)
maintain_source_tightens_example =
    maintain_source_tightens router network_key other_id forty 1_000 old_source source_known

finite_advertisement : (advertisement router peer.interface network_key other_id 5 136).metric ≡ 136
unfolding advertisement unavailable denied lookup
finite_advertisement = refl

update_action_to_candidate_echo_example :
    is_feasible_distance
      (record { seqno = 5; metric = 232 })
      (entry_distance (
        lookup
          (network_key, other_id)
          (update_action_to_candidate router network_key other_id 5 136 peer 1_000).1.feasible))
    ≡ false
update_action_to_candidate_echo_example =
    update_action_to_candidate_echo router network_key other_id 5 136 peer 1_000
      (record { seqno = 5; metric = 232 }) (rw finite_advertisement (omega arith)) refl
      (rw finite_advertisement (omega arith))

abbrev near_candidate : Candidate Prefix
near_candidate = proposed peer network_key other_id peer.address offer 136 1_000

abbrev far_candidate : Candidate Prefix
far_candidate = record near_candidate { metric = 400 }

-- A settled route waits at first, and the route stays.
switch_waits :
    (choose learned network_key (some far_candidate) near_candidate true 1_000).0 ≡ far_candidate
unfolding choose wait_or_switch waiting_switch metric_improvement_is_significant lookup
switch_waits = refl

choose_hysteresis_example :
    ((choose learned network_key (some far_candidate) near_candidate true 1_000).0 ≡ far_candidate)
    ⊎ (((choose learned network_key (some far_candidate) near_candidate true 1_000).0
          ≡ near_candidate)
        × (136 < 400)
        × (metric_improvement_is_significant 136 400 learned.config.route_selection ≡ true))
choose_hysteresis_example =
    choose_hysteresis learned network_key far_candidate near_candidate true 1_000

select_all-IsChosen_example :
    AllValues (IsChosen IsLonger learned) (select_all learned learned (network_key ∷ []) 1_000 []).0
select_all-IsChosen_example =
    select_all-IsChosen IsLonger learned learned (network_key ∷ []) 1_000 []
      (receive_update-IsLonger router peer offer 1_000 tt) tt

-- The offer is selected at once when there is no route.
offer_selected :
    lookup network_key (select_all learned learned (network_key ∷ []) 1_000 []).0
    ≡ some (selected_from_candidate near_candidate)
unfolding select_all select_key settle_key eligible candidate_is_feasible choose receive_update
    admit_update admit_from store_candidate follow_up satisfy_all count_new safe_extend
    additive_extend forbidden_destination feasible_against seqno_gt lookup insert
offer_selected = refl

recompute_candidate_metrics-IsLonger_example :
    AllValues IsLonger (recompute_candidate_metrics learned (some peer)).1.candidates
recompute_candidate_metrics-IsLonger_example =
    recompute_candidate_metrics-IsLonger learned (some peer)
      (receive_update-IsLonger router peer offer 1_000 tt)

abbrev announced : OutboundUpdate Prefix
announced = advertisement router peer.interface network_key other_id 5 136

advertisement_cases_example :
    ((announced.metric ≡ infinity) × (announced.next_hop ≡ none) × (announced.v4_via_v6 ≡ false))
    ⊎ ((announced.metric ≡ 136)
        × (◌≡◌ {A = Bool} true true)
        × (((◌≡◌ {A = Bool} true false) × (announced.v4_via_v6 ≡ false))
            ⊎ ((address : Bytes) × (announced.next_hop ≡ some (v4 address))
                × (announced.v4_via_v6 ≡ false))
            ⊎ ((announced.v4_via_v6 ≡ true) × (router.config.ipv4_via_ipv6 ≡ true))))
advertisement_cases_example = advertisement_cases router peer.interface network_key other_id 5 136

validate_config_iff_example :
    (validate_config router_config ≡ ok tt)
    ↔ ((5 ≤ 100) × (◌≢◌ {A = ℕ} 8 infinity) × (◌≢◌ {A = ℕ} 400 0) × (◌≢◌ {A = ℕ} 1600 0))
validate_config_iff_example = validate_config_iff router_config

abbrev own_routes : Map (RouteKey Prefix) ℕ
own_routes = (network_key, 0) ∷ []

validate_origins_iff_example :
    (validate_origins own_routes ≡ ok tt)
    ↔ All (λ p. (route_key_new p.0.destination p.0.source ≡ some p.0) × (p.1 ≢ infinity)) own_routes
validate_origins_iff_example = validate_origins_iff own_routes
