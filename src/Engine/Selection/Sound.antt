-- ===== src/Engine/Selection/Sound.antt =====
-- What the selection chooses, and when it leaves the current route.
use babel_rs.Base.{
  ℕ, ◌-◌, ◌<◌, ◌≡◌, refl, sym, subst, Bool, true, Option, none, some, List, [], ◌∷◌, arith, inl,
  inr, ◌⊎◌, Bool-cases, leb, ◌=?◌, All, bytes_eq,
}
use babel_rs.Base.Map.{Map, lookup}
use babel_rs.Base.Entries.{AllValues, insert-AllValues}
use babel_rs.Model.{IpNet, net_eq, key_eq, RouteKey}
use babel_rs.Engine.Api.{SelectedRoute}
use babel_rs.Engine.State.{Engine, Candidate, NeighborKey}
use babel_rs.Engine.Rib.{metric_improvement_is_significant}
use babel_rs.Engine.Selection.{
  best_of, candidate_before, find_current, is_current, current_of, same_candidate, is_eligible,
  eligible, choose, wait_or_switch, waiting_switch, settle_key, select_key, select_all,
  selected_from_candidate,
}

module _ {N M : Type 0} ⦃net : IpNet N⦄ where
  wait_or_switch_cases :
      (e : Engine N M) (key : RouteKey N) (best current : Candidate N) (now : ℕ)
      → ((wait_or_switch e key best current now).0 ≡ current)
        ⊎ ((wait_or_switch e key best current now).0 ≡ best)
  unfolding wait_or_switch
  wait_or_switch_cases e key best current now =
      let waiting = waiting_switch (lookup key e.pending_switches) best current now in
      elim (Bool-cases (
        metric_improvement_is_significant current.metric waiting.current_peak_metric
          e.config.route_selection)) [
            | inl h ↦ rw h (inl refl)
            | inr h ↦
                elim (Bool-cases
                  (leb e.config.route_selection.better_for_ms (now - waiting.since_ms))) [
                    | inl k ↦ rw (h, k) (inr refl)
                    | inr k ↦ rw (h, k) (inl refl)
                  ]
          ]

  significant_lt :
      (e : Engine N M) (better worse : ℕ)
      → metric_improvement_is_significant better worse e.config.route_selection ≡ true
      → better < worse
  unfolding metric_improvement_is_significant
  significant_lt e better worse h = ground arith

  -- Given the candidate of the current route, the choice is that one; or it is the best candidate,
  -- and then its metric is below the current one and clears both margins.
  pub choose_hysteresis :
      (e : Engine N M) (key : RouteKey N) (current best : Candidate N) (settled : Bool) (now : ℕ)
      → ((choose e key (some current) best settled now).0 ≡ current)
        ⊎ (((choose e key (some current) best settled now).0 ≡ best)
            × (best.metric < current.metric)
            × (metric_improvement_is_significant best.metric current.metric e.config.route_selection
                ≡ true))
  unfolding choose
  choose_hysteresis e key current best settled now =
      let better =
        metric_improvement_is_significant best.metric current.metric e.config.route_selection in
      elim (Bool-cases (same_candidate best current)) [
        | inl same ↦ rw same (inl refl)
        | inr other ↦ elim (Bool-cases better) [
          | inr small ↦ rw (other, small) (inl refl)
          | inl gains ↦ elim (Bool-cases settled) [
            | inr fresh ↦
                rw (other, gains, fresh)
                  (inr (refl, significant_lt e best.metric current.metric gains, refl))
            | inl old ↦
                rw (other, gains, old)
                  (elim (wait_or_switch_cases e key best current now) [
                    | inl stays ↦ inl stays
                    | inr moves ↦
                        inr (moves, significant_lt e best.metric current.metric gains, refl)
                  ])
          ]
        ]
      ]

module _ {N : Type 0} (P : Candidate N → Type 0) where
  best_of-All : (c : Candidate N) (cs : List (Candidate N)) → P c → All P cs → P (best_of c cs)
  best_of-All c [] h hs = h
  best_of-All c (d ∷ ds) h hs = elim (Bool-cases (candidate_before d c)) [
    | inl b ↦ rw b (best_of-All d ds hs.0 hs.1)
    | inr b ↦ rw b (best_of-All c ds h hs.1)
  ]

  find_current-All :
      (s : SelectedRoute N) (cs : List (Candidate N)) {c : Candidate N}
      → All P cs
      → find_current s cs ≡ some c
      → P c
  find_current-All s [] hs h = cc
  find_current-All s (d ∷ ds) hs h = elim (Bool-cases (is_current s d)) [
    | inl b ↦ subst (λ o. elim o [ none ↦ P d | some c ↦ P c ]) (rw b at h) hs.0
    | inr b ↦ find_current-All s ds hs.1 (rw b at h)
  ]

  current_of-All :
      (o : Option (SelectedRoute N)) (cs : List (Candidate N)) {c : Candidate N}
      → All P cs
      → current_of o cs ≡ some c
      → P c
  current_of-All none cs hs h = cc
  current_of-All (some s) cs hs h = find_current-All s cs hs h

module _ {N M : Type 0} ⦃net : IpNet N⦄ (P : Candidate N → Type 0) where
  eligible-All :
      (e : Engine N M) (key : RouteKey N) (m : Map (RouteKey N × NeighborKey) (Candidate N))
      → AllValues P m
      → All (λ c. P c × (is_eligible e c ≡ true)) (eligible e key m)
  unfolding eligible
  eligible-All e key [] h = tt
  eligible-All e key ((ck, c) ∷ m) h = elim (Bool-cases (c.key =? key)) [
    | inr k ↦ rw k (eligible-All e key m h.1)
    | inl k ↦ elim (Bool-cases (is_eligible e c)) [
      | inl b ↦ rw (k, b) ((h.0, b), eligible-All e key m h.1)
      | inr b ↦ rw (k, b) (eligible-All e key m h.1)
    ]
  ]

  choose_sound :
      (e : Engine N M) (key : RouteKey N) (o : Option (Candidate N)) (best : Candidate N)
      (settled : Bool) (now : ℕ)
      → P best
      → ((c : Candidate N) → o ≡ some c → P c)
      → P (choose e key o best settled now).0
  unfolding choose
  choose_sound e key none best settled now hb hc = hb
  choose_sound e key (some c) best settled now hb hc =
      elim (choose_hysteresis e key c best settled now) [
        | inl stays ↦ subst P (sym stays) (hc c refl)
        | inr moves ↦ subst P (sym moves.0) hb
      ]

  -- A route that stands for a candidate with the property that was eligible.
  unfoldable pub IsChosen : Engine N M → SelectedRoute N → Type 0
  IsChosen before r =
      (c : Candidate N) × P c × (is_eligible before c ≡ true) × (r ≡ selected_from_candidate c)

module _ {N M : Type 0} ⦃net : IpNet N⦄ (P : Candidate N → Type 0) where
  select_key_sound :
      (before e : Engine N M) (key : RouteKey N) (cs : List (Candidate N)) (now : ℕ)
      (next : Map (RouteKey N) (SelectedRoute N))
      → All (λ c. P c × (is_eligible before c ≡ true)) cs
      → AllValues (IsChosen P before) next
      → AllValues (IsChosen P before) (select_key e key cs now next).0
  unfolding select_key IsChosen
  select_key_sound before e key [] now next hs h = h
  select_key_sound before e key (c ∷ cs) now next hs h =
      let Q : Candidate N → Type 0 = λ d. P d × (is_eligible before d ≡ true) in
      let current = current_of (lookup key e.selected) (c ∷ cs) in
      let clocked = settle_key e key now in
      let best = best_of c cs in
      let chosen = (choose clocked.1 key current best clocked.0 now).0 in
      let good : Q chosen =
        choose_sound Q clocked.1 key current best clocked.0 now (best_of-All Q c cs hs.0 hs.1)
          (λ d found. current_of-All Q (lookup key e.selected) (c ∷ cs) hs found) in
      insert-AllValues (IsChosen P before) key (selected_from_candidate chosen) next
        (chosen, good.0, good.1, refl) h

  -- If every candidate of the engine before has a property, and the table that the loop starts from
  -- holds only routes that stand for candidates that have it and were reachable, and feasible or
  -- that of the selected route, then the table the loop ends with holds only such routes.
  pub select_all-IsChosen :
      (before e : Engine N M) (keys : List (RouteKey N)) (now : ℕ)
      (next : Map (RouteKey N) (SelectedRoute N))
      → AllValues P before.candidates
      → AllValues (IsChosen P before) next
      → AllValues (IsChosen P before) (select_all before e keys now next).0
  unfolding select_all
  select_all-IsChosen before e [] now next hc h = h
  select_all-IsChosen before e (k ∷ ks) now next hc h =
      let step = select_key e k (eligible before k before.candidates) now next in
      select_all-IsChosen before step.1 ks now step.0 hc (
        select_key_sound before e k (eligible before k before.candidates) now next
          (eligible-All P before k before.candidates hc) h)
