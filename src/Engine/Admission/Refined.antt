-- ===== src/Engine/Admission/Refined.antt =====
-- `receive_update` implements the specification of the table of candidates.
use babel_rs.Base.{
  ℕ, ◌≡◌, refl, sym, subst, ◌∙◌, ap, Bool, true, false, not, ◌&&◌, ◌||◌, none, some, inl, inr, ◌⊎◌,
  Bool-cases, Option-cases, ◌==◌, ==_iff, leb, pair_eq, bytes_eq, length, ◌=?◌, if◌then◌else◌,
}
use babel_rs.Base.Map.{lookup, insert, remove, contains_key}
use babel_rs.Model.{IpNet, net_eq, key_eq, infinity, RouterId, RouteKey, IpAddr, is_ipv4}
use babel_rs.Wire.{ResolvedUpdate}
use babel_rs.Engine.Api.{NeighborMetric}
use babel_rs.Engine.State.{Engine, Candidate, NeighborKey, neighbor_eq, Neighbor}
use babel_rs.Engine.Rib.{
  forbidden_destination, safe_extend, retracted, entry_distance, is_feasible_distance, is_retained,
}
use babel_rs.Engine.Admission.{
  Outcome, retract_all, retract_one, drop_candidate, reject_candidate, count_new, store_candidate,
  admit_from, admit_update, receive_update, proposed, import_context,
}
use babel_rs.Engine.FollowUp.{follow_up}
use babel_rs.Engine.Admission.Frame.{follow_up-candidates, request_newer-candidates}
use babel_rs.Engine.Admission.Table.{TableStep, kept, ended_all, ended_one, dropped, stored}

module _ {N M : Type 0} ⦃net : IpNet N⦄ where
  count_new-candidates :
      (b : Bool) (e : Engine N M) (nk : NeighborKey) (nb : Neighbor M)
      → (count_new b e nk nb).candidates ≡ e.candidates
  unfolding count_new
  count_new-candidates true e nk nb = refl
  count_new-candidates false e nk nb = refl

  -- Storing keeps the table only for an infeasible Update of the selected route.
  store_candidate-candidates :
      (e : Engine N M) (nk : NeighborKey) (nb : Neighbor M) (is_new : Bool) (c : Candidate N)
      (now : ℕ)
      → let blocked =
          not (
            is_feasible_distance
              (record { seqno = c.seqno; metric = c.advertised_metric })
              (entry_distance (lookup (c.key, c.router_id) e.feasible)))
          && is_retained (lookup c.key e.selected) c.router_id nk.interface c.next_hop in
        (store_candidate e nk nb is_new c now).2.candidates
        ≡ (if blocked then e.candidates else insert (c.key, nk) c e.candidates)
  unfolding store_candidate
  store_candidate-candidates e nk nb is_new c now =
      let fd = entry_distance (lookup (c.key, c.router_id) e.feasible) in
      let good =
        is_feasible_distance (record { seqno = c.seqno; metric = c.advertised_metric }) fd in
      elim (Bool-cases
        (not good && is_retained (lookup c.key e.selected) c.router_id nk.interface c.next_hop)) [
          | inl h ↦ rw h (request_newer-candidates e fd c.key c.router_id nk now)
          | inr h ↦ rw h (
              ap (insert (c.key, nk) c) (
                count_new-candidates is_new (follow_up e nk c fd good now).1 nk nb
                ∙ follow_up-candidates e nk c fd good now))
        ]

module _ {N M : Type 0} ⦃net : IpNet N⦄ ⦃link : NeighborMetric M⦄ where
  retract_one-absent :
      (e : Engine N M) (key : RouteKey N) (nk : NeighborKey)
      → lookup (key, nk) e.candidates ≡ none
      → (retract_one e key nk).2.candidates ≡ e.candidates
  unfolding retract_one
  retract_one-absent e key nk l = rw (retract_one, l) refl

  retract_one-present :
      (e : Engine N M) (key : RouteKey N) (nk : NeighborKey) (c : Candidate N)
      → lookup (key, nk) e.candidates ≡ some c
      → (retract_one e key nk).2.candidates ≡ insert (key, nk) (retracted c) e.candidates
  unfolding retract_one
  retract_one-present e key nk c l = rw (retract_one, l) refl

  drop_candidate-candidates :
      (e : Engine N M) (key : RouteKey N) (nk : NeighborKey) (nb : Neighbor M)
      → ((drop_candidate e key nk nb).2.candidates ≡ e.candidates)
        ⊎ ((drop_candidate e key nk nb).2.candidates ≡ remove (key, nk) e.candidates)
  unfolding drop_candidate
  drop_candidate-candidates e key nk nb = elim (Bool-cases (contains_key (key, nk) e.candidates)) [
    | inl h ↦ rw h (inr refl)
    | inr h ↦ rw h (inl refl)
  ]

  admit_from-TableStep :
      (e : Engine N M) (nk : NeighborKey) (nb : Neighbor M) (key : RouteKey N)
      (router_id : RouterId) (next_hop : IpAddr) (u : ResolvedUpdate N) (now : ℕ)
      → u.key ≡ some key
      → lookup nk e.neighbours ≡ some nb
      → u.router_id ≡ some router_id
      → u.next_hop ≡ some next_hop
      → (u.metric == infinity) ≡ false
      → forbidden_destination key.destination ≡ false
      → (router_id =? e.config.router_id) ≡ false
      → (is_ipv4 (net.addr key.destination) && not (is_ipv4 next_hop) && not e.config.ipv4_via_ipv6)
        ≡ false
      → TableStep e nk u now (admit_from e nk nb key router_id next_hop u now).2.candidates
  unfolding admit_from reject_candidate
  admit_from-TableStep e nk nb key router_id next_hop u now hk hn hr hh hf ha ho hv =
      let accepts = e.config.route_policy.accept (import_context nk key router_id next_hop u) in
      let full =
        not (contains_key (key, nk) e.candidates)
        && (leb e.config.limits.max_candidates_per_neighbor nb.candidates
            || leb e.config.limits.max_candidates (length e.candidates)) in
      let metric = safe_extend e.config.metric_algebra u.metric (link.link_cost nb.metric) in
      let c = proposed nk key router_id next_hop u metric now in
      let blocked =
        not (
          is_feasible_distance (record { seqno = u.seqno; metric = u.metric })
            (entry_distance (lookup (key, router_id) e.feasible)))
        && is_retained (lookup key e.selected) router_id nk.interface next_hop in
      elim (Bool-cases accepts) [
        | inr rejects ↦ rw rejects (elim (drop_candidate-candidates e key nk nb) [
          | inl same ↦ kept same
          | inr gone ↦ dropped key router_id next_hop hk rejects gone
        ])
        | inl accepted ↦ elim (Bool-cases full) [
          | inl no_room ↦ rw (accepted, no_room) (kept refl)
          | inr room ↦ elim (Bool-cases (not (metric == infinity) && leb metric u.metric)) [
            | inl shorter ↦ rw (accepted, room, shorter) (kept refl)
            | inr longer ↦
                rw (accepted, room, longer)
                  (elim (Bool-cases blocked) [
                    | inl b ↦ kept (
                        rw b at (
                          store_candidate-candidates e nk nb
                            (not (contains_key (key, nk) e.candidates)) c now))
                    | inr b ↦
                        stored nb key router_id next_hop metric hk
                          (record {
                            known = hn;
                            named = hr;
                            reached = hh;
                            is_finite = hf;
                            is_allowed = ha;
                            is_foreign = ho;
                            is_forwardable = hv;
                            is_accepted = accepted;
                            has_room = room;
                            extends = refl;
                            keeps_selected = b;
                          })
                          (rw b at (
                            store_candidate-candidates e nk nb
                              (not (contains_key (key, nk) e.candidates)) c now))
                  ])
          ]
        ]
      ]

  admit_update-admit_from :
      (e : Engine N M) (nk : NeighborKey) (nb : Neighbor M) (key : RouteKey N)
      (router_id : RouterId) (next_hop : IpAddr) (u : ResolvedUpdate N) (now : ℕ)
      → u.router_id ≡ some router_id
      → u.next_hop ≡ some next_hop
      → lookup nk e.neighbours ≡ some nb
      → (router_id =? e.config.router_id) ≡ false
      → (is_ipv4 (net.addr key.destination) && not (is_ipv4 next_hop) && not e.config.ipv4_via_ipv6)
        ≡ false
      → admit_update e nk key u now ≡ admit_from e nk nb key router_id next_hop u now
  unfolding admit_update admit_from
  admit_update-admit_from e nk nb key router_id next_hop u now hr hh hn ho hv =
      rw (hr, ho, hh, hv, hn) refl

  receive_update-admit_update :
      (e : Engine N M) (nk : NeighborKey) (key : RouteKey N) (u : ResolvedUpdate N) (now : ℕ)
      → u.key ≡ some key
      → forbidden_destination key.destination ≡ false
      → (u.metric == infinity) ≡ false
      → receive_update e nk u now ≡ admit_update e nk key u now
  unfolding receive_update
  receive_update-admit_update e nk key u now h f m = rw (h, f, m) refl

  admit_update-TableStep :
      (e : Engine N M) (nk : NeighborKey) (key : RouteKey N) (u : ResolvedUpdate N) (now : ℕ)
      → u.key ≡ some key
      → (u.metric == infinity) ≡ false
      → forbidden_destination key.destination ≡ false
      → TableStep e nk u now (admit_update e nk key u now).2.candidates
  unfolding admit_update
  admit_update-TableStep e nk key u now hk hf ha = elim (Option-cases u.router_id) [
    | inl anonymous ↦ kept (rw anonymous refl)
    | inr (router_id, hr) ↦ elim (Bool-cases (router_id =? e.config.router_id)) [
      | inl own ↦ kept (rw (hr, own) refl)
      | inr ho ↦ elim (Option-cases u.next_hop) [
        | inl nowhere ↦ kept (rw (hr, ho, nowhere) refl)
        | inr (next_hop, hh) ↦
            elim (Bool-cases (
              is_ipv4 (net.addr key.destination)
              && not (is_ipv4 next_hop)
              && not e.config.ipv4_via_ipv6)) [
                | inl mixed ↦ kept (rw (hr, ho, hh, mixed) refl)
                | inr hv ↦ elim (Option-cases (lookup nk e.neighbours)) [
                  | inl stranger ↦ kept (rw (hr, ho, hh, hv, stranger) refl)
                  | inr (nb, hn) ↦
                      subst (λ (o : Outcome N M). TableStep e nk u now o.2.candidates)
                        (sym (
                          admit_update-admit_from e nk nb key router_id next_hop u now hr hh hn ho
                            hv))
                        (admit_from-TableStep e nk nb key router_id next_hop u now hk hn hr hh hf ha
                          ho hv)
                ]
              ]
      ]
    ]
  ]

  -- Whatever an engine and an Update from a neighbor are, the table of candidates after
  -- `receive_update` is that of a specified step: it is kept; all candidates of the neighbor are
  -- retracted, or the one of the key, by an infinite metric; the one of the key is dropped, if the
  -- policy rejects the Update; or the candidate of the key is the one the Update proposes, and then
  -- the Update has passed every check of admission: a known neighbor, an allowed destination, a
  -- foreign router id, a next hop that can be forwarded to, the policy, both limits for a new entry,
  -- the algebra, and feasibility if the route is the selected one.
  pub receive_update-TableStep :
      (e : Engine N M) (nk : NeighborKey) (u : ResolvedUpdate N) (now : ℕ)
      → TableStep e nk u now (receive_update e nk u now).2.candidates
  unfolding receive_update retract_all
  receive_update-TableStep e nk u now = elim (Option-cases u.key) [
    | inl h ↦ elim (Bool-cases (u.metric == infinity)) [
      | inl m ↦ ended_all h ((==_iff u.metric infinity).0 m) (rw (h, m) refl)
      | inr m ↦ kept (rw (h, m) refl)
    ]
    | inr (key, h) ↦ elim (Bool-cases (forbidden_destination key.destination)) [
      | inl f ↦ kept (rw (h, f) refl)
      | inr f ↦ elim (Bool-cases (u.metric == infinity)) [
        | inr m ↦
            subst (λ (o : Outcome N M). TableStep e nk u now o.2.candidates)
              (sym (receive_update-admit_update e nk key u now h f m))
              (admit_update-TableStep e nk key u now h m f)
        | inl m ↦ elim (Option-cases (lookup (key, nk) e.candidates)) [
          | inl l ↦ kept (rw (h, f, m) (retract_one-absent e key nk l))
          | inr (c, l) ↦
              ended_one key c h ((==_iff u.metric infinity).0 m) l
                (rw (h, f, m) (retract_one-present e key nk c l))
        ]
      ]
    ]
  ]
