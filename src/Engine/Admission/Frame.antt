-- ===== src/Engine/Admission/Frame.antt =====
-- The requests and replies of an Update leave the candidates as they are.
use babel_rs.Base.{
  ℕ, ◌≡◌, refl, ◌∙◌, Bool, true, false, Option, none, some, List, [], ◌∷◌, inl, inr, Bool-cases,
  Option-cases, ◌==◌, pair_eq, bytes_eq,
}
use babel_rs.Base.Map.{lookup, remove, contains_key}
use babel_rs.Model.{IpNet, net_eq, key_eq, infinity, RouterId, RouteKey, Distance}
use babel_rs.Engine.State.{Engine, Candidate, NeighborKey, PendingSeqnoRequest}
use babel_rs.Engine.Sources.{originate_seqno_request, maintain_source}
use babel_rs.Engine.Output.{update_action_to_candidate, advertisement}
use babel_rs.Engine.Rib.{is_satisfied, worse_than_selected}
use babel_rs.Engine.FollowUp.{satisfy_all, satisfy_one, request_newer, follow_up}

module _ {N M : Type 0} ⦃net : IpNet N⦄ where
  pub update_action_to_candidate-candidates :
      (e : Engine N M) (key : RouteKey N) (router_id : RouterId) (seqno metric : ℕ)
      (destination : NeighborKey) (now : ℕ)
      → (update_action_to_candidate e key router_id seqno metric destination now).1.candidates
        ≡ e.candidates
  unfolding update_action_to_candidate maintain_source
  update_action_to_candidate-candidates e key router_id seqno metric destination now =
      elim (Bool-cases
        ((advertisement e destination.interface key router_id seqno metric).metric == infinity)) [
          | inl h ↦ rw h refl
          | inr h ↦ rw h refl
        ]

  satisfy_one-candidates :
      (e : Engine N M) (p : (RouteKey N × RouterId) × PendingSeqnoRequest) (key : RouteKey N)
      (router_id : RouterId) (seqno metric now : ℕ)
      → (satisfy_one e p key router_id seqno metric now).1.candidates ≡ e.candidates
  unfolding satisfy_one
  satisfy_one-candidates e (pk, pending) key router_id seqno metric now =
      elim (Option-cases pending.requester) [
        | inl h ↦ rw h refl
        | inr (r, h) ↦ rw h (
            update_action_to_candidate-candidates
              (record e { pending_seqno = remove pk e.pending_seqno }) key router_id seqno metric r
              now)
      ]

  pub satisfy_all-candidates :
      (e : Engine N M) (ps : List ((RouteKey N × RouterId) × PendingSeqnoRequest))
      (key : RouteKey N) (router_id : RouterId) (seqno metric now : ℕ)
      → (satisfy_all e ps key router_id seqno metric now).1.candidates ≡ e.candidates
  unfolding satisfy_all
  satisfy_all-candidates e [] key router_id seqno metric now = refl
  satisfy_all-candidates e (p ∷ ps) key router_id seqno metric now =
      elim (Bool-cases (is_satisfied key router_id seqno p)) [
        | inl h ↦ rw h (
            satisfy_all-candidates (satisfy_one e p key router_id seqno metric now).1 ps key
              router_id seqno metric now
            ∙ satisfy_one-candidates e p key router_id seqno metric now)
        | inr h ↦ rw h (satisfy_all-candidates e ps key router_id seqno metric now)
      ]

  pub request_newer-candidates :
      (e : Engine N M) (fd : Option Distance) (key : RouteKey N) (router_id : RouterId)
      (nk : NeighborKey) (now : ℕ)
      → (request_newer e fd key router_id nk now).1.candidates ≡ e.candidates
  unfolding originate_seqno_request
  request_newer-candidates e none key router_id nk now = refl
  request_newer-candidates e (some fd) key router_id nk now = refl

  pub follow_up-candidates :
      (e : Engine N M) (nk : NeighborKey) (c : Candidate N) (fd : Option Distance)
      (is_feasible : Bool) (now : ℕ)
      → (follow_up e nk c fd is_feasible now).1.candidates ≡ e.candidates
  unfolding follow_up
  follow_up-candidates e nk c fd true now =
      satisfy_all-candidates e e.pending_seqno c.key c.router_id c.seqno c.metric now
  follow_up-candidates e nk c fd false now =
      elim (Bool-cases (contains_key (c.key, c.router_id) e.pending_seqno)) [
        | inl h ↦ rw h refl
        | inr h ↦ elim (Bool-cases (worse_than_selected (lookup c.key e.selected) c.metric)) [
          | inl k ↦ rw (h, k) refl
          | inr k ↦ rw (h, k) (request_newer-candidates e fd c.key c.router_id nk now)
        ]
      ]
