-- ===== src/Engine/Requests.antt =====
-- `handle_seqno_request` of crates/babel-protocol/src/engine/sources.rs.
pub mod Kept
pub mod Outcome
pub mod Handled
use babel_rs.Base.{
  ℕ, ◌+◌, ◌-◌, Bool, true, false, not, ◌&&◌, ◌||◌, Option, none, some, List, [], ◌∷◌, ◌++◌, ltb,
  leb, ◌==◌, if◌then◌else◌, Bytes, bytes_eq, pair_eq, ◌=?◌, bool_beq,
}
use babel_rs.Base.Map.{Map, lookup, contains_key}
use babel_rs.Model.{IpNet, net_eq, key_eq, RouterId, RouteKey, seqno_gt}
use babel_rs.Engine.Api.{Action, sequence_number_changed, urgent, SelectedRoute}
use babel_rs.Engine.State.{Engine, NeighborKey, neighbor_eq, Candidate, PendingSeqnoRequest}
use babel_rs.Engine.Sources.{originate_seqno_request, bump_sequence_number}
use babel_rs.Engine.Output.{update_action_to_candidate, reply_to_route_request}
use babel_rs.Engine.Rib.{candidate_is_feasible}
use babel_rs.Engine.Updates.{send_updates}

-- A sequence number that answers a request for another: the same, or a newer one.
abbrev pub answers_seqno : ℕ → ℕ → Bool
answers_seqno have asked = have == asked || seqno_gt have asked

abbrev pub is_pending_for : Option PendingSeqnoRequest → ℕ → Bool
is_pending_for none seqno = false
is_pending_for (some pending) seqno = answers_seqno pending.seqno seqno

abbrev pub is_recent_for : Option (ℕ × ℕ) → ℕ → ℕ → Bool
is_recent_for none seqno now = false
is_recent_for (some (recent, expires)) seqno now = leb now expires && answers_seqno recent seqno

module _ {N : Type 0} where
  -- The selected route answers: it has another router id, or a sequence number that will do.
  abbrev pub route_answers : SelectedRoute N → ℕ → RouterId → Bool
  route_answers route seqno router_id =
      not (route.router_id =? router_id) || answers_seqno route.seqno seqno

module _ {N : Type 0} ⦃net : IpNet N⦄ where
  abbrev pub is_next_hop :
      RouteKey N → RouterId → NeighborKey → (RouteKey N × NeighborKey) × Candidate N → Bool
  is_next_hop key router_id requester entry =
      (entry.0).0 =? key && (entry.1).router_id =? router_id && not ((entry.0).1 =? requester)

module _ {N M : Type 0} ⦃net : IpNet N⦄ where
  -- The order of `(!feasible, metric, seqno)`.
  abbrev pub hop_before : Engine N M → Candidate N → Candidate N → Bool
  hop_before e a b =
      let fa = candidate_is_feasible e a in
      let fb = candidate_is_feasible e b in
      if bool_beq fa fb
      then ltb a.metric b.metric || (a.metric == b.metric && ltb a.seqno b.seqno)
      else fa

  -- The first of the least candidates that are not the requester's.
  unfoldable pub best_next_hop :
      Engine N M
      → RouteKey N
      → RouterId
      → NeighborKey
      → Map (RouteKey N × NeighborKey) (Candidate N)
      → Option (NeighborKey × Candidate N)
  best_next_hop e key router_id requester [] = none
  best_next_hop e key router_id requester (entry ∷ rest) =
      let later = best_next_hop e key router_id requester rest in
      if is_next_hop key router_id requester entry
      then (elim later [
        | none ↦ some ((entry.0).1, entry.1)
        | some best ↦
            if hop_before e (best.1) (entry.1) then some best else some ((entry.0).1, entry.1)
      ])
      else later

  -- A request that is passed on has one hop less.
  abbrev pub forward_to :
      Engine N M
      → NeighborKey
      → RouteKey N
      → ℕ
      → ℕ
      → RouterId
      → ℕ
      → Option (NeighborKey × Candidate N)
      → List (Action N) × Engine N M
  forward_to e requester key seqno hop_count router_id now none = ([], e)
  forward_to e requester key seqno hop_count router_id now (some next) =
      originate_seqno_request e
        (record {
          key = key;
          router_id = router_id;
          seqno = seqno;
          hop_count = hop_count - 1;
          next_hop = next.0;
          requester = some requester;
        })
        now

  -- What neither a selected nor an originated route answers.
  unfoldable pub forward_request :
      Engine N M → NeighborKey → RouteKey N → ℕ → ℕ → RouterId → ℕ → List (Action N) × Engine N M
  forward_request e requester key seqno hop_count router_id now =
      if leb hop_count 1
        || is_pending_for (lookup (key, router_id) e.pending_seqno) seqno
        || is_recent_for (lookup (key, router_id) e.recent_seqno) seqno now
      then ([], e)
      else forward_to e requester key seqno hop_count router_id now
          (best_next_hop e key router_id requester e.candidates)

  -- The own route answers, with its sequence number raised by one at most.
  unfoldable pub answer_own : Engine N M → RouteKey N → ℕ → ℕ → ℕ → List (Action N) × Engine N M
  answer_own e key own_seqno seqno now =
      let bumped = bump_sequence_number e in
      let newer = seqno_gt seqno own_seqno in
      let raised = if newer then bumped else e in
      let (sends, after) = send_updates raised now (some key) none (some (urgent now)) in
      (if newer then sequence_number_changed bumped.sequence_number ∷ sends else sends, after)

  abbrev pub answer_or_forward :
      Engine N M → NeighborKey → RouteKey N → ℕ → ℕ → RouterId → ℕ → List (Action N) × Engine N M
  answer_or_forward e requester key seqno hop_count router_id now = elim (lookup key e.originated) [
    | none ↦ forward_request e requester key seqno hop_count router_id now
    | some origin ↦
        if router_id =? e.config.router_id
        then answer_own e key origin.seqno seqno now
        else forward_request e requester key seqno hop_count router_id now
  ]

  abbrev pub one_action : Action N × Engine N M → List (Action N) × Engine N M
  one_action r = (r.0 ∷ [], r.1)

  unfoldable pub answer_selected :
      Engine N M
      → NeighborKey
      → RouteKey N
      → ℕ
      → ℕ
      → RouterId
      → ℕ
      → Option (SelectedRoute N)
      → List (Action N) × Engine N M
  answer_selected e requester key seqno hop_count router_id now none =
      answer_or_forward e requester key seqno hop_count router_id now
  answer_selected e requester key seqno hop_count router_id now (some route) =
      if route_answers route seqno router_id
      then one_action (
          update_action_to_candidate e route.key route.router_id route.seqno route.metric requester
            now)
      else answer_or_forward e requester key seqno hop_count router_id now

  -- `Engine::handle_seqno_request`.
  unfoldable pub handle_seqno_request :
      Engine N M → NeighborKey → RouteKey N → ℕ → ℕ → RouterId → ℕ → List (Action N) × Engine N M
  handle_seqno_request e requester key seqno hop_count router_id now =
      if contains_key key e.originated && not (router_id =? e.config.router_id)
      then one_action (reply_to_route_request e key requester now)
      else answer_selected e requester key seqno hop_count router_id now (lookup key e.selected)
