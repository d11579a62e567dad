-- ===== src/Engine/FollowUp.antt =====
-- The requests and replies that go with a received Update (crates/babel-protocol/src/engine/rib.rs).
use babel_rs.Base.{
  ℕ, Bool, Option, none, some, List, [], ◌∷◌, ◌++◌, if◌then◌else◌, bytes_eq, pair_eq,
}
use babel_rs.Base.Map.{lookup, insert, remove, contains_key}
use babel_rs.Base.Words.{wrapping_add16, saturating_add64}
use babel_rs.Model.{IpNet, net_eq, key_eq, ip_eq, RouterId, RouteKey, Distance}
use babel_rs.Engine.Api.{Action}
use babel_rs.Engine.State.{Engine, Candidate, NeighborKey, neighbor_eq, PendingSeqnoRequest}
use babel_rs.Engine.Sources.{originate_seqno_request, request_hop_count, recent_request_ms}
use babel_rs.Engine.Output.{update_action_to_candidate}
use babel_rs.Engine.Rib.{is_satisfied, worse_than_selected}

module _ {N M : Type 0} ⦃net : IpNet N⦄ where
  -- The answer to one request, if it came from a neighbor.
  abbrev pub answer_requester :
      Engine N M
      → Option NeighborKey
      → RouteKey N
      → RouterId
      → ℕ
      → ℕ
      → ℕ
      → List (Action N) × Engine N M
  answer_requester e none key router_id seqno metric now = ([], e)
  answer_requester e (some requester) key router_id seqno metric now =
      let (action, after) = update_action_to_candidate e key router_id seqno metric requester now in
      (action ∷ [], after)

  -- One satisfied request is answered and remembered.
  unfoldable pub satisfy_one :
      Engine N M
      → (RouteKey N × RouterId) × PendingSeqnoRequest
      → RouteKey N
      → RouterId
      → ℕ
      → ℕ
      → ℕ
      → List (Action N) × Engine N M
  satisfy_one e (pending_key, pending) key router_id seqno metric now =
      let dropped = record e { pending_seqno = remove pending_key e.pending_seqno } in
      let (sent, answered) =
        answer_requester dropped pending.requester key router_id seqno metric now in
      (
        sent,
        record answered {
          recent_seqno =
              insert pending_key (pending.seqno, saturating_add64 now recent_request_ms)
                answered.recent_seqno;
        },
      )

  unfoldable pub satisfy_all :
      Engine N M
      → List ((RouteKey N × RouterId) × PendingSeqnoRequest)
      → RouteKey N
      → RouterId
      → ℕ
      → ℕ
      → ℕ
      → List (Action N) × Engine N M
  satisfy_all e [] key router_id seqno metric now = ([], e)
  satisfy_all e (p ∷ ps) key router_id seqno metric now =
      if is_satisfied key router_id seqno p
      then (let (sent, answered) = satisfy_one e p key router_id seqno metric now in
          let (more, after) = satisfy_all answered ps key router_id seqno metric now in
          (sent ++ more, after))
      else satisfy_all e ps key router_id seqno metric now

  -- The request for the sequence number behind the feasibility distance.
  abbrev pub request_newer :
      Engine N M
      → Option Distance
      → RouteKey N
      → RouterId
      → NeighborKey
      → ℕ
      → List (Action N) × Engine N M
  request_newer e none key router_id nk now = ([], e)
  request_newer e (some fd) key router_id nk now =
      originate_seqno_request e
        (record {
          key = key;
          router_id = router_id;
          seqno = wrapping_add16 fd.seqno 1;
          hop_count = request_hop_count;
          next_hop = nk;
          requester = none;
        })
        now

  -- The requests that go with an admitted candidate.
  unfoldable pub follow_up :
      Engine N M
      → NeighborKey
      → Candidate N
      → Option Distance
      → Bool
      → ℕ
      → List (Action N) × Engine N M
  follow_up e nk c fd is_feasible now =
      if is_feasible
      then satisfy_all e e.pending_seqno c.key c.router_id c.seqno c.metric now
      else if contains_key (c.key, c.router_id) e.pending_seqno
      then ([], e)
      else if worse_than_selected (lookup c.key e.selected) c.metric
      then ([], e)
      else request_newer e fd c.key c.router_id nk now
