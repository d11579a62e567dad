-- ===== src/Engine/Requests/Outcome.antt =====
-- What `handle_seqno_request` of crates/babel-protocol/src/engine/sources.rs may come to.
use babel_rs.Base.{
  ℕ, ◌+◌, ◌≤◌, ◌≡◌, ◌≢◌, ◌-◌, true, List, none, some, [], ◌∷◌, bytes_eq, pair_eq, ◌⊎◌,
}
use babel_rs.Base.Map.{lookup, contains_key}
use babel_rs.Base.Words.{wrapping_add16}
use babel_rs.Model.{IpNet, net_eq, key_eq, RouterId, RouteKey, seqno_gt}
use babel_rs.Wire.{OutboundUpdate, update, seqno_request}
use babel_rs.Engine.Updates.{send_updates}
use babel_rs.Engine.Api.{Action, send, sequence_number_changed, urgent, SelectedRoute}
use babel_rs.Engine.State.{Engine, NeighborKey, neighbor_eq, PendingSeqnoRequest, Originated}
use babel_rs.Engine.Sources.{bump_sequence_number}
use babel_rs.Engine.Requests.{best_next_hop, route_answers, is_pending_for, is_recent_for}
use babel_rs.Engine.Requests.Kept.{Keeps}

-- Why nothing is done about a request: it has no hop left, the same or a newer one is pending or was
-- recent, or no candidate route of that router id is left to ask.
abbrev pub IsHeldBack :
    {N M : Type 0} ⦃net : IpNet N⦄
    → Engine N M
    → NeighborKey
    → RouteKey N
    → ℕ
    → ℕ
    → RouterId
    → ℕ
    → Type 0
IsHeldBack e requester key seqno hop_count router_id now =
    (hop_count ≤ 1)
    ⊎ ((is_pending_for (lookup (key, router_id) e.pending_seqno) seqno ≡ true)
        ⊎ ((is_recent_for (lookup (key, router_id) e.recent_seqno) seqno now ≡ true)
            ⊎ (best_next_hop e key router_id requester e.candidates ≡ none)))

-- What a request may come to, by the actions and the engine that handling it gives.
pub data Outcome {N M : Type 0} ⦃net : IpNet N⦄ (e : Engine N M) (requester : NeighborKey)
    (key : RouteKey N) (seqno hop_count : ℕ) (router_id : RouterId) (now : ℕ)
    : List (Action N) × Engine N M → Type 0 where
  held_back :
      IsHeldBack e requester key seqno hop_count router_id now
      → Outcome e requester key seqno hop_count router_id now ([], e)
  replied :
      (u : OutboundUpdate N) (after : Engine N M)
      → contains_key key e.originated ≡ true
      → router_id ≢ e.config.router_id
      → u.key ≡ some key
      → Keeps e after
      → Outcome e requester key seqno hop_count router_id now (
        send requester.interface requester.address (record { tlvs = update u ∷ [] }) (urgent now)
            ∷ [],
        after,
      )
  answered :
      (route : SelectedRoute N) (u : OutboundUpdate N) (after : Engine N M)
      → lookup key e.selected ≡ some route
      → route_answers route seqno router_id ≡ true
      → u.key ≡ some route.key
      → u.router_id ≡ some route.router_id
      → u.seqno ≡ route.seqno
      → Keeps e after
      → Outcome e requester key seqno hop_count router_id now (
        send requester.interface requester.address (record { tlvs = update u ∷ [] }) (urgent now)
            ∷ [],
        after,
      )
  announced :
      (after : Engine N M)
      → router_id ≡ e.config.router_id
      → Keeps e after
      → Outcome e requester key seqno hop_count router_id now
          ((send_updates e now (some key) none (some (urgent now))).0, after)
  raised :
      (origin : Originated) (sends : List (Action N)) (after : Engine N M)
      → lookup key e.originated ≡ some origin
      → seqno_gt seqno origin.seqno ≡ true
      → router_id ≡ e.config.router_id
      → after.pending_seqno ≡ e.pending_seqno
      → after.sequence_number ≡ wrapping_add16 e.sequence_number 1
      → sends ≡ (send_updates (bump_sequence_number e) now (some key) none (some (urgent now))).0
      → Outcome e requester key seqno hop_count router_id now
          (sequence_number_changed (wrapping_add16 e.sequence_number 1) ∷ sends, after)
  passed_on :
      (p : PendingSeqnoRequest) (after : Engine N M)
      → 2 ≤ hop_count
      → p.next_hop ≢ requester
      → p.requester ≡ some requester
      → p.seqno ≡ seqno
      → p.hop_count + 1 ≡ hop_count
      → lookup (key, router_id) after.pending_seqno ≡ some p
      → after.sequence_number ≡ e.sequence_number
      → Outcome e requester key seqno hop_count router_id now (
        send p.next_hop.interface p.next_hop.address
              (record { tlvs = seqno_request key seqno (hop_count - 1) router_id [] ∷ [] })
              (urgent now)
            ∷ [],
        after,
      )
