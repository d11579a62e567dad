-- ===== src/Engine/Rib.antt =====
-- crates/babel-protocol/src/engine/rib.rs: the admission of received Updates.
pub mod Hysteresis
use babel_rs.Base.{
  ℕ, ◌+◌, ◌-◌, ◌*◌, ◌/◌, min, max, Bool, true, false, not, ◌&&◌, ◌||◌, Option, none, some, List, [],
  ◌∷◌, ◌++◌, map, ltb, leb, ◌==◌, if◌then◌else◌, Bytes, bytes_eq, bytes_beq, pair_eq, ◌=?◌, take,
  any, length, bool_beq,
}
use babel_rs.Base.Map.{Map, lookup, insert, remove, contains_key, is_some}
use babel_rs.Base.Words.{wrapping_add16, saturating_add64, u64_max}
use babel_rs.Model.{
  IpNet, net_eq, key_eq, IpAddr, ip_eq, v4, v6, is_ipv4, octets, infinity, RouterId, RouteKey,
  Distance, seqno_gt, feasible_against,
}
use babel_rs.Wire.{ResolvedUpdate}
use babel_rs.Engine.Api.{
  Action, ImportContext, RoutePolicy, NeighborMetric, RouteSelectionConfig, SelectedRoute,
}
use babel_rs.Engine.State.{
  Engine, Candidate, Neighbor, NeighborKey, neighbor_eq, SourceEntry, PendingSeqnoRequest,
  SeqnoRequestSpec,
}
use babel_rs.Engine.Sources.{originate_seqno_request, request_hop_count, recent_request_ms}
use babel_rs.Engine.Output.{update_action_to_candidate}

-- `safe_extend`: the host's algebra is only believed where it makes the route longer.
unfoldable pub safe_extend : (ℕ → ℕ → ℕ) → ℕ → ℕ → ℕ
safe_extend algebra advertised link =
    if advertised == infinity || link == infinity || link == 0
    then infinity
    else let result = algebra advertised link in if leb result advertised then infinity else result

-- `metric_improvement_is_significant`, with `div_ceil`.
unfoldable pub metric_improvement_is_significant : ℕ → ℕ → RouteSelectionConfig → Bool
metric_improvement_is_significant better worse policy =
    let improvement = worse - better in
    let percentage = min ((worse * policy.switch_margin_percent + 99) / 100) 0xffff in
    leb (max policy.switch_margin_metric percentage) improvement && ltb 0 improvement

abbrev pub first_octet : Bytes → ℕ
first_octet [] = 0
first_octet (a ∷ rest) = a

abbrev pub is_v4_host : Bytes → Bool
is_v4_host a = bytes_beq a (0 ∷ 0 ∷ 0 ∷ 0 ∷ []) || bytes_beq a (127 ∷ 0 ∷ 0 ∷ 1 ∷ [])

-- An entry of the candidate table, and the end of it when it is the neighbor's.
abbrev pub Entry : Type 0 → Type 0
Entry N = (RouteKey N × NeighborKey) × Candidate N

module _ {N : Type 0} where
  -- A retraction, and whether it is news.
  abbrev pub retracted : Candidate N → Candidate N
  retracted c = record c { advertised_metric = infinity; metric = infinity }

  abbrev pub was_finite : Candidate N → Bool
  was_finite c = not (c.advertised_metric == infinity) || not (c.metric == infinity)

  abbrev pub retract_from : NeighborKey → Entry N → Entry N
  retract_from nk (ck, c) = if ck.1 =? nk then (ck, retracted c) else (ck, c)

module _ {N : Type 0} ⦃net : IpNet N⦄ where
  -- `forbidden_destination`; `network()` is the address with the host bits cleared.
  unfoldable pub forbidden_destination : N → Bool
  forbidden_destination n = elim (net.addr (net.trunc n)) [
    | v4 a ↦
        (net.prefix_len n == 32 && is_v4_host a)
        || (leb 8 (net.prefix_len n) && first_octet a == 224)
    | v6 a ↦
        (leb 8 (net.prefix_len n) && first_octet a == 0xff)
        || (leb 64 (net.prefix_len n)
            && bytes_beq (take 8 a) (0xfe ∷ 0x80 ∷ 0 ∷ 0 ∷ 0 ∷ 0 ∷ 0 ∷ 0 ∷ []))
  ]

abbrev pub entry_distance : Option SourceEntry → Option Distance
entry_distance none = none
entry_distance (some entry) = some entry.distance

abbrev pub is_feasible_distance : Distance → Option Distance → Bool
is_feasible_distance d none = true
is_feasible_distance d (some fd) = feasible_against d fd

module _ {N : Type 0} ⦃net : IpNet N⦄ where
  -- The requests that an Update with a feasible distance answers.
  abbrev pub is_satisfied :
      RouteKey N → RouterId → ℕ → (RouteKey N × RouterId) × PendingSeqnoRequest → Bool
  is_satisfied key router_id seqno (pk, pending) =
      pk.0 =? key
      && (not (pk.1 =? router_id) || pending.seqno == seqno || seqno_gt seqno pending.seqno)

  -- The selected route is the one of this router id, interface and next hop.
  abbrev pub is_retained : Option (SelectedRoute N) → RouterId → Bytes → IpAddr → Bool
  is_retained none router_id interface next_hop = false
  is_retained (some s) router_id interface next_hop =
      s.router_id =? router_id && s.interface =? interface && s.next_hop =? next_hop

  abbrev pub worse_than_selected : Option (SelectedRoute N) → ℕ → Bool
  worse_than_selected none metric = false
  worse_than_selected (some s) metric = leb s.metric metric

  -- Whether an Update is news about the candidate that is stored.
  abbrev pub is_changed : Option (Candidate N) → Candidate N → Bool
  is_changed none new = true
  is_changed (some old) new =
      not (old.router_id =? new.router_id)
      || not (old.seqno == new.seqno)
      || not (old.metric == new.metric)
      || not (old.advertised_metric == new.advertised_metric)
      || not (old.next_hop =? new.next_hop)

module _ {N M : Type 0} ⦃net : IpNet N⦄ where
  -- `Engine::candidate_is_feasible`.
  unfoldable pub candidate_is_feasible : Engine N M → Candidate N → Bool
  candidate_is_feasible e c =
      is_retained (lookup c.key e.selected) c.router_id c.interface c.next_hop
      || is_feasible_distance (record { seqno = c.seqno; metric = c.advertised_metric })
          (entry_distance (lookup (c.key, c.router_id) e.feasible))
