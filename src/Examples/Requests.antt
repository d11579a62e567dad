-- ===== src/Examples/Requests.antt =====
-- A sequence number request that the example router passes on.
use babel_rs.Base.{ℕ, ◌≡◌, refl, some, [], ◌∷◌, pair_eq, bytes_eq, false}
use babel_rs.Base.Map.{lookup, insert}
use babel_rs.Model.{net_eq, key_eq, v4}
use babel_rs.Engine.State.{Engine, NeighborKey, Candidate, PendingSeqnoRequest}
use babel_rs.Engine.Sources.{originate_seqno_request}
use babel_rs.Engine.Requests.{handle_seqno_request, answer_selected, forward_request, best_next_hop}
use babel_rs.Engine.Requests.Outcome.{Outcome}
use babel_rs.Examples.Prefixes.{Prefix, prefix_net, network_key}
use babel_rs.Examples.Engines.{other_id, peer, router}

abbrev asking : NeighborKey
asking = record { interface = 101 ∷ 49 ∷ []; address = v4 (10 ∷ 0 ∷ 1 ∷ 9 ∷ []) }

abbrev held : Candidate Prefix
held = record {
  key = network_key;
  router_id = other_id;
  seqno = 5;
  advertised_metric = 40;
  metric = 136;
  next_hop = peer.address;
  interface = peer.interface;
  interval_cs = 1600;
  expires_ms = 60_000;
  refresh_requested = false;
}

abbrev holding : Engine Prefix ℕ
holding = record router { candidates = ((network_key, peer), held) ∷ [] }

abbrev passed : PendingSeqnoRequest
passed = record {
  seqno = 6;
  hop_count = 4;
  next_hop = peer;
  requester = some asking;
  retries_left = 3;
  next_retry_ms = 3_000;
}

passed_on :
    ((handle_seqno_request holding asking network_key 6 5 other_id 1_000).1).pending_seqno
    ≡ ((network_key, other_id), passed) ∷ []
unfolding handle_seqno_request answer_selected forward_request best_next_hop originate_seqno_request
    lookup insert
passed_on = refl
