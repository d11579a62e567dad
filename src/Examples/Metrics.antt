-- ===== src/Examples/Metrics.antt =====
-- Hello histories and link costs.
use babel_rs.Base.{ℕ, ◌+◌, ◌≡◌, ◌≤◌, ◌<◌, ◌⊎◌, ◌↔◌, refl, true, List, [], ◌∷◌, some, arith}
use babel_rs.Model.{infinity}
use babel_rs.Metric.{
  HelloHistory, HelloHistories, WiredMetric, WiredNeighbor, EtxNeighbor, empty_history,
  record_hello, record_expected, record_first, shift_in, append_missed, missed_many, received,
  count_ones, additive_extend, wired_new, wired_reachable, wired_link_cost, etx_link_cost,
  etx_receive_cost,
}
use babel_rs.Metric.Bounds.{Observation, observe, hello, Overflows, observe_bounds}
use babel_rs.Metric.Costs.{
  additive_extend_cases, wired_link_cost_iff, etx_link_cost_antitone, etx_link_cost_bounds,
}

abbrev heard : List Observation
heard = hello 10 ∷ hello 12 ∷ hello 12 ∷ hello 11 ∷ []

-- The repository's own test of the histories.
undoes_history :
    (received (observe empty_history heard) 3 ≡ some 2)
    × ((observe empty_history heard).samples ≡ 2)
unfolding record_hello record_expected record_first shift_in append_missed missed_many received
    count_ones
undoes_history = (refl, refl)

observe_bounds_example :
    ((observe empty_history heard).samples ≤ 16)
    × (2 ≤ 3)
    × ((2 ≤ (observe empty_history heard).samples) ⊎ Overflows empty_history heard)
observe_bounds_example = observe_bounds heard 3 2 undoes_history.0

abbrev sixteen_heard : HelloHistory
sixteen_heard = record { bits = 0xffff; samples = 16; expected_seqno = some 16 }

-- A Hello sixteen places back leaves more received bits than samples.
sixteen_back :
    (received (record_hello sixteen_heard 0).0 16 ≡ some 16)
    × ((record_hello sixteen_heard 0).0.samples ≡ 1)
unfolding record_hello record_expected shift_in received count_ones
sixteen_back = (refl, refl)

abbrev four_heard : HelloHistory
four_heard = record { bits = 11; samples = 4; expected_seqno = some 7 }

additive_extend_cases_example :
    ((0 < 96)
      × (10 + 96 < infinity)
      × (additive_extend 10 96 ≡ 10 + 96)
      × (10 < additive_extend 10 96))
    ⊎ (((◌≡◌ {A = ℕ} 96 0) ⊎ (infinity ≤ 10 + 96)) × (additive_extend 10 96 ≡ infinity))
additive_extend_cases_example = additive_extend_cases 10 96 (omega arith) (omega arith)

abbrev wired_default : WiredMetric
wired_default = record { nominal_cost = 96; received_min = 2; window = 3 }

abbrev two_of_three : HelloHistories
two_of_three = record {
  multicast = record { bits = 3; samples = 2; expected_seqno = some 3 };
  unicast = empty_history;
}

abbrev wired_peer : WiredNeighbor
wired_peer = record { config = wired_default; histories = two_of_three; transmit_cost = 128 }

wired_default_valid : wired_new 96 2 3 ≡ some wired_default
unfolding wired_new
wired_default_valid = refl

wired_link_cost_iff_example :
    ((wired_link_cost wired_peer < infinity)
      ↔ ((wired_reachable wired_peer ≡ true) × (0 < 128) × (128 < infinity)))
    × ((wired_link_cost wired_peer ≡ 128) ⊎ (wired_link_cost wired_peer ≡ infinity))
wired_link_cost_iff_example =
    wired_link_cost_iff 96 2 3 wired_peer wired_default_valid (omega arith)

abbrev etx_half : EtxNeighbor
etx_half = record {
  window = 6;
  histories = record {
    multicast = record { bits = 21; samples = 5; expected_seqno = some 6 };
    unicast = empty_history;
  };
  transmit_cost = 512;
}

abbrev etx_full : EtxNeighbor
etx_full = record etx_half {
  histories = record {
    multicast = record { bits = 63; samples = 6; expected_seqno = some 7 };
    unicast = empty_history;
  };
}

-- The repository's own test of the ETX metric.
etx_costs : (etx_receive_cost etx_half ≡ 512) × (etx_link_cost etx_half ≡ 1024)
unfolding etx_receive_cost etx_link_cost received count_ones
etx_costs = (refl, refl)

etx_link_cost_antitone_example : etx_link_cost etx_full ≤ etx_link_cost etx_half
unfolding received count_ones
etx_link_cost_antitone_example =
    etx_link_cost_antitone etx_full etx_half refl refl (omega arith) (omega arith)

etx_link_cost_bounds_example :
    (512 ≤ etx_link_cost etx_half) × (etx_receive_cost etx_half ≤ etx_link_cost etx_half)
unfolding etx_receive_cost etx_link_cost received count_ones
etx_link_cost_bounds_example = etx_link_cost_bounds etx_half (omega arith)
