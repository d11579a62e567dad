-- ===== src/Metric/Costs.antt =====
-- What the additive algebra and the wired and ETX metrics compute.
use babel_rs.Base.{
  ℕ, ◌+◌, ◌*◌, ◌≡◌, ◌≤◌, ◌<◌, ◌⊎◌, ◌↔◌, true, some, max, arith, ◌==◌, Bool-cases, Option-cases, inl,
  inr,
}
use babel_rs.Model.{infinity}
use babel_rs.Metric.Bounds.{received-le-window}
use babel_rs.Metric.{
  HelloHistory, received, WiredNeighbor, EtxNeighbor, additive_extend, wired_new, wired_reachable,
  wired_receive_cost, wired_link_cost, etx_receive_cost, etx_link_cost, div_ceil, received_or_zero,
}

-- The sum is finite exactly when the link is usable, the advertised metric is finite and both fit
-- below infinity; it is then the exact sum and exceeds the advertised metric. Otherwise it is infinity.
pub additive_extend_cases :
    (advertised link : ℕ)
    → advertised ≤ infinity
    → link ≤ infinity
    → ((0 < link)
        × (advertised + link < infinity)
        × (additive_extend advertised link ≡ advertised + link)
        × (advertised < additive_extend advertised link))
      ⊎ (((link ≡ 0) ⊎ (infinity ≤ advertised + link))
          × (additive_extend advertised link ≡ infinity))
unfolding additive_extend
additive_extend_cases a l ha hl = ground arith

-- A wired neighbour built from a valid configuration has a finite link cost exactly when enough
-- Hellos were received in one of its two windows and the neighbour reported a usable cost, and that
-- reported cost is then the link's.
pub wired_link_cost_iff :
    (nominal needed window : ℕ) (n : WiredNeighbor)
    → wired_new nominal needed window ≡ some n.config
    → n.transmit_cost ≤ infinity
    → ((wired_link_cost n < infinity)
        ↔ ((wired_reachable n ≡ true) × (0 < n.transmit_cost) × (n.transmit_cost < infinity)))
      × ((wired_link_cost n ≡ n.transmit_cost) ⊎ (wired_link_cost n ≡ infinity))
unfolding wired_link_cost wired_receive_cost wired_new
wired_link_cost_iff nominal needed window n valid ht = ground arith

div_ceil_le : (a c q : ℕ) → 0 < c → a ≤ c * q → div_ceil a c ≤ q
div_ceil_le a c q pos h = grind arith

le_div_ceil : (a c : ℕ) → 0 < c → a ≤ c * div_ceil a c
le_div_ceil a c pos = grind arith

div_ceil_antitone : (a c d : ℕ) → 0 < c → c ≤ d → div_ceil a d ≤ div_ceil a c
div_ceil_antitone a c d pos h =
    div_ceil_le a d (div_ceil a c) (omega arith) (grind (arith, le_div_ceil a c pos))

div_ceil_mono : (a b c : ℕ) → 0 < c → a ≤ b → div_ceil a c ≤ div_ceil b c
div_ceil_mono a b c pos h = div_ceil_le a c (div_ceil b c) pos (omega (arith, le_div_ceil b c pos))

etx_receive_cost_antitone :
    (n m : EtxNeighbor)
    → n.window ≡ m.window
    → 0 < received_or_zero m.histories.multicast m.window
    → received_or_zero m.histories.multicast m.window
      ≤ received_or_zero n.histories.multicast n.window
    → etx_receive_cost n ≤ etx_receive_cost m
unfolding etx_receive_cost
etx_receive_cost_antitone n m w pos more = ground (
  arith,
  div_ceil_antitone (256 * m.window) (received_or_zero m.histories.multicast m.window)
      (received_or_zero n.histories.multicast n.window) pos more,
)

-- Two ETX neighbours with the same window and the same reported cost: the one of which more Hellos
-- were received, at least one of the other, has no larger link cost.
pub etx_link_cost_antitone :
    (n m : EtxNeighbor)
    → n.window ≡ m.window
    → n.transmit_cost ≡ m.transmit_cost
    → 0 < received_or_zero m.histories.multicast m.window
    → received_or_zero m.histories.multicast m.window
      ≤ received_or_zero n.histories.multicast n.window
    → etx_link_cost n ≤ etx_link_cost m
unfolding etx_link_cost
etx_link_cost_antitone n m same_window same_cost pos more = ground (
  arith,
  etx_receive_cost_antitone n m same_window pos more,
  div_ceil_mono (max m.transmit_cost 256 * etx_receive_cost n)
      (max m.transmit_cost 256 * etx_receive_cost m) 256,
  (let p : etx_receive_cost n ≤ etx_receive_cost m =
        etx_receive_cost_antitone n m same_window pos more in
      let q : max m.transmit_cost 256 * etx_receive_cost n
          ≤ max m.transmit_cost 256 * etx_receive_cost m =
        grind arith in
      q),
)

received_or_zero-le-window : (h : HelloHistory) (window : ℕ) → received_or_zero h window ≤ window
received_or_zero-le-window h window = elim (Option-cases (received h window)) [
  | inl e ↦ rw (e, received_or_zero) (omega arith)
  | inr (n, e) ↦ rw (e, received_or_zero) (received-le-window h window n e)
]

nominal-le-etx_receive_cost : (n : EtxNeighbor) → 256 ≤ etx_receive_cost n
unfolding etx_receive_cost
nominal-le-etx_receive_cost n =
    let count = received_or_zero n.histories.multicast n.window in
    let whole = received_or_zero-le-window n.histories.multicast n.window in
    elim (Bool-cases (count == 0)) [
      | inl e ↦ rw e (omega arith)
      | inr e ↦
          let some_received : 0 < count = ground arith in
          let up = le_div_ceil (256 * n.window) count some_received in
          let enough : 256 ≤ div_ceil (256 * n.window) count = grind arith in rw e (omega arith)
    ]

-- A finite ETX link cost is at least what the neighbour reported and at least the own receive cost.
pub etx_link_cost_bounds :
    (n : EtxNeighbor)
    → etx_link_cost n < infinity
    → (n.transmit_cost ≤ etx_link_cost n) × (etx_receive_cost n ≤ etx_link_cost n)
unfolding etx_link_cost
etx_link_cost_bounds n finite =
    let r = etx_receive_cost n in
    let t = max n.transmit_cost 256 in
    let low = nominal-le-etx_receive_cost n in
    let up = le_div_ceil (t * r) 256 (omega arith) in
    let by_t : t * 256 ≤ t * r = grind arith in
    let by_r : 256 * r ≤ t * r = grind arith in ground arith
