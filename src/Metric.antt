-- ===== src/Metric.antt =====
-- crates/babel-protocol/src/metric.rs: Hello histories and the built-in link metrics.
-- The delay metric computes in `f64`, which is not modelled.
pub mod Bounds
pub mod Undo
pub mod Costs
use babel_rs.Base.{
  ℕ, zero, suc, ◌+◌, ◌-◌, ◌*◌, ◌/◌, ◌%◌, ◌^◌, ◌≡◌, Bool, true, false, ◌&&◌, ◌||◌, Option, none,
  some, min, max, bit_and, bit_or, ltb, leb, ◌==◌, if◌then◌else◌,
}
use babel_rs.Base.Words.{u16_mod, wrapping_add16, wrapping_sub16, saturating_add8}
use babel_rs.Model.{infinity}

pub record HelloHistory : Type 0 where
  pub bits : ℕ
  pub samples : ℕ
  pub expected_seqno : Option ℕ

pub data HelloHistoryUpdate : Type 0 where
  recorded restarted : HelloHistoryUpdate

abbrev pub empty_history : HelloHistory
empty_history = record { bits = 0; samples = 0; expected_seqno = none }

unfoldable pub append_missed : HelloHistory → ℕ → HelloHistory
append_missed h count = if leb 16 count then record h { bits = 0; samples = 16 } else record h {
  bits = (h.bits * 2 ^ count) % u16_mod;
  samples = min (saturating_add8 h.samples count) 16;
}

-- The first Hello, with no expected number.
unfoldable pub record_first : HelloHistory → ℕ → HelloHistory
record_first h seqno = record {
  bits = 1;
  samples = 1;
  expected_seqno = some (wrapping_add16 seqno 1);
}

-- The common end of `record`: a received bit is shifted in.
unfoldable pub shift_in : HelloHistory → ℕ → HelloHistory
shift_in h seqno = record {
  bits = bit_or ((h.bits * 2) % u16_mod) 1;
  samples = min (saturating_add8 h.samples 1) 16;
  expected_seqno = some (wrapping_add16 seqno 1);
}

-- `self.bits >>= backward` shifts a `u16`: as in a release build, the shift amount is taken modulo 16,
-- so that sixteen places back shift nothing (a build with overflow checks panics there).
unfoldable pub record_expected : HelloHistory → ℕ → ℕ → HelloHistory × HelloHistoryUpdate
record_expected h expected seqno =
    let forward = wrapping_sub16 seqno expected in
    let backward = wrapping_sub16 expected seqno in
    if leb forward 16
    then (shift_in (append_missed h forward) seqno, recorded)
    else if leb backward 16
    then (
      shift_in (record h { bits = h.bits / 2 ^ (backward % 16); samples = h.samples - backward })
          seqno,
      recorded,
    )
    else (record_first (record { bits = 0; samples = 0; expected_seqno = none }) seqno, restarted)

-- `HelloHistory::record`.
unfoldable pub record_hello : HelloHistory → ℕ → HelloHistory × HelloHistoryUpdate
record_hello h seqno = elim h.expected_seqno [
  | none ↦ (record_first h seqno, recorded)
  | some expected ↦ record_expected h expected seqno
]

unfoldable pub missed_many : HelloHistory → ℕ → HelloHistory
missed_many h count = elim h.expected_seqno [
  | none ↦ h
  | some value ↦ record (append_missed h (min count 16)) {
    expected_seqno = some (wrapping_add16 value (count % u16_mod));
  }
]

-- `u16::count_ones`, over the sixteen digits.
unfoldable pub count_ones : ℕ → ℕ → ℕ
count_ones zero n = 0
count_ones (suc w) n = n % 2 + count_ones w (n / 2)

-- `none` is the panic of the assertion on the window.
unfoldable pub received : HelloHistory → ℕ → Option ℕ
received h window =
    if leb 1 window && leb window 16
    then some (count_ones 16 (bit_and h.bits (if window == 16 then 0xffff else 2 ^ window - 1)))
    else none

pub record HelloHistories : Type 0 where
  pub multicast : HelloHistory
  pub unicast : HelloHistory

-- `AdditiveMetric::extend`.
unfoldable pub additive_extend : ℕ → ℕ → ℕ
additive_extend advertised_metric link_cost =
    if advertised_metric == infinity || link_cost == 0 || link_cost == infinity
    then infinity
    else if leb infinity (advertised_metric + link_cost)
    then infinity
    else advertised_metric + link_cost

pub record WiredMetric : Type 0 where
  pub nominal_cost : ℕ
  pub received_min : ℕ
  pub window : ℕ

unfoldable pub wired_new : ℕ → ℕ → ℕ → Option WiredMetric
wired_new nominal_cost received_min window =
    if ltb 0 nominal_cost
      && ltb nominal_cost infinity
      && ltb 0 received_min
      && leb received_min window
      && leb window 16
    then some (record { nominal_cost = nominal_cost; received_min = received_min; window = window })
    else none

pub record WiredNeighbor : Type 0 where
  pub config : WiredMetric
  pub histories : HelloHistories
  pub transmit_cost : ℕ

abbrev pub empty_histories : HelloHistories
empty_histories = record { multicast = empty_history; unicast = empty_history }

-- `new_neighbor`, `on_hello` and `on_ihu`, which the wired and the ETX metric share in form.
abbrev pub wired_new_neighbor : WiredMetric → WiredNeighbor
wired_new_neighbor c = record { config = c; histories = empty_histories; transmit_cost = infinity }

abbrev pub wired_on_hello : WiredNeighbor → HelloHistories → WiredNeighbor
wired_on_hello n h = record n { histories = h }

abbrev pub wired_on_ihu : WiredNeighbor → ℕ → WiredNeighbor
wired_on_ihu n receive_cost = record n { transmit_cost = receive_cost }

-- A window out of range panics; `wired_new` excludes it, and the count is then taken as 0.
abbrev pub received_or_zero : HelloHistory → ℕ → ℕ
received_or_zero h window = elim (received h window) [ none ↦ 0 | some n ↦ n ]

unfoldable pub wired_reachable : WiredNeighbor → Bool
wired_reachable n =
    leb n.config.received_min (received_or_zero n.histories.multicast n.config.window)
    || leb n.config.received_min (received_or_zero n.histories.unicast n.config.window)

unfoldable pub wired_receive_cost : WiredNeighbor → ℕ
wired_receive_cost n = if wired_reachable n then n.config.nominal_cost else infinity

unfoldable pub wired_link_cost : WiredNeighbor → ℕ
wired_link_cost n =
    if wired_receive_cost n == infinity || n.transmit_cost == 0 || n.transmit_cost == infinity
    then infinity
    else n.transmit_cost

pub record EtxNeighbor : Type 0 where
  pub window : ℕ
  pub histories : HelloHistories
  pub transmit_cost : ℕ

unfoldable pub etx_new : ℕ → Option ℕ
etx_new window = if ltb 0 window && leb window 16 then some window else none

abbrev pub etx_nominal_cost : ℕ
etx_nominal_cost = 256

-- `u32::div_ceil`.
abbrev pub div_ceil : ℕ → ℕ → ℕ
div_ceil a b = (a + (b - 1)) / b

unfoldable pub etx_receive_cost : EtxNeighbor → ℕ
etx_receive_cost n =
    let count = received_or_zero n.histories.multicast n.window in
    if count == 0 then infinity else min (div_ceil (etx_nominal_cost * n.window) count) infinity

unfoldable pub etx_link_cost : EtxNeighbor → ℕ
etx_link_cost n =
    let receive = etx_receive_cost n in
    if receive == infinity || n.transmit_cost == 0 || n.transmit_cost == infinity
    then infinity
    else let transmit = max n.transmit_cost etx_nominal_cost in
      min (div_ceil (transmit * receive) etx_nominal_cost) infinity
