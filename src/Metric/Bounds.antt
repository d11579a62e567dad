-- ===== src/Metric/Bounds.antt =====
-- The invariant of a Hello history, and what it bounds.
use native.Mathlib.Decide.{dec_le, ℕ_discrete}
use native.Mathlib.Nat.{pow-suc, mod-lt}
use babel_rs.Base.{
  ℕ, zero, suc, ◌+◌, ◌-◌, ◌*◌, ◌/◌, ◌%◌, ◌^◌, ◌≡◌, ◌≤◌, ◌<◌, some, List, [], ◌∷◌, min, arith, leb,
  Bool-cases, Option-cases, inl, inr, ap, sym, ◌∙◌, ◌⊎◌,
}
use babel_rs.Base.Bits.{bit_or-one, bit_and-mask, pow-add, pow_mono, pow-pos}
use babel_rs.Base.Words.{u16_mod, wrapping_sub16}
use babel_rs.Metric.{
  HelloHistory, append_missed, record_first, shift_in, record_expected, record_hello, missed_many,
  count_ones, received, empty_history,
}

-- The bits fit the samples, of which there are at most sixteen.
pub record IsValid (h : HelloHistory) : Type 0 where
  pub at_most_16 : h.samples ≤ 16
  pub fits : h.bits < 2 ^ h.samples

-- Shifting by `c` places multiplies a bound on the exponent.
pub shift_bound : (b s c : ℕ) → b < 2 ^ s → b * 2 ^ c < 2 ^ (s + c)
shift_bound b s c h = grind (arith, pow-add s c, pow-pos c)

pow_16 : (s : ℕ) → 16 ≤ s → 65536 ≤ 2 ^ s
pow_16 s h = pow_mono 16 s h

-- What sixteen bits keep of a number below `2 ^ t`.
mod_bound : (x t : ℕ) → x < 2 ^ t → x % u16_mod < 2 ^ min t 16
mod_bound x t h = elim (dec_le t 16) [
  | yes p ↦ let e : min t 16 ≡ t = omega arith in rw e (omega arith)
  | no p ↦ let e : min t 16 ≡ 16 = omega arith in rw e (omega arith)
]

append_missed-IsValid : (h : HelloHistory) (c : ℕ) → IsValid h → IsValid (append_missed h c)
unfolding append_missed
append_missed-IsValid h c v = elim (Bool-cases (leb 16 c)) [
  | inl e ↦ rw e (record { at_most_16 = omega arith; fits = omega arith })
  | inr e ↦
      let small : min (min (h.samples + c) 255) 16 ≡ min (h.samples + c) 16 =
        ground (arith, v.at_most_16) in
      rw e (record {
        at_most_16 = omega arith;
        fits = rw small (mod_bound _ _ (shift_bound h.bits h.samples c v.fits));
      })
]

double_bound : (b s : ℕ) → s ≤ 16 → b < 2 ^ s → b % 0x8000 * 2 + 1 < 2 ^ min (s + 1) 16
double_bound b s h p = elim (dec_le s 15) [
  | yes q ↦ let e : min (s + 1) 16 ≡ suc s = omega arith in rw (e, pow-suc 2 s) (omega arith)
  | no q ↦ let e : min (s + 1) 16 ≡ 16 = omega arith in rw e (omega arith)
]

shift_in-IsValid : (h : HelloHistory) (s : ℕ) → IsValid h → IsValid (shift_in h s)
unfolding shift_in
shift_in-IsValid h s v =
    let small : min (min (h.samples + 1) 255) 16 ≡ min (h.samples + 1) 16 =
      ground (arith, v.at_most_16) in
    let even : (h.bits * 2) % u16_mod ≡ (h.bits % 0x8000) * 2 = omega arith in
    record {
      at_most_16 = omega arith;
      fits = rw (even, bit_or-one, small) (double_bound h.bits h.samples v.at_most_16 v.fits);
    }

-- Dropping `k` received bits.
shift_out_bound : (b s k : ℕ) → b < 2 ^ s → b / 2 ^ k < 2 ^ (s - k)
shift_out_bound b s k h = elim (dec_le k s) [
  | yes p ↦
      let e : s - k + k ≡ s = omega arith in
      let q : 2 ^ s ≡ 2 ^ (s - k) * 2 ^ k = ap (λ (t : ℕ). 2 ^ t) (sym e) ∙ pow-add (s - k) k in
      grind (arith, q, pow-pos k)
  | no p ↦ grind (arith, pow_mono s k (omega arith), pow-pos (s - k))
]

count_ones-le : (w n k : ℕ) → n < 2 ^ k → count_ones w n ≤ k
unfolding count_ones
count_ones-le zero n k h = omega arith
count_ones-le (suc w) n zero h = omega (arith, count_ones-le w (n / 2) 0 (omega arith))
count_ones-le (suc w) n (suc k) h =
    omega (arith, count_ones-le w (n / 2) k (omega (arith, pow-suc 2 k)))

record_first-IsValid : (h : HelloHistory) (s : ℕ) → IsValid (record_first h s)
unfolding record_first
record_first-IsValid h s = record { at_most_16 = omega arith; fits = omega arith }

record_expected-IsValid :
    (h : HelloHistory) (expected seqno : ℕ)
    → IsValid h
    → ¬ (wrapping_sub16 expected seqno ≡ 16)
    → IsValid (record_expected h expected seqno).0
unfolding record_expected
record_expected-IsValid h expected seqno v other =
    let forward = wrapping_sub16 seqno expected in
    let backward = wrapping_sub16 expected seqno in
    elim (Bool-cases (leb forward 16)) [
      | inl e ↦ rw e (shift_in-IsValid _ seqno (append_missed-IsValid h forward v))
      | inr e ↦ elim (Bool-cases (leb backward 16)) [
        | inl f ↦
            let small : backward % 16 ≡ backward = ground (arith, other, f) in
            rw (e, f, small)
              (shift_in-IsValid _ seqno (record {
                at_most_16 = omega (arith, v.at_most_16);
                fits = shift_out_bound h.bits h.samples backward v.fits;
              }))
        | inr f ↦ rw (e, f) (record_first-IsValid _ seqno)
      ]
    ]

-- The Hello is exactly sixteen behind the one that is expected: the shift overflows.
pub record IsSixteenBack (h : HelloHistory) (seqno : ℕ) : Type 0 where
  pub expected : ℕ
  pub awaited : h.expected_seqno ≡ some expected
  pub behind : wrapping_sub16 expected seqno ≡ 16

-- Unless the shift overflows, a history keeps no bit outside its samples.
pub record_hello-IsValid :
    (h : HelloHistory) (seqno : ℕ)
    → IsValid h
    → ¬ IsSixteenBack h seqno
    → IsValid (record_hello h seqno).0
unfolding record_hello
record_hello-IsValid h seqno v other = elim (Option-cases h.expected_seqno) [
  | inl e ↦ rw (e, record_hello) (record_first-IsValid h seqno)
  | inr (x, e) ↦
      rw (e, record_hello)
        (record_expected-IsValid h x seqno v
          (λ b. other (record { expected = x; awaited = e; behind = b })))
]

record_expected-le_16 :
    (h : HelloHistory) (expected seqno : ℕ) → (record_expected h expected seqno).0.samples ≤ 16
unfolding record_expected shift_in record_first
record_expected-le_16 h expected seqno = ground arith

record_hello-le_16 : (h : HelloHistory) (seqno : ℕ) → (record_hello h seqno).0.samples ≤ 16
unfolding record_hello record_first
record_hello-le_16 h seqno = elim (Option-cases h.expected_seqno) [
  | inl e ↦ rw (e, record_hello) (omega arith)
  | inr (x, e) ↦ rw (e, record_hello) (record_expected-le_16 h x seqno)
]

missed_many-le_16 :
    (h : HelloHistory) (count : ℕ) → h.samples ≤ 16 → (missed_many h count).samples ≤ 16
unfolding missed_many append_missed
missed_many-le_16 h count v = elim (Option-cases h.expected_seqno) [
  | inl e ↦ rw (e, missed_many) v
  | inr (x, e) ↦ rw (e, missed_many) (ground arith)
]

pub missed_many-IsValid : (h : HelloHistory) (count : ℕ) → IsValid h → IsValid (missed_many h count)
unfolding missed_many
missed_many-IsValid h count v = elim (Option-cases h.expected_seqno) [
  | inl e ↦ rw (e, missed_many) v
  | inr (x, e) ↦
      let w = append_missed-IsValid h (min count 16) v in
      rw (e, missed_many) (record { at_most_16 = w.at_most_16; fits = w.fits })
]

-- What happens to a history: a Hello arrives, or timers count lost ones.
pub data Observation : Type 0 where
  hello lost : ℕ → Observation

abbrev pub observe : HelloHistory → List Observation → HelloHistory
observe h [] = h
observe h (hello seqno ∷ os) = observe (record_hello h seqno).0 os
observe h (lost count ∷ os) = observe (missed_many h count) os

-- Some Hello of the sequence is exactly sixteen behind the one expected when it arrives.
pub data Overflows : HelloHistory → List Observation → Type 0 where
  overflows_now :
      {h : HelloHistory} {seqno : ℕ} {os : List Observation}
      → IsSixteenBack h seqno
      → Overflows h (hello seqno ∷ os)
  overflows_after_hello :
      {h : HelloHistory} {seqno : ℕ} {os : List Observation}
      → Overflows (record_hello h seqno).0 os
      → Overflows h (hello seqno ∷ os)
  overflows_after_loss :
      {h : HelloHistory} {count : ℕ} {os : List Observation}
      → Overflows (missed_many h count) os
      → Overflows h (lost count ∷ os)

sixteen_back_cases : (h : HelloHistory) (seqno : ℕ) → Dec (IsSixteenBack h seqno)
sixteen_back_cases h seqno = elim (Option-cases h.expected_seqno) [
  | inl e ↦ no (λ b. cc (e, b.awaited))
  | inr (x, e) ↦ elim (ℕ_discrete (wrapping_sub16 x seqno) 16) [
    | yes p ↦ yes (record { expected = x; awaited = e; behind = p })
    | no p ↦ no (λ b. p (cc (e, b.awaited, b.behind)))
  ]
]

observe-le_16 :
    (h : HelloHistory) (os : List Observation) → h.samples ≤ 16 → (observe h os).samples ≤ 16
observe-le_16 h [] v = v
observe-le_16 h (hello seqno ∷ os) v =
    observe-le_16 (record_hello h seqno).0 os (record_hello-le_16 h seqno)
observe-le_16 h (lost count ∷ os) v =
    observe-le_16 (missed_many h count) os (missed_many-le_16 h count v)

observe-IsValid :
    (h : HelloHistory) (os : List Observation) → IsValid h → IsValid (observe h os) ⊎ Overflows h os
observe-IsValid h [] v = inl v
observe-IsValid h (hello seqno ∷ os) v = elim (sixteen_back_cases h seqno) [
  | yes b ↦ inr (overflows_now b)
  | no b ↦ elim (observe-IsValid (record_hello h seqno).0 os (record_hello-IsValid h seqno v b)) [
    | inl w ↦ inl w
    | inr o ↦ inr (overflows_after_hello o)
  ]
]
observe-IsValid h (lost count ∷ os) v =
    elim (observe-IsValid (missed_many h count) os (missed_many-IsValid h count v)) [
      | inl w ↦ inl w
      | inr o ↦ inr (overflows_after_loss o)
    ]

count_masked :
    (h : HelloHistory) (window n : ℕ)
    → received h window ≡ some n
    → count_ones 16 (h.bits % 2 ^ window) ≡ n
unfolding received
count_masked h window n e = ground (arith, bit_and-mask window h.bits, bit_and-mask 16 h.bits)

-- A window counts at most its own positions.
pub received-le-window : (h : HelloHistory) (window n : ℕ) → received h window ≡ some n → n ≤ window
received-le-window h window n e =
    rw (← count_masked h window n e)
      (count_ones-le 16 (h.bits % 2 ^ window) window (mod-lt h.bits (pow-pos window)))

received-le-samples :
    (h : HelloHistory) (window n : ℕ) → IsValid h → received h window ≡ some n → n ≤ h.samples
received-le-samples h window n v e =
    rw (← count_masked h window n e)
      (count_ones-le 16 (h.bits % 2 ^ window) h.samples (grind (arith, v.fits)))

-- After any sequence of received and lost Hellos the history holds at most sixteen samples, the
-- count of a window is at most the window, and it is at most the samples unless some Hello of the
-- sequence came exactly sixteen behind the one expected.
pub observe_bounds :
    (os : List Observation) (window n : ℕ)
    → received (observe empty_history os) window ≡ some n
    → ((observe empty_history os).samples ≤ 16)
      × (n ≤ window)
      × ((n ≤ (observe empty_history os).samples) ⊎ Overflows empty_history os)
observe_bounds os window n e = (
  observe-le_16 empty_history os (omega arith),
  received-le-window _ window n e,
  elim (observe-IsValid empty_history os
      (record { at_most_16 = omega arith; fits = omega arith })) [
        | inl v ↦ inl (received-le-samples _ window n v e)
        | inr o ↦ inr o
      ],
)
