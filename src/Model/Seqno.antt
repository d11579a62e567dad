-- ===== src/Model/Seqno.antt =====
-- The order on sequence numbers and on distances (crates/babel-protocol/src/model.rs).
use babel_rs.Base.{ℕ, ◌<◌, ◌≡◌, ◌≢◌, ◌⊎◌, true, false, arith}
use babel_rs.Base.Words.{u16_mod, wrapping_sub16, wrapping_add16}
use babel_rs.Model.{seqno_gt, feasible_against, Distance}

-- Of two different 16-bit sequence numbers exactly one is newer, unless they are half the sequence
-- space apart, when neither is; no number is newer than itself.
pub seqno_gt_trichotomy :
    (a b : ℕ)
    → a < u16_mod
    → b < u16_mod
    → ((a ≡ b) × (seqno_gt a b ≡ false) × (seqno_gt b a ≡ false))
      ⊎ ((a ≢ b) × (seqno_gt a b ≡ true) × (seqno_gt b a ≡ false))
      ⊎ ((a ≢ b) × (seqno_gt a b ≡ false) × (seqno_gt b a ≡ true))
      ⊎ ((wrapping_sub16 a b ≡ 0x8000) × (seqno_gt a b ≡ false) × (seqno_gt b a ≡ false))
unfolding seqno_gt
seqno_gt_trichotomy a b ha hb = ground arith

-- Adding less than half the sequence space gives a newer number, across the wrap too.
pub seqno_gt-wrapping_add :
    (a k : ℕ)
    → a < u16_mod
    → 0 < k
    → k < 0x8000
    → (seqno_gt (wrapping_add16 a k) a ≡ true) × (seqno_gt a (wrapping_add16 a k) ≡ false)
unfolding seqno_gt
seqno_gt-wrapping_add a k ha pos hk = ground arith

-- A distance that is feasible against another makes that other infeasible against it, and no
-- distance is feasible against itself.
pub feasible_against_asymmetric :
    (d e : Distance)
    → d.seqno < u16_mod
    → e.seqno < u16_mod
    → feasible_against d e ≡ true
    → (feasible_against e d ≡ false) × (feasible_against d d ≡ false)
unfolding feasible_against seqno_gt
feasible_against_asymmetric d e hd he h = ground arith

-- Feasibility composes while the first distance is newer than the last or as new.
pub feasible_against_transitive :
    (d e f : Distance)
    → d.seqno < u16_mod
    → e.seqno < u16_mod
    → f.seqno < u16_mod
    → wrapping_sub16 d.seqno f.seqno < 0x8000
    → feasible_against d e ≡ true
    → feasible_against e f ≡ true
    → feasible_against d f ≡ true
unfolding feasible_against seqno_gt
feasible_against_transitive d e f hd he hf near p q = ground arith
