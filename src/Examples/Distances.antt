-- ===== src/Examples/Distances.antt =====
-- Sequence numbers and distances.
use babel_rs.Base.{ℕ, ◌≡◌, ◌≢◌, ◌⊎◌, refl, true, false, arith}
use babel_rs.Base.Words.{wrapping_sub16, wrapping_add16}
use babel_rs.Model.{Distance, seqno_gt, feasible_against}
use babel_rs.Model.Seqno.{
  seqno_gt_trichotomy, seqno_gt-wrapping_add, feasible_against_asymmetric,
  feasible_against_transitive,
}

wraps : seqno_gt 0 65535 ≡ true
unfolding seqno_gt
wraps = refl

seqno_gt_trichotomy_example :
    ((◌≡◌ {A = ℕ} 0 65535) × (seqno_gt 0 65535 ≡ false) × (seqno_gt 65535 0 ≡ false))
    ⊎ ((◌≢◌ {A = ℕ} 0 65535) × (seqno_gt 0 65535 ≡ true) × (seqno_gt 65535 0 ≡ false))
    ⊎ ((◌≢◌ {A = ℕ} 0 65535) × (seqno_gt 0 65535 ≡ false) × (seqno_gt 65535 0 ≡ true))
    ⊎ ((wrapping_sub16 0 65535 ≡ 0x8000) × (seqno_gt 0 65535 ≡ false) × (seqno_gt 65535 0 ≡ false))
seqno_gt_trichotomy_example = seqno_gt_trichotomy 0 65535 (omega arith) (omega arith)

seqno_gt-wrapping_add_example :
    (seqno_gt (wrapping_add16 65530 10) 65530 ≡ true)
    × (seqno_gt 65530 (wrapping_add16 65530 10) ≡ false)
seqno_gt-wrapping_add_example =
    seqno_gt-wrapping_add 65530 10 (omega arith) (omega arith) (omega arith)

abbrev old : Distance
old = record { seqno = 65535; metric = 100 }

abbrev lower : Distance
lower = record { seqno = 65535; metric = 99 }

abbrev newer : Distance
newer = record { seqno = 0; metric = 500 }

lower_feasible : feasible_against lower old ≡ true
unfolding feasible_against seqno_gt
lower_feasible = refl

newer_feasible : feasible_against newer lower ≡ true
unfolding feasible_against seqno_gt
newer_feasible = refl

feasible_against_asymmetric_example :
    (feasible_against old lower ≡ false) × (feasible_against lower lower ≡ false)
feasible_against_asymmetric_example =
    feasible_against_asymmetric lower old (omega arith) (omega arith) lower_feasible

feasible_against_transitive_example : feasible_against newer old ≡ true
feasible_against_transitive_example =
    feasible_against_transitive newer lower old (omega arith) (omega arith) (omega arith)
      (omega arith) newer_feasible lower_feasible
