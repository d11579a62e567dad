-- ===== src/Engine/Rib/Hysteresis.antt =====
-- Hysteresis in the selection of a route.
use babel_rs.Base.{ℕ, ◌-◌, ◌*◌, ◌<◌, ◌≤◌, ◌≡◌, ◌↔◌, true, arith}
use babel_rs.Engine.Api.{RouteSelectionConfig}
use babel_rs.Engine.Rib.{metric_improvement_is_significant}
use native.Mathlib.Nat.{mul-le-mul_right}

-- For a metric of 16 bits and a margin of at most a hundred percent, an improvement is significant
-- exactly if it is one, it is at least the absolute margin, and it is at least that percentage of
-- the worse metric, without rounding.
pub metric_improvement_iff :
    (better worse : ℕ) (policy : RouteSelectionConfig)
    → worse ≤ 0xffff
    → policy.switch_margin_percent ≤ 100
    → (metric_improvement_is_significant better worse policy ≡ true) ↔ (
        (better < worse)
        × (policy.switch_margin_metric ≤ worse - better)
        × (worse * policy.switch_margin_percent ≤ (worse - better) * 100))
unfolding metric_improvement_is_significant
metric_improvement_iff better worse policy hw hp =
    ground (arith, mul-le-mul_right policy.switch_margin_percent hw)
