-- ===== src/Engine/Validation/Exact.antt =====
-- Validation accepts exactly what is meant.
use babel_rs.Base.{
  ℕ, ◌≤◌, ◌≡◌, ◌≢◌, ◌↔◌, inl, inr, [], ◌∷◌, arith, ◌=?◌, option_eq, some, All, Bool-cases,
}
use babel_rs.Base.Results.{ok}
use babel_rs.Base.Map.{Map}
use babel_rs.Model.{IpNet, key_eq, infinity, RouteKey, route_key_new}
use babel_rs.Engine.Api.{EngineConfig}
use babel_rs.Engine.Validation.{
  validate_selection, validate_intervals, validate_config, validate_key, validate_origin,
  validate_origins,
}

-- A configuration is accepted exactly if the percentage margin is at most 100, the absolute margin
-- is finite and neither interval is 0.
pub validate_config_iff :
    {N M : Type 0} (c : EngineConfig N M)
    → (validate_config c ≡ ok tt) ↔ (
        (c.route_selection.switch_margin_percent ≤ 100)
        × (c.route_selection.switch_margin_metric ≢ infinity)
        × (c.hello_interval_cs ≢ 0)
        × (c.update_interval_cs ≢ 0))
unfolding validate_config validate_selection validate_intervals
validate_config_iff c = ground arith

module _ {N : Type 0} ⦃net : IpNet N⦄ where
  -- A local route is accepted exactly if its key is the one of its own prefixes and its metric finite.
  validate_origin_iff :
      (key : RouteKey N) (metric : ℕ)
      → (validate_origin key metric ≡ ok tt)
        ↔ ((route_key_new key.destination key.source ≡ some key) × (metric ≢ infinity))
  unfolding validate_origin validate_key
  validate_origin_iff key metric =
      let laws = option_eq.beq_iff (route_key_new key.destination key.source) (some key) in
      elim (Bool-cases (route_key_new key.destination key.source =? some key)) [
        | inl h ↦ ground (arith, h, laws)
        | inr h ↦ ground (arith, h, laws)
      ]

  -- A set of local routes is accepted exactly if each key is the one that `RouteKey::new` makes of
  -- its own prefixes, and each metric is finite.
  pub validate_origins_iff :
      (origins : Map (RouteKey N) ℕ)
      → (validate_origins origins ≡ ok tt)
        ↔ All
            (λ p. (route_key_new p.0.destination p.0.source ≡ some p.0) × (p.1 ≢ infinity))
            origins
  unfolding validate_origins
  validate_origins_iff [] = ground arith
  validate_origins_iff ((key, metric) ∷ rest) =
      ground (arith, validate_origin_iff key metric, validate_origins_iff rest)
