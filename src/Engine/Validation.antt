-- ===== src/Engine/Validation.antt =====
-- crates/babel-protocol/src/validation.rs: constraints on configuration and on local routes. An
-- error's field name is its text; the validation of events is not here.
pub mod Exact
use babel_rs.Base.{
  ℕ, Bool, not, Option, some, List, [], ◌∷◌, ltb, ◌==◌, if◌then◌else◌, Bytes, ◌=?◌, option_eq,
}
use babel_rs.Base.Results.{Result, ok, err, ◌>>=◌, ◌>>◌}
use babel_rs.Base.Map.{Map}
use babel_rs.Model.{IpNet, net_eq, key_eq, infinity, RouteKey, route_key_new}
use babel_rs.Engine.Api.{RouteSelectionConfig, InterfacePolicy, EngineConfig}

pub data IntervalField : Type 0 where
  hello_field update_field : IntervalField

pub data ConfigError : Type 0 where
  switch_margin_percent_error switch_margin_metric_error : ConfigError
  zero_interval : IntervalField → ConfigError
  invalid_route_key invalid_origin_metric : ConfigError

abbrev pub Check : Type 0
Check = Result ConfigError (Unit {0})

-- `RouteSelectionConfig::validate`.
unfoldable pub validate_selection : RouteSelectionConfig → Check
validate_selection c =
    if ltb 100 c.switch_margin_percent
    then err switch_margin_percent_error
    else if c.switch_margin_metric == infinity
    then err switch_margin_metric_error
    else ok tt

-- `validate_intervals`.
unfoldable pub validate_intervals : ℕ → ℕ → Check
validate_intervals hello_interval_cs update_interval_cs =
    if hello_interval_cs == 0
    then err (zero_interval hello_field)
    else if update_interval_cs == 0
    then err (zero_interval update_field)
    else ok tt

-- `InterfacePolicy::validate`.
unfoldable pub validate_policy : {M : Type 0} → InterfacePolicy M → Check
validate_policy p = validate_intervals p.hello_interval_cs p.update_interval_cs

-- `EngineConfig::validate`.
unfoldable pub validate_config : {N M : Type 0} → EngineConfig N M → Check
validate_config c =
    validate_selection c.route_selection
    >> validate_intervals c.hello_interval_cs c.update_interval_cs

module _ {N : Type 0} ⦃net : IpNet N⦄ where
  -- `RouteKey::validate`.
  unfoldable pub validate_key : RouteKey N → Check
  validate_key key =
      if not (route_key_new key.destination key.source =? some key)
      then err invalid_route_key
      else ok tt

  -- `RouteKey::validate_origin`.
  unfoldable pub validate_origin : RouteKey N → ℕ → Check
  validate_origin key metric =
      validate_key key >> (if metric == infinity then err invalid_origin_metric else ok tt)

  -- The loop over the origins that replace the local routes.
  unfoldable pub validate_origins : Map (RouteKey N) ℕ → Check
  validate_origins [] = ok tt
  validate_origins ((key, metric) ∷ rest) = validate_origin key metric >> validate_origins rest
