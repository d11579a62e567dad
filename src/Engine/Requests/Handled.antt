-- ===== src/Engine/Requests/Handled.antt =====
-- What a sequence number request changes.
use babel_rs.Base.{pair_eq}
use babel_rs.Base.Map.{Map}
use babel_rs.Model.{net_eq, key_eq}
use babel_rs.Engine.State.{Engine}
use babel_rs.Engine.Requests.Outcome.{Outcome}
