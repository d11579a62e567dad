-- ===== src/Engine/Updates.antt =====
-- `send_updates` of crates/babel-protocol/src/engine/output.rs. The engine is passed along, since an
-- Update that is announced tightens the distance of its source.
use babel_rs.Base.{
  ℕ, Bool, true, not, ◌&&◌, Option, none, some, List, [], ◌∷◌, ◌++◌, ◌==◌, if◌then◌else◌, Bytes,
  bytes_eq, ◌=?◌, map,
}
use babel_rs.Base.Map.{Map, lookup, insert, contains_key}
use babel_rs.Model.{IpNet, net_eq, key_eq, infinity, RouterId, RouteKey}
use babel_rs.Wire.{OutboundTlv, update}
use babel_rs.Engine.Api.{Action, send, SendTiming, triggered, multicast, SelectedRoute}
use babel_rs.Engine.State.{Engine, InterfaceState, Originated}
use babel_rs.Engine.Sources.{maintain_source}
use babel_rs.Engine.Output.{advertisement}

-- The TLVs that are gathered for an interface, and the engine.
abbrev pub Gathered : Type 0 → Type 0 → Type 0
Gathered N M = List (OutboundTlv N) × Engine N M

module _ {N : Type 0} ⦃net : IpNet N⦄ where
  abbrev pub is_asked : Option (RouteKey N) → RouteKey N → Bool
  is_asked none key = true
  is_asked (some wanted) key = wanted =? key

  -- The entries of the key that is asked for, or all of them.
  abbrev pub entries_of {ℓ} :
      {V : Type ℓ} → Option (RouteKey N) → Map (RouteKey N) V → Map (RouteKey N) V
  entries_of none m = m
  entries_of (some key) m = elim (lookup key m) [ none ↦ [] | some v ↦ (key, v) ∷ [] ]

abbrev pub timing_or : Option SendTiming → SendTiming → SendTiming
timing_or none t = t
timing_or (some t) u = t

abbrev pub interfaces_of : {M : Type 0} → Option Bytes → Map Bytes (InterfaceState M) → List Bytes
interfaces_of none m = map (λ x. x.0) m
interfaces_of (some interface) m = interface ∷ []

module _ {N M : Type 0} ⦃net : IpNet N⦄ where
  -- A finite Update is recorded as the distance of its source.
  abbrev pub announce : Bytes → RouteKey N → RouterId → ℕ → ℕ → ℕ → Gathered N M → Gathered N M
  announce interface key router_id seqno metric now (tlvs, e) =
      let u = advertisement e interface key router_id seqno metric in
      (
        tlvs ++ (update u ∷ []),
        if u.metric == infinity
            then e
            else maintain_source e key router_id (record { seqno = seqno; metric = metric }) now,
      )

  unfoldable pub announce_origins :
      Bytes → Option (RouteKey N) → ℕ → Map (RouteKey N) Originated → Gathered N M → Gathered N M
  announce_origins interface only now [] g = g
  announce_origins interface only now ((key, origin) ∷ rest) g =
      let next =
        if is_asked only key
        then announce interface key (g.1).config.router_id origin.seqno origin.metric now g
        else g in
      announce_origins interface only now rest next

  -- A route over the interface itself is left out under split horizon, unless it is retracted.
  abbrev pub announce_route :
      Bytes → Bool → Option (RouteKey N) → ℕ → SelectedRoute N → Gathered N M → Gathered N M
  announce_route interface split_horizon only now route g =
      let u = advertisement (g.1) interface route.key route.router_id route.seqno route.metric in
      if is_asked only route.key
        && not (split_horizon && route.interface =? interface && not (u.metric == infinity))
      then announce interface route.key route.router_id route.seqno route.metric now g
      else g

  unfoldable pub announce_selected :
      Bytes
      → Bool
      → Option (RouteKey N)
      → ℕ
      → Map (RouteKey N) (SelectedRoute N)
      → Gathered N M
      → Gathered N M
  announce_selected interface split_horizon only now [] g = g
  announce_selected interface split_horizon only now ((key, route) ∷ rest) g =
      announce_selected interface split_horizon only now rest
        (announce_route interface split_horizon only now route g)

  unfoldable pub announce_tombstones :
      Bytes → Option (RouteKey N) → Map (RouteKey N) ℕ → Gathered N M → Gathered N M
  announce_tombstones interface only [] g = g
  announce_tombstones interface only ((key, until) ∷ rest) (tlvs, e) =
      let u = advertisement e interface key e.config.router_id e.sequence_number infinity in
      let wanted =
        not (contains_key key e.originated)
        && not (contains_key key e.selected)
        && is_asked only key in
      announce_tombstones interface only rest
        (if wanted then (tlvs ++ (update u ∷ []), e) else (tlvs, e))

  -- What is sent on an interface; the keys and routes are those of the engine at the start.
  abbrev pub gather :
      Engine N M → Engine N M → Bytes → InterfaceState M → Option (RouteKey N) → ℕ → Gathered N M
  gather start e interface state only now =
      announce_tombstones interface only (entries_of only start.tombstones) (
        announce_selected interface state.policy.split_horizon only now
          (entries_of only start.selected)
          (announce_origins interface only now (entries_of only start.originated) ([], e)))

  -- A full update is remembered, if there is something to send.
  abbrev pub mark_full :
      Bytes → InterfaceState M → Option (RouteKey N) → ℕ → Engine N M → Engine N M
  mark_full interface state (some key) now e = e
  mark_full interface state none now e = record e {
    interfaces = insert interface (record state { last_full_update_ms = some now }) e.interfaces;
  }

  abbrev pub send_gathered :
      Bytes
      → InterfaceState M
      → Option (RouteKey N)
      → ℕ
      → Option SendTiming
      → Gathered N M
      → List (Action N) × Engine N M
  send_gathered interface state only now timing ([], e) = ([], e)
  send_gathered interface state only now timing (t ∷ tlvs, e) = (
    send interface (multicast state.policy.control_transport) (record { tlvs = t ∷ tlvs })
          (timing_or timing (triggered now state.policy.hello_interval_cs))
        ∷ [],
    mark_full interface state only now e,
  )

  -- An interface that does not exist is passed over.
  unfoldable pub send_on :
      Engine N M
      → Bytes
      → Option (RouteKey N)
      → ℕ
      → Option SendTiming
      → Engine N M
      → List (Action N) × Engine N M
  send_on start interface only now timing e = elim (lookup interface e.interfaces) [
    | none ↦ ([], e)
    | some state ↦
        send_gathered interface state only now timing (gather start e interface state only now)
  ]

  unfoldable pub send_on_all :
      Engine N M
      → List Bytes
      → Option (RouteKey N)
      → ℕ
      → Option SendTiming
      → Engine N M
      → List (Action N) × Engine N M
  send_on_all start [] only now timing e = ([], e)
  send_on_all start (interface ∷ rest) only now timing e =
      let (first, after) = send_on start interface only now timing e in
      let (more, last) = send_on_all start rest only now timing after in (first ++ more, last)

  -- `Engine::send_updates`.
  unfoldable pub send_updates :
      Engine N M
      → ℕ
      → Option (RouteKey N)
      → Option Bytes
      → Option SendTiming
      → List (Action N) × Engine N M
  send_updates e now only interface timing =
      send_on_all e (interfaces_of interface e.interfaces) only now timing e
