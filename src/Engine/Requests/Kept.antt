-- ===== src/Engine/Requests/Kept.antt =====
-- What `send_updates` of crates/babel-protocol/src/engine/output.rs leaves as it is.
use babel_rs.Base.{
  ℕ, ◌≡◌, refl, Bool, true, false, not, ◌&&◌, Option, none, some, List, [], ◌∷◌, ◌==◌,
  if◌then◌else◌, Bytes, bytes_eq, pair_eq, ◌=?◌, inl, inr, Bool-cases, Option-cases,
}
use babel_rs.Base.Map.{Map, lookup, contains_key}
use babel_rs.Model.{IpNet, net_eq, key_eq, infinity, RouterId, RouteKey}
use babel_rs.Engine.Api.{SendTiming, SelectedRoute}
use babel_rs.Engine.State.{Engine, InterfaceState, neighbor_eq, Originated}
use babel_rs.Engine.Sources.{maintain_source}
use babel_rs.Engine.Output.{advertisement}
use babel_rs.Engine.Updates.{
  Gathered, is_asked, entries_of, announce, announce_origins, announce_selected,
  announce_tombstones, gather, send_gathered, send_on, send_on_all, interfaces_of, send_updates,
}

module _ {N M : Type 0} where
  -- No request is recorded, and the own sequence number stays.
  unfoldable pub Keeps : Engine N M → Engine N M → Type 0
  Keeps e after =
      (after.pending_seqno ≡ e.pending_seqno) × (after.sequence_number ≡ e.sequence_number)

  pub same : (e : Engine N M) → Keeps e e
  unfolding Keeps
  same e = (refl, refl)

  pub Keeps-if :
      (e a b : Engine N M) (test : Bool) → Keeps e a → Keeps e b → Keeps e (if test then a else b)
  Keeps-if e a b true ha hb = ha
  Keeps-if e a b false ha hb = hb

module _ {N M : Type 0} ⦃net : IpNet N⦄ where
  announce-Keeps :
      (start : Engine N M) (interface : Bytes) (key : RouteKey N) (router_id : RouterId)
      (seqno metric now : ℕ) (g : Gathered N M)
      → Keeps start (g.1)
      → Keeps start ((announce interface key router_id seqno metric now g).1)
  unfolding maintain_source Keeps
  announce-Keeps start interface key router_id seqno metric now (tlvs, e) h =
      elim (Bool-cases
        ((advertisement e interface key router_id seqno metric).metric == infinity)) [
          | inl t ↦ rw t h
          | inr f ↦ rw f h
        ]

  announce_origins-Keeps :
      (start : Engine N M) (interface : Bytes) (only : Option (RouteKey N)) (now : ℕ)
      (m : Map (RouteKey N) Originated) (g : Gathered N M)
      → Keeps start (g.1)
      → Keeps start ((announce_origins interface only now m g).1)
  unfolding announce_origins
  announce_origins-Keeps start interface only now [] g h = h
  announce_origins-Keeps start interface only now ((key, origin) ∷ rest) g h =
      announce_origins-Keeps start interface only now rest _
        (elim (Bool-cases (is_asked only key)) [
          | inl t ↦ rw t (
              announce-Keeps start interface key (g.1).config.router_id origin.seqno origin.metric
                now g h)
          | inr f ↦ rw f h
        ])

  announce_selected-Keeps :
      (start : Engine N M) (interface : Bytes) (split_horizon : Bool) (only : Option (RouteKey N))
      (now : ℕ) (m : Map (RouteKey N) (SelectedRoute N)) (g : Gathered N M)
      → Keeps start (g.1)
      → Keeps start ((announce_selected interface split_horizon only now m g).1)
  unfolding announce_selected
  announce_selected-Keeps start interface split_horizon only now [] g h = h
  announce_selected-Keeps start interface split_horizon only now ((key, route) ∷ rest) g h =
      let u = advertisement (g.1) interface route.key route.router_id route.seqno route.metric in
      announce_selected-Keeps start interface split_horizon only now rest _
        (elim (Bool-cases (
          is_asked only route.key
          && not (split_horizon && route.interface =? interface && not (u.metric == infinity)))) [
            | inl t ↦ rw t (
                announce-Keeps start interface route.key route.router_id route.seqno route.metric
                  now g h)
            | inr f ↦ rw f h
          ])

  announce_tombstones-Keeps :
      (start : Engine N M) (interface : Bytes) (only : Option (RouteKey N)) (m : Map (RouteKey N) ℕ)
      (g : Gathered N M)
      → Keeps start (g.1)
      → Keeps start ((announce_tombstones interface only m g).1)
  unfolding announce_tombstones
  announce_tombstones-Keeps start interface only [] g h = h
  announce_tombstones-Keeps start interface only ((key, until) ∷ rest) (tlvs, e) h =
      announce_tombstones-Keeps start interface only rest _
        (elim (Bool-cases (
          not (contains_key key e.originated)
          && not (contains_key key e.selected)
          && is_asked only key)) [ inl t ↦ rw t h | inr f ↦ rw f h ])

  send_gathered-Keeps :
      (start : Engine N M) (interface : Bytes) (state : InterfaceState M)
      (only : Option (RouteKey N)) (now : ℕ) (timing : Option SendTiming) (g : Gathered N M)
      → Keeps start (g.1)
      → Keeps start ((send_gathered interface state only now timing g).1)
  unfolding Keeps
  send_gathered-Keeps start interface state only now timing ([], e) h = h
  send_gathered-Keeps start interface state none now timing (t ∷ tlvs, e) h = h
  send_gathered-Keeps start interface state (some key) now timing (t ∷ tlvs, e) h = h

  send_on-Keeps :
      (start : Engine N M) (from : Engine N M) (interface : Bytes) (only : Option (RouteKey N))
      (now : ℕ) (timing : Option SendTiming) (e : Engine N M)
      → Keeps start e
      → Keeps start ((send_on from interface only now timing e).1)
  unfolding send_on
  send_on-Keeps start from interface only now timing e h =
      elim (Option-cases (lookup interface e.interfaces)) [
        | inl none_there ↦ rw (send_on, none_there) h
        | inr (state, found) ↦
            rw (send_on, found)
              (send_gathered-Keeps start interface state only now timing
                (gather from e interface state only now)
                (announce_tombstones-Keeps start interface only (entries_of only from.tombstones) _
                  (announce_selected-Keeps start interface state.policy.split_horizon only now
                    (entries_of only from.selected) _
                    (announce_origins-Keeps start interface only now
                      (entries_of only from.originated) ([], e) h))))
      ]

  send_on_all-Keeps :
      (start from : Engine N M) (names : List Bytes) (only : Option (RouteKey N)) (now : ℕ)
      (timing : Option SendTiming) (e : Engine N M)
      → Keeps start e
      → Keeps start ((send_on_all from names only now timing e).1)
  unfolding send_on_all
  send_on_all-Keeps start from [] only now timing e h = h
  send_on_all-Keeps start from (interface ∷ rest) only now timing e h =
      send_on_all-Keeps start from rest only now timing _
        (send_on-Keeps start from interface only now timing e h)

  pub send_updates-Keeps :
      (e : Engine N M) (now : ℕ) (only : Option (RouteKey N)) (interface : Option Bytes)
      (timing : Option SendTiming)
      → Keeps e ((send_updates e now only interface timing).1)
  unfolding send_updates Keeps
  send_updates-Keeps e now only interface timing =
      send_on_all-Keeps e e (interfaces_of interface e.interfaces) only now timing e (refl, refl)
