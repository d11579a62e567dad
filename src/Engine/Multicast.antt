-- ===== src/Engine/Multicast.antt =====
-- What crates/babel-protocol/src/engine/output.rs sends on every interface for one route, and when a
-- full update may be requested.
use babel_rs.Base.{
  ℕ, ◌-◌, ◌*◌, ◌≡◌, refl, Bool, true, false, not, ◌&&◌, Option, none, some, List, [], ◌∷◌, leb,
  ◌==◌, if◌then◌else◌, Bytes, bytes_eq, option_eq, ◌=?◌, Bool-cases, inl, inr, arith,
}
use mathlib.Core.List.{Memᴰ}
use babel_rs.Base.Map.{Map, lookup}
use babel_rs.Model.{IpNet, infinity, RouteKey}
use babel_rs.Wire.{update}
use babel_rs.Engine.Api.{Action, send, urgent, multicast, SelectedRoute}
use babel_rs.Engine.State.{Engine, InterfaceState}
use babel_rs.Engine.Output.{advertisement}

abbrev pub hello_interval_or : {M : Type 0} → ℕ → Option (InterfaceState M) → ℕ
hello_interval_or default none = default
hello_interval_or default (some state) = state.policy.hello_interval_cs

abbrev pub last_full_update : {M : Type 0} → Option (InterfaceState M) → Option ℕ
last_full_update none = none
last_full_update (some state) = state.last_full_update_ms

finite_is_split :
    (split same : Bool) (metric : ℕ)
    → (split && same && not (metric == infinity)) ≡ false
    → split ≡ true
    → same ≡ true
    → metric ≡ infinity
finite_is_split split same metric h s t = ground arith

module _ {N M : Type 0} ⦃net : IpNet N⦄ where
  -- `Engine::interface_hello_interval`.
  abbrev pub interface_hello_interval : Engine N M → Bytes → ℕ
  interface_hello_interval e interface =
      hello_interval_or e.config.hello_interval_cs (lookup interface e.interfaces)

  -- `Engine::full_update_request_allowed`.
  unfoldable pub full_update_request_allowed : Engine N M → Bytes → ℕ → Bool
  full_update_request_allowed e interface now =
      elim (last_full_update (lookup interface e.interfaces)) [
        | none ↦ true
        | some last ↦ leb (interface_hello_interval e interface * 10) (now - last)
      ]

  abbrev pub retraction_on : Engine N M → RouteKey N → ℕ → ℕ → Bytes × InterfaceState M → Action N
  retraction_on e key seqno now (interface, state) =
      send interface (multicast state.policy.control_transport)
        (record {
          tlvs =
              update (record {
                key = some key;
                router_id = some e.config.router_id;
                next_hop = none;
                interval_cs = state.policy.update_interval_cs;
                seqno = seqno;
                metric = infinity;
                v4_via_v6 = false;
                sub_tlvs = [];
              })
              ∷ [];
        })
        (urgent now)

  abbrev retract_on :
      Engine N M → RouteKey N → ℕ → ℕ → Map Bytes (InterfaceState M) → List (Action N)
  retract_on e key seqno now [] = []
  retract_on e key seqno now (entry ∷ rest) =
      retraction_on e key seqno now entry ∷ retract_on e key seqno now rest

  -- `Engine::send_retraction`.
  unfoldable pub send_retraction : Engine N M → RouteKey N → ℕ → ℕ → List (Action N)
  send_retraction e key seqno now = retract_on e key seqno now e.interfaces

  -- A route announced on one interface.
  abbrev pub announced_on :
      Engine N M → SelectedRoute N → ℕ → ℕ → Bytes × InterfaceState M → Action N
  announced_on e route metric now (interface, state) =
      send interface (multicast state.policy.control_transport)
        (record {
          tlvs =
              update (advertisement e interface route.key route.router_id route.seqno metric) ∷ [];
        })
        (urgent now)

  -- Split horizon keeps a finite Update from the interface that the route was learned on.
  abbrev pub is_split :
      Engine N M → SelectedRoute N → ℕ → Option Bytes → Bytes × InterfaceState M → Bool
  is_split e route metric learned (interface, state) =
      state.policy.split_horizon
      && learned =? some interface
      && not (
          (advertisement e interface route.key route.router_id route.seqno metric).metric
          == infinity)

  unfoldable pub advertise_on :
      Engine N M
      → SelectedRoute N
      → ℕ
      → Option Bytes
      → ℕ
      → Map Bytes (InterfaceState M)
      → List (Action N)
  advertise_on e route metric learned now [] = []
  advertise_on e route metric learned now (entry ∷ rest) =
      let others = advertise_on e route metric learned now rest in
      if is_split e route metric learned entry
      then others
      else announced_on e route metric now entry ∷ others

  -- `Engine::advertise_learned`, over the entries of the map of interfaces.
  unfoldable pub advertise_learned :
      Engine N M → SelectedRoute N → ℕ → Option Bytes → ℕ → List (Action N)
  advertise_learned e route metric learned now =
      advertise_on e route metric learned now e.interfaces

  -- Where an action comes from: an entry of the map that split horizon does not keep it from.
  AnnouncedFrom :
      Engine N M
      → SelectedRoute N
      → ℕ
      → Option Bytes
      → ℕ
      → Map Bytes (InterfaceState M)
      → Action N
      → Type 0
  AnnouncedFrom e route metric learned now m a =
      (entry : Bytes × InterfaceState M) × Memᴰ entry m
      × (a ≡ announced_on e route metric now entry)
      × (is_split e route metric learned entry ≡ false)

  advertise_on-AnnouncedFrom :
      (e : Engine N M) (route : SelectedRoute N) (metric : ℕ) (learned : Option Bytes) (now : ℕ)
      (m : Map Bytes (InterfaceState M)) (a : Action N)
      → Memᴰ a (advertise_on e route metric learned now m)
      → AnnouncedFrom e route metric learned now m a
  unfolding advertise_on AnnouncedFrom
  advertise_on-AnnouncedFrom e route metric learned now [] a h = elim h [ ]
  advertise_on-AnnouncedFrom e route metric learned now (entry ∷ rest) a h =
      elim (Bool-cases (is_split e route metric learned entry)) [
        | inl kept ↦ behind (
            advertise_on-AnnouncedFrom e route metric learned now rest a
              (rw (advertise_on, kept) at h))
        | inr sent ↦
            split_first sent (rw (advertise_on, sent) at h)
              (λ later. advertise_on-AnnouncedFrom e route metric learned now rest a later)
      ]
    where
      behind :
          AnnouncedFrom e route metric learned now rest a
          → AnnouncedFrom e route metric learned now (entry ∷ rest) a
      behind (x, there, same, open_) = (x, Memᴰ.tail there, same, open_)

      split_first :
          is_split e route metric learned entry ≡ false
          → Memᴰ a
              (announced_on e route metric now entry ∷ advertise_on e route metric learned now rest)
          → (Memᴰ a (advertise_on e route metric learned now rest)
              → AnnouncedFrom e route metric learned now rest a)
          → AnnouncedFrom e route metric learned now (entry ∷ rest) a
      split_first sent (Memᴰ.head same) ih = (entry, Memᴰ.head refl, same, sent)
      split_first sent (Memᴰ.tail later) ih = behind (ih later)

  -- Every action by which a learned route is advertised is a multicast of its advertisement on one of
  -- the interfaces, and if that interface has split horizon and is the one the route was learned on,
  -- the advertisement is a retraction.
  pub advertise_learned_split_horizon :
      (e : Engine N M) (route : SelectedRoute N) (metric : ℕ) (learned : Option Bytes) (now : ℕ)
      (a : Action N)
      → Memᴰ a (advertise_learned e route metric learned now)
      → (entry : Bytes × InterfaceState M) × Memᴰ entry e.interfaces
        × (a ≡ announced_on e route metric now entry)
        × ((entry.1).policy.split_horizon ≡ true
            → learned ≡ some (entry.0)
            → (advertisement e (entry.0) route.key route.router_id route.seqno metric).metric
              ≡ infinity)
  unfolding advertise_learned AnnouncedFrom
  advertise_learned_split_horizon e route metric learned now a h =
      let ((interface, state), there, same, clear) =
        advertise_on-AnnouncedFrom e route metric learned now e.interfaces a h in
      (
        (interface, state),
        there,
        same,
        λ split here.
            finite_is_split state.policy.split_horizon (learned =? some interface) _ clear split
              (((option_eq ⦃e = bytes_eq⦄).beq_iff learned (some interface)).1 here),
      )
