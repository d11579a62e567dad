-- ===== src/Engine/Output.antt =====
-- crates/babel-protocol/src/engine/output.rs: advertisements, and replies to one neighbor.
pub mod Announced
use babel_rs.Base.{
  ℕ, Bool, true, false, not, ◌&&◌, ◌||◌, Option, none, some, List, [], ◌∷◌, ltb, leb, ◌==◌,
  if◌then◌else◌, Bytes, bytes_eq, pair_eq, ◌=?◌,
}
use babel_rs.Base.Map.{lookup, is_some}
use babel_rs.Model.{IpNet, net_eq, key_eq, IpAddr, v4, v6, is_ipv4, infinity, RouterId, RouteKey}
use babel_rs.Wire.Prefix.{is_link_local}
use babel_rs.Wire.{OutboundUpdate, update}
use babel_rs.Engine.Api.{
  Action, send, urgent, Ipv4NextHop, auto, only_ipv4, only_ipv6, ControlTransport, transport_ipv6,
  is_transport_ipv4, ipv4_address,
}
use babel_rs.Engine.State.{Engine, InterfaceState, NeighborKey}
use babel_rs.Engine.Sources.{maintain_source}

abbrev pub link_local_v6 : List IpAddr → Option Bytes
link_local_v6 [] = none
link_local_v6 (v4 a ∷ rest) = link_local_v6 rest
link_local_v6 (v6 a ∷ rest) = if is_link_local a then some a else link_local_v6 rest

abbrev pub as_v4 : Option Bytes → Option IpAddr
as_v4 none = none
as_v4 (some a) = some (v4 a)

abbrev pub as_v6 : Option Bytes → Option IpAddr
as_v6 none = none
as_v6 (some a) = some (v6 a)

abbrev pub is_only_ipv4 : Ipv4NextHop → Bool
is_only_ipv4 auto = false
is_only_ipv4 only_ipv4 = true
is_only_ipv4 only_ipv6 = false

-- What an advertisement reads of its interface.
pub record Link : Type 0 where
  pub next_hop : Ipv4NextHop
  pub transport : ControlTransport
  pub ipv4 : Option Bytes
  pub ipv6 : Option Bytes

abbrev pub link_of : {M : Type 0} → Option (InterfaceState M) → Link
link_of none = record { next_hop = auto; transport = transport_ipv6; ipv4 = none; ipv6 = none }
link_of (some s) = record {
  next_hop = s.policy.ipv4_next_hop;
  transport = s.policy.control_transport;
  ipv4 = ipv4_address s.policy.ipv4_next_hop s.local_addresses;
  ipv6 = link_local_v6 s.local_addresses;
}

module _ {N : Type 0} ⦃net : IpNet N⦄ where
  unfoldable pub advertised_next_hop : Link → RouteKey N → ℕ → Option IpAddr
  advertised_next_hop link key metric =
      if metric == infinity
      then none
      else if is_ipv4 (net.addr key.destination) && is_some link.ipv4
      then as_v4 link.ipv4
      else if is_transport_ipv4 link.transport
      then as_v6 link.ipv6
      else none

abbrev pub interval_or : {M : Type 0} → ℕ → Option (InterfaceState M) → ℕ
interval_or default none = default
interval_or default (some s) = s.policy.update_interval_cs

module _ {N M : Type 0} ⦃net : IpNet N⦄ where
  -- `Engine::interface_update_interval`.
  unfoldable pub interface_update_interval : Engine N M → Bytes → ℕ
  interface_update_interval e interface =
      interval_or e.config.update_interval_cs (lookup interface e.interfaces)

  -- The interface has no next hop for the destination's family.
  unfoldable pub unavailable : Engine N M → Link → RouteKey N → Bool
  unavailable e link key =
      let is_v4 = is_ipv4 (net.addr key.destination) in
      let no_ipv4 = not (is_some link.ipv4) in
      (is_v4 && no_ipv4 && not e.config.ipv4_via_ipv6)
      || (is_v4 && is_only_ipv4 link.next_hop && no_ipv4)
      || (is_transport_ipv4 link.transport && (not is_v4 || no_ipv4) && not (is_some link.ipv6))

  unfoldable pub denied : Engine N M → Bytes → RouteKey N → RouterId → ℕ → Bool
  denied e interface key router_id metric =
      not (metric == infinity)
      && not (
          e.config.route_policy.announce (record {
            key = key;
            interface = interface;
            router_id = router_id;
            locally_originated = router_id =? e.config.router_id;
          }))

  -- `Engine::advertisement`.
  unfoldable pub advertisement :
      Engine N M → Bytes → RouteKey N → RouterId → ℕ → ℕ → OutboundUpdate N
  advertisement e interface key router_id seqno metric =
      let link = link_of (lookup interface e.interfaces) in
      let announced =
        if unavailable e link key || denied e interface key router_id metric
        then infinity
        else metric in
      record {
        key = some key;
        router_id = some router_id;
        next_hop = advertised_next_hop link key announced;
        interval_cs = interface_update_interval e interface;
        seqno = seqno;
        metric = announced;
        v4_via_v6 =
            is_ipv4 (net.addr key.destination)
            && not (announced == infinity)
            && not (is_some link.ipv4);
        sub_tlvs = [];
      }

  -- `Engine::update_action_to_candidate`: what is advertised is recorded as its source's distance.
  unfoldable pub update_action_to_candidate :
      Engine N M → RouteKey N → RouterId → ℕ → ℕ → NeighborKey → ℕ → Action N × Engine N M
  update_action_to_candidate e key router_id seqno metric destination now =
      let announced = advertisement e destination.interface key router_id seqno metric in
      (
        send destination.interface destination.address (record { tlvs = update announced ∷ [] })
            (urgent now),
        if announced.metric == infinity
            then e
            else maintain_source e key router_id
                (record { seqno = seqno; metric = announced.metric }) now,
      )

  -- `Engine::retraction_action`.
  unfoldable pub retraction_action : Engine N M → RouteKey N → ℕ → NeighborKey → ℕ → Action N
  retraction_action e key seqno destination now =
      send destination.interface destination.address
        (record {
          tlvs =
              update (record {
                key = some key;
                router_id = none;
                next_hop = none;
                interval_cs = interface_update_interval e destination.interface;
                seqno = seqno;
                metric = infinity;
                v4_via_v6 = false;
                sub_tlvs = [];
              })
              ∷ [];
        })
        (urgent now)

  -- The originated or else the selected route, by router id, sequence number and metric.
  abbrev pub own_route : Engine N M → RouteKey N → Option (RouterId × ℕ × ℕ)
  own_route e key = elim (lookup key e.originated) [
    | some origin ↦ some (e.config.router_id, origin.seqno, origin.metric)
    | none ↦ elim (lookup key e.selected) [
      | some route ↦ some (route.router_id, route.seqno, route.metric)
      | none ↦ none
    ]
  ]

  -- `Engine::reply_to_route_request`.
  unfoldable pub reply_to_route_request :
      Engine N M → RouteKey N → NeighborKey → ℕ → Action N × Engine N M
  reply_to_route_request e key destination now = elim (own_route e key) [
    | some (router_id, seqno, metric) ↦
        update_action_to_candidate e key router_id seqno metric destination now
    | none ↦ (retraction_action e key e.sequence_number destination now, e)
  ]
