-- ===== src/Engine/Output/Announced.antt =====
-- What an advertisement carries.
use babel_rs.Base.{
  ℕ, ◌≡◌, true, false, none, some, arith, inl, inr, ◌⊎◌, Option-cases, Bytes, bytes_eq, ◌=?◌,
}
use babel_rs.Base.Map.{lookup}
use babel_rs.Model.{IpNet, v4, is_ipv4, infinity, RouterId, RouteKey}
use babel_rs.Engine.State.{Engine}
use babel_rs.Engine.Output.{advertisement, unavailable, denied, advertised_next_hop, link_of}

module _ {N M : Type 0} ⦃net : IpNet N⦄ where
  -- An advertisement is a retraction without a next hop; or it has the route's metric, the policy
  -- announces the route, and the next hop is one that the destination allows: the destination is
  -- not IPv4; or the next hop is an IPv4 address; or the Update has the encoding of an IPv4 route
  -- via IPv6, which the configuration permits.
  pub advertisement_cases :
      (e : Engine N M) (interface : Bytes) (key : RouteKey N) (router_id : RouterId)
      (seqno metric : ℕ)
      → let a = advertisement e interface key router_id seqno metric in
        ((a.metric ≡ infinity) × (a.next_hop ≡ none) × (a.v4_via_v6 ≡ false))
        ⊎ ((a.metric ≡ metric)
            × (e.config.route_policy.announce (record {
              key = key;
              interface = interface;
              router_id = router_id;
              locally_originated = router_id =? e.config.router_id;
            })
                ≡ true)
            × (((is_ipv4 (net.addr key.destination) ≡ false) × (a.v4_via_v6 ≡ false))
                ⊎ ((address : Bytes) × (a.next_hop ≡ some (v4 address)) × (a.v4_via_v6 ≡ false))
                ⊎ ((a.v4_via_v6 ≡ true) × (e.config.ipv4_via_ipv6 ≡ true))))
  unfolding advertisement unavailable denied advertised_next_hop
  advertisement_cases e interface key router_id seqno metric =
      let link = link_of (lookup interface e.interfaces) in
      elim (Option-cases link.ipv4) [
        | inl h ↦ ground (arith, h)
        | inr (address, h) ↦ ground (arith, h)
      ]
