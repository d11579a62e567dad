-- ===== src/Examples/Announcements.antt =====
-- A retraction that is multicast on the interface its route was learned on.
use babel_rs.Base.{ℕ, ◌≡◌, refl, Bytes, none, some, [], ◌∷◌, true, bytes_eq, option_eq}
use mathlib.Core.List.{Memᴰ}
use babel_rs.Base.Map.{lookup}
use babel_rs.Model.{infinity}
use babel_rs.Engine.Api.{Action, transport_ipv6, auto, SelectedRoute, ipv4_address}
use babel_rs.Engine.State.{Engine, InterfaceState}
use babel_rs.Engine.Output.{advertisement, unavailable, denied}
use babel_rs.Engine.Multicast.{
  advertise_learned, advertise_on, announced_on, advertise_learned_split_horizon,
}
use babel_rs.Examples.Prefixes.{Prefix, prefix_net, network_key}
use babel_rs.Examples.Engines.{other_id, peer, router, router_config}

abbrev link : InterfaceState ℕ
link = record {
  local_addresses = [];
  policy = record {
    control_transport = transport_ipv6;
    ipv4_next_hop = auto;
    metric = router_config.metric;
    hello_interval_cs = 400;
    update_interval_cs = 1600;
    split_horizon = true;
  };
  hello_seqno = 0;
  next_hello_ms = 0;
  next_update_ms = 0;
  last_full_update_ms = none;
}

abbrev linked : Engine Prefix ℕ
linked = record router { interfaces = (peer.interface, link) ∷ [] }

abbrev learned_route : SelectedRoute Prefix
learned_route = record {
  key = network_key;
  router_id = other_id;
  seqno = 5;
  metric = 136;
  next_hop = peer.address;
  interface = peer.interface;
}

abbrev retracted : Action Prefix
retracted = announced_on linked learned_route infinity 1_000 (peer.interface, link)

-- A finite metric is kept back, and infinity is not.
held_back : advertise_learned linked learned_route 136 (some peer.interface) 1_000 ≡ []
unfolding advertise_learned advertise_on advertisement unavailable denied lookup ipv4_address
held_back = refl

retraction_sent :
    Memᴰ retracted (advertise_learned linked learned_route infinity (some peer.interface) 1_000)
unfolding advertise_learned advertise_on advertisement unavailable denied lookup ipv4_address
retraction_sent = Memᴰ.head refl

advertise_learned_split_horizon_example :
    (entry : Bytes × InterfaceState ℕ) × Memᴰ entry linked.interfaces
    × (retracted ≡ announced_on linked learned_route infinity 1_000 entry)
    × ((entry.1).policy.split_horizon ≡ true
        → some peer.interface ≡ some (entry.0)
        → (advertisement linked (entry.0) network_key other_id 5 infinity).metric ≡ infinity)
advertise_learned_split_horizon_example =
    advertise_learned_split_horizon linked learned_route infinity (some peer.interface) 1_000
      retracted retraction_sent
