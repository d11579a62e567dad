-- ===== src/Wire.antt =====
-- crates/babel-protocol/src/wire.rs: the semantic content of packets.
pub mod Prefix
pub mod Frame
pub mod Framing
pub mod Faults
pub mod Inbound
pub mod Decode
pub mod Encode
pub mod Packetizer
use babel_rs.Base.{
  ℕ, ◌+◌, Bool, true, Option, none, some, List, Bytes, ◌==◌, if◌then◌else◌, Eq, ◌↔◌, ◌≡◌, refl, ap,
  arith,
}
use babel_rs.Model.{IpAddr, RouterId, RouteKey}

pub data SubTlv (N : Type 0) : Type 0 where
  sub_pad1 : SubTlv N
  sub_pad_n : Bytes → SubTlv N
  timestamp_hello : ℕ → SubTlv N
  timestamp_ihu : (origin received : ℕ) → SubTlv N
  source_prefix : N → SubTlv N
  sub_unknown : (type_ : ℕ) (value : Bytes) → SubTlv N

pub record ResolvedUpdate (N : Type 0) : Type 0 where
  pub key : Option (RouteKey N)
  pub router_id : Option RouterId
  pub next_hop : Option IpAddr
  pub interval_cs : ℕ
  pub seqno : ℕ
  pub metric : ℕ
  pub v4_via_v6 : Bool
  pub sub_tlvs : List (SubTlv N)

pub record OutboundUpdate (N : Type 0) : Type 0 where
  pub key : Option (RouteKey N)
  pub router_id : Option RouterId
  pub next_hop : Option IpAddr
  pub interval_cs : ℕ
  pub seqno : ℕ
  pub metric : ℕ
  pub v4_via_v6 : Bool
  pub sub_tlvs : List (SubTlv N)

pub data OutboundTlv (N : Type 0) : Type 0 where
  pad1 : OutboundTlv N
  pad_n : Bytes → OutboundTlv N
  ack_request : (nonce interval_cs : ℕ) → OutboundTlv N
  ack : (nonce : ℕ) → OutboundTlv N
  hello : (unicast : Bool) (seqno interval_cs : ℕ) (sub_tlvs : List (SubTlv N)) → OutboundTlv N
  ihu :
      (address : Option IpAddr) (rxcost interval_cs : ℕ) (sub_tlvs : List (SubTlv N))
      → OutboundTlv N
  update : OutboundUpdate N → OutboundTlv N
  route_request : (key : Option (RouteKey N)) (sub_tlvs : List (SubTlv N)) → OutboundTlv N
  seqno_request :
      (key : RouteKey N) (seqno hop_count : ℕ) (router_id : RouterId) (sub_tlvs : List (SubTlv N))
      → OutboundTlv N
  unknown : (type_ : ℕ) (value : Bytes) → OutboundTlv N

-- `OutboundPacket`, by its TLVs.
pub record OutboundPacket (N : Type 0) : Type 0 where
  pub tlvs : List (OutboundTlv N)

-- Errors of the wire; `out_of_fuel` is none of the source's: a loop of the model had too few rounds.
pub data WireError : Type 0 where
  short_header bad_magic truncated_body : WireError
  unsupported_version truncated_tlv invalid_tlv : ℕ → WireError
  body_too_large missing_router_id packet_budget_too_small packet_split_required : WireError
  out_of_fuel : WireError

pub data AddressEncoding : Type 0 where
  wildcard ipv4 ipv6 ipv6_link_local ipv4_via_ipv6 : AddressEncoding

-- `ae as u8`, and `AddressEncoding::from_u8`.
abbrev pub to_u8 : AddressEncoding → ℕ
to_u8 wildcard = 0
to_u8 ipv4 = 1
to_u8 ipv6 = 2
to_u8 ipv6_link_local = 3
to_u8 ipv4_via_ipv6 = 4

unfoldable pub from_u8 : ℕ → Option AddressEncoding
from_u8 value =
    if value == 0
    then some wildcard
    else if value == 1
    then some ipv4
    else if value == 2
    then some ipv6
    else if value == 3
    then some ipv6_link_local
    else if value == 4
    then some ipv4_via_ipv6
    else none

abbrev pub address_len : AddressEncoding → ℕ
address_len wildcard = 0
address_len ipv4 = 4
address_len ipv6 = 16
address_len ipv6_link_local = 8
address_len ipv4_via_ipv6 = 4

abbrev pub max_prefix_bits : AddressEncoding → ℕ
max_prefix_bits wildcard = 0
max_prefix_bits ipv4 = 32
max_prefix_bits ipv6 = 128
max_prefix_bits ipv6_link_local = 128
max_prefix_bits ipv4_via_ipv6 = 32

abbrev pub max_packet_size : ℕ
max_packet_size = 0xffff + 4

abbrev pub ae_beq : AddressEncoding → AddressEncoding → Bool
ae_beq a b = to_u8 a == to_u8 b

from_u8-to_u8 : (a : AddressEncoding) → from_u8 (to_u8 a) ≡ some a
unfolding from_u8
from_u8-to_u8 wildcard = refl
from_u8-to_u8 ipv4 = refl
from_u8-to_u8 ipv6 = refl
from_u8-to_u8 ipv6_link_local = refl
from_u8-to_u8 ipv4_via_ipv6 = refl

pub ae_beq_iff : (a b : AddressEncoding) → (ae_beq a b ≡ true) ↔ (a ≡ b)
ae_beq_iff a b =
    ground (arith, from_u8-to_u8 a, from_u8-to_u8 b, λ (h : to_u8 a ≡ to_u8 b). ap from_u8 h)

instance abbrev pub ae_eq : Eq AddressEncoding
ae_eq = record { beq = ae_beq; beq_iff = ae_beq_iff }

abbrev pub is_wildcard : AddressEncoding → Bool
is_wildcard a = ae_beq a wildcard
