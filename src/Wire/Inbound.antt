-- ===== src/Wire/Inbound.antt =====
-- crates/babel-protocol/src/wire.rs: the TLVs that are decoded.
use babel_rs.Base.{ℕ, Bool, Option, List, Bytes}
use babel_rs.Model.{IpAddr, RouterId, RouteKey}
use babel_rs.Wire.{SubTlv, ResolvedUpdate}

pub data Tlv (N : Type 0) : Type 0 where
  pad1 : Tlv N
  pad_n : Bytes → Tlv N
  ack_request : (nonce interval_cs : ℕ) → Tlv N
  ack : (nonce : ℕ) → Tlv N
  hello : (unicast : Bool) (seqno interval_cs : ℕ) (sub_tlvs : List (SubTlv N)) → Tlv N
  ihu : (address : Option IpAddr) (rxcost interval_cs : ℕ) (sub_tlvs : List (SubTlv N)) → Tlv N
  router_id : RouterId → Tlv N
  next_hop : IpAddr → Tlv N
  update : ResolvedUpdate N → Tlv N
  route_request : (key : Option (RouteKey N)) (sub_tlvs : List (SubTlv N)) → Tlv N
  seqno_request :
      (key : RouteKey N) (seqno hop_count : ℕ) (router_id : RouterId) (sub_tlvs : List (SubTlv N))
      → Tlv N
  unknown : (type_ : ℕ) (value : Bytes) → Tlv N

-- `Packet`, by its TLVs.
pub record Packet (N : Type 0) : Type 0 where
  pub tlvs : List (Tlv N)
