-- ===== src/Wire/Packetizer/Faults.antt =====
-- The errors of encoding, crates/babel-protocol/src/wire/encode.rs and packetizer.rs.
use babel_rs.Base.{ℕ, Bool, true, false, Option, none, some, List, [], ◌∷◌, Bytes}
use babel_rs.Base.Results.{guard, ok_or}
use babel_rs.Model.{IpNet, RouteKey, RouterId}
use babel_rs.Wire.{
  OutboundTlv, OutboundUpdate, SubTlv, sub_pad1, sub_pad_n, timestamp_hello, timestamp_ihu,
  source_prefix, sub_unknown, pad1, pad_n, ack_request, ack, hello, ihu, update, route_request,
  seqno_request, unknown, AddressEncoding, WireError, invalid_tlv, short_header, bad_magic,
  unsupported_version, truncated_body, truncated_tlv, body_too_large, missing_router_id,
  packet_budget_too_small, packet_split_required, out_of_fuel,
}
use babel_rs.Wire.Frame.{put_tlv}
use babel_rs.Wire.Faults.{FaultsIn, fine, fault, FaultsIn->>=, FaultsIn-if, FaultsIn-option}
use babel_rs.Wire.Encode.{
  EncodeContext, encode_sub_tlv, encode_sub_tlvs, encode_source_prefix, update_value, encode_update,
  encode_router_id, encode_next_hop, router_id_part, next_hop_part, encode_outbound_update,
  encode_key_request, encode_seqno_request, encode_outbound_tlv,
}
use babel_rs.Wire.Packetizer.{
  Packing, finish_packet, close_body, encode_group, encode_within, break_before, place_group,
}

-- The errors of encoding.
abbrev pub IsEncodeFault : WireError → Type 0
IsEncodeFault body_too_large = Unit
IsEncodeFault missing_router_id = Unit
IsEncodeFault packet_budget_too_small = Unit
IsEncodeFault (invalid_tlv t) = Unit
IsEncodeFault (truncated_tlv t) = ⊥
IsEncodeFault (unsupported_version v) = ⊥
IsEncodeFault short_header = ⊥
IsEncodeFault bad_magic = ⊥
IsEncodeFault truncated_body = ⊥
IsEncodeFault packet_split_required = ⊥
IsEncodeFault out_of_fuel = ⊥

put_tlv-FaultsIn : (t : ℕ) (value : Bytes) → FaultsIn IsEncodeFault (put_tlv t value)
unfolding put_tlv
put_tlv-FaultsIn t value = search (fine, fault, FaultsIn-if)

guard-FaultsIn : (b : Bool) (e : WireError) → IsEncodeFault e → FaultsIn IsEncodeFault (guard b e)
guard-FaultsIn true e h = fine tt
guard-FaultsIn false e h = fault e h

ok_or-FaultsIn : (o : Option RouterId) → FaultsIn IsEncodeFault (ok_or o missing_router_id)
ok_or-FaultsIn none = fault missing_router_id tt
ok_or-FaultsIn (some id) = fine id

pub finish_packet-FaultsIn : (body : Bytes) → FaultsIn IsEncodeFault (finish_packet body)
unfolding finish_packet
finish_packet-FaultsIn body = search (fine, fault, FaultsIn-if)

ruleset encoders = (fine, fault, FaultsIn-if, FaultsIn->>=, put_tlv-FaultsIn, guard-FaultsIn)

module _ {N : Type 0} where
  encode_sub_tlv-FaultsIn : (v : SubTlv N) → FaultsIn IsEncodeFault (encode_sub_tlv v)
  unfolding encode_sub_tlv
  encode_sub_tlv-FaultsIn (source_prefix n) = fine []
  encode_sub_tlv-FaultsIn sub_pad1 = fine _
  encode_sub_tlv-FaultsIn (sub_pad_n v) = search encoders
  encode_sub_tlv-FaultsIn (timestamp_hello v) = put_tlv-FaultsIn 3 _
  encode_sub_tlv-FaultsIn (timestamp_ihu o r) = put_tlv-FaultsIn 3 _
  encode_sub_tlv-FaultsIn (sub_unknown t v) = put_tlv-FaultsIn t v

  encode_sub_tlvs-FaultsIn : (vs : List (SubTlv N)) → FaultsIn IsEncodeFault (encode_sub_tlvs vs)
  unfolding encode_sub_tlvs
  encode_sub_tlvs-FaultsIn [] = fine []
  encode_sub_tlvs-FaultsIn (v ∷ vs) =
      search (encoders, encode_sub_tlv-FaultsIn v, encode_sub_tlvs-FaultsIn vs)

module _ {N : Type 0} ⦃net : IpNet N⦄ where
  encode_source_prefix-FaultsIn :
      (o : Option N) (ae : AddressEncoding) → FaultsIn IsEncodeFault (encode_source_prefix o ae)
  unfolding encode_source_prefix
  encode_source_prefix-FaultsIn none ae = fine []
  encode_source_prefix-FaultsIn (some n) ae = put_tlv-FaultsIn 128 _

  encode_update-FaultsIn : (u : OutboundUpdate N) → FaultsIn IsEncodeFault (encode_update u)
  unfolding encode_update update_value
  encode_update-FaultsIn u =
      FaultsIn-option u.key _ _ (put_tlv-FaultsIn 8 _)
        (λ key. search (encoders, encode_source_prefix-FaultsIn, encode_sub_tlvs-FaultsIn))

  router_id_part-FaultsIn :
      (u : OutboundUpdate N) (context : EncodeContext)
      → FaultsIn IsEncodeFault (router_id_part u context)
  unfolding router_id_part encode_router_id
  router_id_part-FaultsIn u context = search (encoders, ok_or-FaultsIn)

  next_hop_part-FaultsIn :
      (u : OutboundUpdate N) (context : EncodeContext)
      → FaultsIn IsEncodeFault (next_hop_part u context)
  unfolding next_hop_part encode_next_hop
  next_hop_part-FaultsIn u context =
      FaultsIn-if _ _ _ (fine _)
        (FaultsIn-option u.next_hop _ _ (fine _) (λ address. search encoders))

  encode_outbound_update-FaultsIn :
      (u : OutboundUpdate N) (context : EncodeContext)
      → FaultsIn IsEncodeFault (encode_outbound_update u context)
  unfolding encode_outbound_update
  encode_outbound_update-FaultsIn u context =
      search (encoders, router_id_part-FaultsIn, next_hop_part-FaultsIn, encode_update-FaultsIn)
        depth 8

  encode_key_request-FaultsIn :
      (key : Option (RouteKey N)) (subs : List (SubTlv N))
      → FaultsIn IsEncodeFault (encode_key_request key subs)
  unfolding encode_key_request
  encode_key_request-FaultsIn none subs = search (encoders, encode_sub_tlvs-FaultsIn)
  encode_key_request-FaultsIn (some key) subs =
      search (encoders, encode_source_prefix-FaultsIn, encode_sub_tlvs-FaultsIn)

  encode_seqno_request-FaultsIn :
      (key : RouteKey N) (seqno hop_count : ℕ) (router_id : RouterId) (subs : List (SubTlv N))
      → FaultsIn IsEncodeFault (encode_seqno_request key seqno hop_count router_id subs)
  unfolding encode_seqno_request
  encode_seqno_request-FaultsIn key seqno hop_count router_id subs =
      search (encoders, encode_source_prefix-FaultsIn, encode_sub_tlvs-FaultsIn)

  encode_outbound_tlv-FaultsIn :
      (t : OutboundTlv N) (context : EncodeContext)
      → FaultsIn IsEncodeFault (encode_outbound_tlv t context)
  unfolding encode_outbound_tlv
  encode_outbound_tlv-FaultsIn pad1 context = fine _
  encode_outbound_tlv-FaultsIn (pad_n v) context = search encoders
  encode_outbound_tlv-FaultsIn (ack_request n i) context = search encoders
  encode_outbound_tlv-FaultsIn (ack n) context = search encoders
  encode_outbound_tlv-FaultsIn (hello u s i subs) context =
      search (encoders, encode_sub_tlvs-FaultsIn)
  encode_outbound_tlv-FaultsIn (ihu a r i subs) context =
      search (encoders, encode_sub_tlvs-FaultsIn)
  encode_outbound_tlv-FaultsIn (update u) context = encode_outbound_update-FaultsIn u context
  encode_outbound_tlv-FaultsIn (route_request k subs) context =
      search (encoders, encode_key_request-FaultsIn)
  encode_outbound_tlv-FaultsIn (seqno_request k s h r subs) context =
      search (encoders, encode_seqno_request-FaultsIn)
  encode_outbound_tlv-FaultsIn (unknown t v) context = search encoders

  encode_group-FaultsIn :
      (ts : List (OutboundTlv N)) (context : EncodeContext)
      → FaultsIn IsEncodeFault (encode_group ts context)
  unfolding encode_group
  encode_group-FaultsIn [] context = fine _
  encode_group-FaultsIn (t ∷ ts) context =
      FaultsIn->>= _ _ (encode_outbound_tlv-FaultsIn t context)
        (λ first. FaultsIn->>= _ _ (encode_group-FaultsIn ts (first.1)) (λ rest. fine _))

  encode_within-FaultsIn :
      (budget : ℕ) (ts : List (OutboundTlv N)) (context : EncodeContext)
      → FaultsIn IsEncodeFault (encode_within budget ts context)
  unfolding encode_within
  encode_within-FaultsIn budget ts context = search (encoders, encode_group-FaultsIn)

  pub break_before-FaultsIn :
      (t : OutboundTlv N) (p : Packing) → FaultsIn IsEncodeFault (break_before t p)
  unfolding break_before close_body
  break_before-FaultsIn t p = search (encoders, finish_packet-FaultsIn)

  pub place_group-FaultsIn :
      (budget : ℕ) (t : OutboundTlv N) (group : List (OutboundTlv N)) (p : Packing)
      → FaultsIn IsEncodeFault (place_group budget t group p)
  unfolding place_group close_body
  place_group-FaultsIn budget t group p =
      search (encoders, finish_packet-FaultsIn, encode_within-FaultsIn) depth 9
