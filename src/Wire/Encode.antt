-- ===== src/Wire/Encode.antt =====
-- crates/babel-protocol/src/wire/encode.rs: the octets that are appended for a TLV, and the context.
use babel_rs.Base.{
  ℕ, Bool, true, false, not, ◌&&◌, ◌||◌, Option, none, some, List, [], ◌∷◌, ◌++◌, ◌==◌,
  if◌then◌else◌, Bytes, any, ◌=?◌, option_eq, bytes_eq,
}
use babel_rs.Base.Map.{is_some}
use babel_rs.Base.Results.{Result, ok, ◌>>=◌, ◌>>◌, guard, ok_or}
use babel_rs.Base.Words.{be_bytes16, be_bytes32}
use babel_rs.Model.{IpNet, IpAddr, is_ipv4, ip_eq, infinity, RouterId, RouteKey}
use babel_rs.Wire.{
  SubTlv, sub_pad1, sub_pad_n, timestamp_hello, timestamp_ihu, source_prefix, sub_unknown,
  OutboundUpdate, OutboundTlv, pad1, pad_n, ack_request, ack, hello, ihu, update, route_request,
  seqno_request, unknown, AddressEncoding, to_u8, WireError, invalid_tlv, missing_router_id,
}
use babel_rs.Wire.Frame.{put_tlv}
use babel_rs.Wire.Prefix.{encode_address, encode_optional_address, prefix_wire_bytes, ae_for_key}

pub record EncodeContext : Type 0 where
  pub router_id : Option RouterId
  pub next_hop_v4 : Option IpAddr
  pub next_hop_v6 : Option IpAddr

abbrev pub fresh_context : EncodeContext
fresh_context = record { router_id = none; next_hop_v4 = none; next_hop_v6 = none }

abbrev pub Encoded : Type 0
Encoded = Result WireError Bytes

abbrev pub require_nonzero : ℕ → ℕ → Result WireError (Unit {0})
require_nonzero value type_ = guard (not (value == 0)) (invalid_tlv type_)

abbrev pub require_zeroes : Bytes → ℕ → Result WireError (Unit {0})
require_zeroes value type_ = guard (not (any (λ b. not (b == 0)) value)) (invalid_tlv type_)

abbrev pub hello_flags : Bool → ℕ
hello_flags unicast = if unicast then 0x8000 else 0

module _ {N : Type 0} where
  unfoldable pub encode_sub_tlv : SubTlv N → Encoded
  encode_sub_tlv (source_prefix n) = ok []
  encode_sub_tlv sub_pad1 = ok (0 ∷ [])
  encode_sub_tlv (sub_pad_n v) = require_zeroes v 1 >> put_tlv 1 v
  encode_sub_tlv (timestamp_hello v) = put_tlv 3 (be_bytes32 v)
  encode_sub_tlv (timestamp_ihu origin received) =
      put_tlv 3 (be_bytes32 origin ++ be_bytes32 received)
  encode_sub_tlv (sub_unknown type_ value) = put_tlv type_ value

  unfoldable pub encode_sub_tlvs : List (SubTlv N) → Encoded
  encode_sub_tlvs [] = ok []
  encode_sub_tlvs (v ∷ vs) = do
    first ← encode_sub_tlv v
    rest ← encode_sub_tlvs vs
    ok (first ++ rest)

unfoldable pub encode_router_id : RouterId → Encoded
encode_router_id id = put_tlv 6 (0 ∷ 0 ∷ id)

unfoldable pub encode_next_hop : IpAddr → Encoded
encode_next_hop address =
    let (ae, bytes) = encode_address address in put_tlv 7 (to_u8 ae ∷ 0 ∷ bytes)

abbrev pub active_next_hop : EncodeContext → Bool → Option IpAddr
active_next_hop context true = context.next_hop_v6
active_next_hop context false = context.next_hop_v4

abbrev pub set_active : EncodeContext → Bool → IpAddr → EncodeContext
set_active context true address = record context { next_hop_v6 = some address }
set_active context false address = record context { next_hop_v4 = some address }

abbrev pub in_context : EncodeContext → Encoded → Result WireError (Bytes × EncodeContext)
in_context context m = m >>= λ bytes. ok (bytes, context)

module _ {N : Type 0} ⦃net : IpNet N⦄ where
  unfoldable pub encode_source_prefix : Option N → AddressEncoding → Encoded
  encode_source_prefix none ae = ok []
  encode_source_prefix (some source) ae =
      put_tlv 128 (net.prefix_len source ∷ prefix_wire_bytes source ae)

  -- The value of an Update with a key.
  unfoldable pub update_value : OutboundUpdate N → RouteKey N → Encoded
  update_value u key =
      let ae = ae_for_key key u.v4_via_v6 in
      encode_source_prefix key.source ae >>= λ source. encode_sub_tlvs u.sub_tlvs >>= λ subs. ok (
        to_u8 ae
        ∷ 0
        ∷ net.prefix_len key.destination
        ∷ 0
        ∷ (be_bytes16 u.interval_cs
            ++ (be_bytes16 u.seqno
                ++ (be_bytes16 u.metric
                    ++ (prefix_wire_bytes key.destination ae ++ (source ++ subs))))))

  unfoldable pub encode_update : OutboundUpdate N → Encoded
  encode_update u = elim u.key [
    | none ↦
        put_tlv 8 (
          0 ∷ 0 ∷ 0 ∷ 0 ∷ (be_bytes16 u.interval_cs ++ (be_bytes16 u.seqno ++ be_bytes16 u.metric)))
    | some key ↦ update_value u key >>= put_tlv 8
  ]

  -- The Router-ID TLV in front of a finite Update with a key, if the context has another.
  unfoldable pub router_id_part :
      OutboundUpdate N → EncodeContext → Result WireError (Bytes × EncodeContext)
  router_id_part u context =
      if is_some u.key && not (u.metric == infinity)
      then (ok_or u.router_id missing_router_id >>= λ id.
          if context.router_id =? some id
          then ok ([], context)
          else (encode_router_id id >>= λ bytes.
              ok (bytes, record context { router_id = some id })))
      else ok ([], context)

  -- The Next-Hop TLV in front of a finite Update with an explicit next hop.
  unfoldable pub next_hop_part :
      OutboundUpdate N → EncodeContext → Result WireError (Bytes × EncodeContext)
  next_hop_part u context = if u.metric == infinity then ok ([], context) else (elim u.next_hop [
    | none ↦ ok ([], context)
    | some address ↦
        let in_v6 = u.v4_via_v6 || not (is_ipv4 address) in
        if active_next_hop context in_v6 =? some address
        then ok ([], context)
        else (encode_next_hop address >>= λ bytes. ok (bytes, set_active context in_v6 address))
  ])

  unfoldable pub encode_outbound_update :
      OutboundUpdate N → EncodeContext → Result WireError (Bytes × EncodeContext)
  encode_outbound_update u context =
      require_nonzero u.interval_cs 8
      >> (router_id_part u context >>= λ with_id. next_hop_part u with_id.1 >>= λ with_hop.
          encode_update u >>= λ bytes. ok (with_id.0 ++ (with_hop.0 ++ bytes), with_hop.1))

  unfoldable pub encode_key_request : Option (RouteKey N) → List (SubTlv N) → Encoded
  encode_key_request none sub_tlvs = encode_sub_tlvs sub_tlvs >>= λ subs. put_tlv 9 (0 ∷ 0 ∷ subs)
  encode_key_request (some key) sub_tlvs =
      let ae = ae_for_key key false in
      encode_source_prefix key.source ae >>= λ source. encode_sub_tlvs sub_tlvs >>= λ subs.
      put_tlv 9 (
        to_u8 ae
        ∷ net.prefix_len key.destination
        ∷ (prefix_wire_bytes key.destination ae ++ (source ++ subs)))

  unfoldable pub encode_seqno_request : RouteKey N → ℕ → ℕ → RouterId → List (SubTlv N) → Encoded
  encode_seqno_request key seqno hop_count router_id sub_tlvs =
      let ae = ae_for_key key false in
      require_nonzero hop_count 10
      >> (encode_source_prefix key.source ae >>= λ source. encode_sub_tlvs sub_tlvs >>= λ subs.
          put_tlv 10 (
            to_u8 ae
            ∷ net.prefix_len key.destination
            ∷ (be_bytes16 seqno
                ++ (hop_count
                    ∷ 0
                    ∷ (router_id ++ (prefix_wire_bytes key.destination ae ++ (source ++ subs)))))))

  unfoldable pub encode_outbound_tlv :
      OutboundTlv N → EncodeContext → Result WireError (Bytes × EncodeContext)
  encode_outbound_tlv pad1 context = ok (0 ∷ [], context)
  encode_outbound_tlv (pad_n value) context =
      in_context context (require_zeroes value 1 >> put_tlv 1 value)
  encode_outbound_tlv (ack_request nonce interval_cs) context = in_context context (
      require_nonzero interval_cs 2
      >> put_tlv 2 (0 ∷ 0 ∷ (be_bytes16 nonce ++ be_bytes16 interval_cs)))
  encode_outbound_tlv (ack nonce) context = in_context context (put_tlv 3 (be_bytes16 nonce))
  encode_outbound_tlv (hello unicast seqno interval_cs sub_tlvs) context = in_context context (
      encode_sub_tlvs sub_tlvs >>= λ subs.
      put_tlv 4 (
        be_bytes16 (hello_flags unicast) ++ (be_bytes16 seqno ++ (be_bytes16 interval_cs ++ subs))))
  encode_outbound_tlv (ihu address rxcost interval_cs sub_tlvs) context =
      let (ae, bytes) = encode_optional_address address in
      in_context context (
        require_nonzero interval_cs 5
        >> (encode_sub_tlvs sub_tlvs >>= λ subs.
            put_tlv 5
              (to_u8 ae ∷ 0 ∷ (be_bytes16 rxcost ++ (be_bytes16 interval_cs ++ (bytes ++ subs))))))
  encode_outbound_tlv (update u) context = encode_outbound_update u context
  encode_outbound_tlv (route_request key sub_tlvs) context =
      in_context context (encode_key_request key sub_tlvs)
  encode_outbound_tlv (seqno_request key seqno hop_count router_id sub_tlvs) context =
      in_context context (encode_seqno_request key seqno hop_count router_id sub_tlvs)
  encode_outbound_tlv (unknown type_ value) context = in_context context (put_tlv type_ value)
