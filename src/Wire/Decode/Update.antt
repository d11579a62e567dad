-- ===== src/Wire/Decode/Update.antt =====
-- `decode_update` of crates/babel-protocol/src/wire/decode.rs: prefix compression and the context.
use babel_rs.Base.{
  ℕ, ◌+◌, ◌-◌, Bool, false, not, ◌&&◌, ◌||◌, Option, none, some, [], ltb, ◌==◌, if◌then◌else◌,
  Bytes, length, take, drop, bit_and,
}
use babel_rs.Base.Map.{Map, lookup, insert, is_some}
use babel_rs.Base.Results.{Result, ok, err, ◌>>=◌}
use babel_rs.Model.{
  IpNet, IpAddr, v4, v6, is_ipv4, infinity, RouterId, router_id_new, RouteKey, route_key_new,
}
use babel_rs.Wire.{
  AddressEncoding, wildcard, ipv6_link_local, ipv4_via_ipv6, ae_beq, ae_eq, from_u8, address_len,
  is_wildcard, WireError, invalid_tlv,
}
use babel_rs.Wire.Inbound.{Tlv, update}
use babel_rs.Wire.Frame.{octet, be16}
use babel_rs.Wire.Prefix.{
  pad_to, prefix_encoded_len, decode_prefix, prefix_wire_bytes, router_id_from_prefix,
}
use babel_rs.Wire.Decode.SubTlvs.{in_prefix, DecodedSubTlvs, decode_sub_tlvs}

pub record ParserState : Type 0 where
  pub router_id : Option RouterId
  pub prefixes : Map AddressEncoding Bytes
  pub next_hop_v4 : Option IpAddr
  pub next_hop_v6 : Option IpAddr

abbrev pub parser_new : IpAddr → ParserState
parser_new (v4 a) = record {
  router_id = none;
  prefixes = [];
  next_hop_v4 = some (v4 a);
  next_hop_v6 = none;
}
parser_new (v6 a) = record {
  router_id = none;
  prefixes = [];
  next_hop_v4 = none;
  next_hop_v6 = some (v6 a);
}

-- What decoding a TLV gives: the TLV, if it is not ignored, and the context behind it.
abbrev pub Decoded : Type 0 → Type 0
Decoded N = Result WireError (Option (Tlv N) × ParserState)

module _ {N : Type 0} where
  abbrev pub ignored : ParserState → Decoded N
  ignored state = ok (none, state)

  abbrev pub invalid : ℕ → Decoded N
  invalid type_ = err (invalid_tlv type_)

abbrev pub context_next_hop : AddressEncoding → Bool → ParserState → Option IpAddr
context_next_hop ae is_v4 state =
    if ae_beq ae ipv4_via_ipv6
    then state.next_hop_v6
    else if is_v4
    then state.next_hop_v4
    else state.next_hop_v6

module _ {N : Type 0} ⦃net : IpNet N⦄ where
  -- The Update whose key and sub-TLVs are known, in the context behind it.
  unfoldable pub resolve_update :
      AddressEncoding → Bytes → N → RouteKey N → DecodedSubTlvs N → ParserState → Decoded N
  resolve_update ae value prefix key sub state =
      let metric = be16 value 8 in
      let resolved : Option RouterId → Option IpAddr → Decoded N = λ router_id next_hop. ok (
        some (
            update (record {
              key = some key;
              router_id = router_id;
              next_hop = next_hop;
              interval_cs = be16 value 4;
              seqno = be16 value 6;
              metric = metric;
              v4_via_v6 = ae_beq ae ipv4_via_ipv6;
              sub_tlvs = sub.values;
            })),
        state,
      ) in
      if metric == infinity then resolved state.router_id none else (elim state.router_id [
        | none ↦ ignored state
        | some id ↦ elim (context_next_hop ae (is_ipv4 (net.addr prefix)) state) [
          | none ↦ ignored state
          | some next_hop ↦ resolved (some id) (some next_hop)
        ]
      ])

  -- The flags of an Update: its prefix becomes the default one, or its source the router id.
  unfoldable pub apply_flags : AddressEncoding → ℕ → N → ParserState → ParserState
  apply_flags ae flags prefix state =
      let defaulted = if bit_and flags 0x80 == 0 then state else record state {
        prefixes = insert ae (pad_to (address_len ae) (prefix_wire_bytes prefix ae)) state.prefixes;
      } in
      if bit_and flags 0x40 == 0
      then defaulted
      else record defaulted { router_id = router_id_new (router_id_from_prefix prefix) }

  unfoldable pub finish_update : AddressEncoding → Bytes → ℕ → N → ParserState → Decoded N
  finish_update ae value natural prefix state =
      let after = apply_flags ae (octet value 1) prefix state in
      decode_sub_tlvs (drop natural value) (in_prefix ae) (some prefix) >>= λ sub.
      if sub.mandatory_unknown
      then ignored after
      else (elim (route_key_new prefix sub.source_prefix) [
        | none ↦ invalid 8
        | some key ↦ resolve_update ae value prefix key sub after
      ])

  -- A retraction of everything.
  unfoldable pub wildcard_update : Bytes → ParserState → Decoded N
  wildcard_update value state =
      if not (be16 value 8 == infinity)
      then ignored state
      else if not (octet value 2 == 0) || not (octet value 3 == 0)
      then ignored state
      else (decode_sub_tlvs {N = N} (drop 10 value) (in_prefix wildcard) none >>= λ sub.
          if sub.mandatory_unknown || is_some sub.source_prefix
          then ignored state
          else ok (
            some (
                update (record {
                  key = none;
                  router_id = none;
                  next_hop = none;
                  interval_cs = be16 value 4;
                  seqno = be16 value 6;
                  metric = be16 value 8;
                  v4_via_v6 = false;
                  sub_tlvs = sub.values;
                })),
            state,
          ))

  unfoldable pub prefix_update : AddressEncoding → Bytes → ParserState → Decoded N
  prefix_update ae value state =
      let plen = octet value 2 in
      let omitted = octet value 3 in
      if ae_beq ae ipv6_link_local && not (omitted == 0)
      then ignored state
      else (elim (prefix_encoded_len ae plen) [
        | none ↦ invalid 8
        | some encoded_len ↦
            if ltb encoded_len omitted || ltb (length value) (10 + encoded_len - omitted)
            then invalid 8
            else (elim (decode_prefix ae plen omitted (take (encoded_len - omitted) (drop 10 value))
                (lookup ae state.prefixes)) [
                  | none ↦ ignored state
                  | some prefix ↦ finish_update ae value (10 + encoded_len - omitted) prefix state
                ])
      ])

  unfoldable pub decode_update : Bytes → ParserState → Decoded N
  decode_update value state =
      if ltb (length value) 10 then invalid 8 else (elim (from_u8 (octet value 0)) [
        | none ↦ ignored state
        | some ae ↦
            if be16 value 4 == 0
            then invalid 8
            else if is_wildcard ae
            then wildcard_update value state
            else prefix_update ae value state
      ])
