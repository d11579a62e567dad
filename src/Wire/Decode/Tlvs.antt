-- ===== src/Wire/Decode/Tlvs.antt =====
-- `decode_tlv` and `decode_packet` of crates/babel-protocol/src/wire/decode.rs.
use babel_rs.Base.{
  ℕ, zero, suc, ◌+◌, Bool, not, ◌||◌, Option, none, some, List, [], ◌∷◌, ◌++◌, ltb, ◌==◌,
  if◌then◌else◌, Bytes, length, take, drop, bit_and,
}
use babel_rs.Base.Map.{is_some}
use babel_rs.Base.Results.{Result, ok, err, ◌>>=◌}
use babel_rs.Base.Words.{from_be16}
use babel_rs.Model.{IpNet, IpAddr, is_ipv4, router_id_new, route_key_new}
use babel_rs.Wire.{
  AddressEncoding, wildcard, ipv4_via_ipv6, ae_beq, from_u8, address_len, is_wildcard, WireError,
  short_header, bad_magic, unsupported_version, truncated_body, truncated_tlv, out_of_fuel,
}
use babel_rs.Wire.Inbound.{
  Tlv, Packet, pad1, pad_n, ack_request, ack, hello, ihu, router_id, next_hop, route_request,
  seqno_request, unknown,
}
use babel_rs.Wire.Frame.{done, pad, cut, element, next_frame, octet, be16}
use babel_rs.Wire.Prefix.{decode_address, prefix_encoded_len, decode_prefix}
use babel_rs.Wire.Decode.SubTlvs.{
  in_hello, in_ihu, in_prefix, decode_sub_tlvs, has_unknown_mandatory,
}
use babel_rs.Wire.Decode.Update.{ParserState, parser_new, Decoded, ignored, invalid, decode_update}

module _ {N : Type 0} where
  -- The TLV, unless a mandatory sub-TLV is not known.
  abbrev pub unless_mandatory : ParserState → Tlv N → Bool → Decoded N
  unless_mandatory state tlv unknown_mandatory =
      if unknown_mandatory then ignored state else ok (some tlv, state)

  abbrev pub push_some : List (Tlv N) → Option (Tlv N) → List (Tlv N)
  push_some tlvs none = tlvs
  push_some tlvs (some tlv) = tlvs ++ (tlv ∷ [])

abbrev pub set_next_hop : IpAddr → ParserState → ParserState
set_next_hop address state =
    if is_ipv4 address
    then record state { next_hop_v4 = some address }
    else record state { next_hop_v6 = some address }

module _ {N : Type 0} ⦃net : IpNet N⦄ where
  unfoldable pub decode_ack_request : Bytes → ParserState → Decoded N
  decode_ack_request value state =
      if ltb (length value) 6 || be16 value 4 == 0
      then invalid 2
      else (has_unknown_mandatory N (drop 6 value)
          >>= unless_mandatory state (ack_request (be16 value 2) (be16 value 4)))

  unfoldable pub decode_ack : Bytes → ParserState → Decoded N
  decode_ack value state =
      if ltb (length value) 2
      then invalid 3
      else (has_unknown_mandatory N (drop 2 value) >>= unless_mandatory state (ack (be16 value 0)))

  unfoldable pub decode_hello : Bytes → ParserState → Decoded N
  decode_hello value state =
      if ltb (length value) 6
      then invalid 4
      else (decode_sub_tlvs {N = N} (drop 6 value) in_hello none >>= λ sub.
          unless_mandatory state
            (hello (not (bit_and (be16 value 0) 0x8000 == 0)) (be16 value 2) (be16 value 4)
              sub.values)
            sub.mandatory_unknown)

  -- An IHU whose address is known, or absent.
  unfoldable pub finish_ihu : Bytes → ℕ → Option IpAddr → ParserState → Decoded N
  finish_ihu value addr_len address state =
      decode_sub_tlvs {N = N} (drop (6 + addr_len) value) in_ihu none >>= λ sub.
      unless_mandatory state (ihu address (be16 value 2) (be16 value 4) sub.values)
        sub.mandatory_unknown

  unfoldable pub decode_ihu : Bytes → ParserState → Decoded N
  decode_ihu value state =
      if ltb (length value) 6 then invalid 5 else (elim (from_u8 (octet value 0)) [
        | none ↦ ignored state
        | some ae ↦
            if ae_beq ae ipv4_via_ipv6
            then ignored state
            else if ltb (length value) (6 + address_len ae) || be16 value 4 == 0
            then invalid 5
            else if is_wildcard ae
            then finish_ihu value (address_len ae) none state
            else (elim (decode_address ae (take (address_len ae) (drop 6 value))) [
              | none ↦ invalid 5
              | some address ↦ finish_ihu value (address_len ae) (some address) state
            ])
      ])

  unfoldable pub decode_router_id : Bytes → ParserState → Decoded N
  decode_router_id value state =
      if ltb (length value) 10 then invalid 6 else (elim (router_id_new (take 8 (drop 2 value))) [
        | none ↦ invalid 6
        | some id ↦
            has_unknown_mandatory N (drop 10 value)
            >>= unless_mandatory (record state { router_id = some id }) (router_id id)
      ])

  unfoldable pub decode_next_hop : Bytes → ParserState → Decoded N
  decode_next_hop value state =
      if ltb (length value) 2 then invalid 7 else (elim (from_u8 (octet value 0)) [
        | none ↦ ignored state
        | some ae ↦
            if is_wildcard ae || ae_beq ae ipv4_via_ipv6
            then ignored state
            else if ltb (length value) (2 + address_len ae)
            then invalid 7
            else (elim (decode_address ae (take (address_len ae) (drop 2 value))) [
              | none ↦ invalid 7
              | some address ↦
                  has_unknown_mandatory N (drop (2 + address_len ae) value)
                  >>= unless_mandatory (set_next_hop address state) (next_hop address)
            ])
      ])

  unfoldable pub wildcard_route_request : Bytes → ParserState → Decoded N
  wildcard_route_request value state =
      if not (octet value 1 == 0)
      then ignored state
      else (decode_sub_tlvs {N = N} (drop 2 value) (in_prefix wildcard) none >>= λ sub.
          if sub.mandatory_unknown || is_some sub.source_prefix
          then ignored state
          else ok (some (route_request none sub.values), state))

  unfoldable pub decode_route_request : Bytes → ParserState → Decoded N
  decode_route_request value state =
      if ltb (length value) 2 then invalid 9 else (elim (from_u8 (octet value 0)) [
        | none ↦ ignored state
        | some ae ↦
            if is_wildcard ae
            then wildcard_route_request value state
            else (elim (prefix_encoded_len ae (octet value 1)) [
              | none ↦ invalid 9
              | some size ↦
                  if ltb (length value) (2 + size)
                  then invalid 9
                  else (elim (decode_prefix ae (octet value 1) 0 (take size (drop 2 value)) none) [
                    | none ↦ invalid 9
                    | some prefix ↦
                        decode_sub_tlvs (drop (2 + size) value) (in_prefix ae) (some prefix)
                        >>= λ sub.
                            if sub.mandatory_unknown
                            then ignored state
                            else (elim (route_key_new prefix sub.source_prefix) [
                              | none ↦ invalid 9
                              | some key ↦ ok (some (route_request (some key) sub.values), state)
                            ])
                  ])
            ])
      ])

  -- A sequence number request whose encoding and prefix size are known.
  unfoldable pub finish_seqno_request : AddressEncoding → ℕ → Bytes → ParserState → Decoded N
  finish_seqno_request ae size value state = elim (router_id_new (take 8 (drop 6 value))) [
    | none ↦ invalid 10
    | some id ↦ elim (decode_prefix ae (octet value 1) 0 (take size (drop 14 value)) none) [
      | none ↦ invalid 10
      | some prefix ↦
          decode_sub_tlvs (drop (14 + size) value) (in_prefix ae) (some prefix) >>= λ sub.
          if sub.mandatory_unknown
          then ignored state
          else (elim (route_key_new prefix sub.source_prefix) [
            | none ↦ invalid 10
            | some key ↦
                ok (some (seqno_request key (be16 value 2) (octet value 4) id sub.values), state)
          ])
    ]
  ]

  unfoldable pub decode_seqno_request : Bytes → ParserState → Decoded N
  decode_seqno_request value state =
      if ltb (length value) 14 then invalid 10 else (elim (from_u8 (octet value 0)) [
        | none ↦ ignored state
        | some ae ↦
            if is_wildcard ae
            then ignored state
            else (elim (prefix_encoded_len ae (octet value 1)) [
              | none ↦ invalid 10
              | some size ↦
                  if ltb (length value) (14 + size) || octet value 4 == 0
                  then invalid 10
                  else finish_seqno_request ae size value state
            ])
      ])

  unfoldable pub decode_tlv : ℕ → Bytes → ParserState → Decoded N
  decode_tlv type_ value state =
      if type_ == 1
      then ok (some (pad_n value), state)
      else if type_ == 2
      then decode_ack_request value state
      else if type_ == 3
      then decode_ack value state
      else if type_ == 4
      then decode_hello value state
      else if type_ == 5
      then decode_ihu value state
      else if type_ == 6
      then decode_router_id value state
      else if type_ == 7
      then decode_next_hop value state
      else if type_ == 8
      then decode_update value state
      else if type_ == 9
      then decode_route_request value state
      else if type_ == 10
      then decode_seqno_request value state
      else ok (some (unknown type_ value), state)

  -- The loop over the body, with a round for each octet.
  unfoldable pub body_loop :
      ℕ → Bytes → ParserState → List (Tlv N) → Result WireError (List (Tlv N))
  body_loop zero bytes state tlvs = err out_of_fuel
  body_loop (suc fuel) bytes state tlvs = elim (next_frame bytes) [
    | done ↦ ok tlvs
    | pad rest ↦ body_loop fuel rest state (tlvs ++ (pad1 ∷ []))
    | cut type_ ↦ err (truncated_tlv type_)
    | element type_ value rest ↦ elim (decode_tlv type_ value state) [
      | err e ↦ err e
      | ok decoded ↦ body_loop fuel rest decoded.1 (push_some tlvs decoded.0)
    ]
  ]

  unfoldable pub decode_body : Bytes → IpAddr → Result WireError (List (Tlv N))
  decode_body body source = body_loop (suc (length body)) body (parser_new source) []

  unfoldable pub decode_packet : Bytes → IpAddr → Result WireError (Packet N)
  decode_packet (magic ∷ version ∷ high ∷ low ∷ rest) source =
      if not (magic == 42)
      then err bad_magic
      else if not (version == 2)
      then err (unsupported_version version)
      else if ltb (length rest) (from_be16 high low)
      then err truncated_body
      else (decode_body (take (from_be16 high low) rest) source >>= λ tlvs.
          ok (record { tlvs = tlvs }))
  decode_packet short source = err short_header
