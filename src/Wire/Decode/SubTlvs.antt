-- ===== src/Wire/Decode/SubTlvs.antt =====
-- The sub-TLVs of crates/babel-protocol/src/wire/decode.rs, with a round of the loop for each octet.
use babel_rs.Base.{
  ℕ, zero, suc, ◌+◌, Bool, true, false, not, ◌||◌, Option, none, some, List, [], ◌∷◌, ◌++◌, ltb,
  leb, ◌==◌, if◌then◌else◌, Bytes, length, take, drop, bit_and, bool_beq,
}
use babel_rs.Base.Map.{is_some}
use babel_rs.Base.Results.{Result, ok, err, ◌>>=◌}
use babel_rs.Model.{IpNet, is_ipv4}
use babel_rs.Wire.{
  SubTlv, sub_pad1, sub_pad_n, timestamp_hello, timestamp_ihu, sub_unknown, AddressEncoding,
  is_wildcard, WireError, invalid_tlv, out_of_fuel,
}
use babel_rs.Wire.Frame.{done, pad, cut, element, next_frame, octet, be32}
use babel_rs.Wire.Prefix.{prefix_encoded_len, decode_prefix}

pub data SubContext : Type 0 where
  in_hello in_ihu : SubContext
  in_prefix : AddressEncoding → SubContext

pub record DecodedSubTlvs (N : Type 0) : Type 0 where
  pub values : List (SubTlv N)
  pub source_prefix : Option N
  pub mandatory_unknown : Bool

module _ {N : Type 0} where
  abbrev pub no_sub_tlvs : DecodedSubTlvs N
  no_sub_tlvs = record { values = []; source_prefix = none; mandatory_unknown = false }

  abbrev pub add_value : DecodedSubTlvs N → SubTlv N → DecodedSubTlvs N
  add_value r v = record r { values = r.values ++ (v ∷ []) }

  abbrev pub give_up : DecodedSubTlvs N → DecodedSubTlvs N
  give_up r = record r { mandatory_unknown = true }

  abbrev pub timestamp_value : SubContext → Bytes → SubTlv N
  timestamp_value in_hello body =
      if leb 4 (length body) then timestamp_hello (be32 body 0) else sub_unknown 3 body
  timestamp_value in_ihu body =
      if leb 8 (length body) then timestamp_ihu (be32 body 0) (be32 body 4) else sub_unknown 3 body
  timestamp_value (in_prefix ae) body = sub_unknown 3 body

  abbrev pub unknown_value : DecodedSubTlvs N → ℕ → Bytes → DecodedSubTlvs N
  unknown_value r type_ body = record r {
    values = r.values ++ (sub_unknown type_ body ∷ []);
    mandatory_unknown = r.mandatory_unknown || not (bit_and type_ 0x80 == 0);
  }

module _ {N : Type 0} ⦃net : IpNet N⦄ where
  abbrev pub family_differs : Option N → N → Bool
  family_differs none prefix = false
  family_differs (some dst) prefix =
      not (bool_beq (is_ipv4 (net.addr dst)) (is_ipv4 (net.addr prefix)))

  -- The source prefix of a body that is not empty, and whose length is not 0.
  unfoldable pub source_value :
      AddressEncoding → Option N → Bytes → DecodedSubTlvs N → DecodedSubTlvs N
  source_value ae destination body r =
      let plen = octet body 0 in
      elim (prefix_encoded_len ae plen) [
        | none ↦ give_up r
        | some size ↦
            if ltb (length body) (1 + size)
            then give_up r
            else (elim (decode_prefix ae plen 0 (take size (drop 1 body)) none) [
              | none ↦ give_up r
              | some prefix ↦
                  if family_differs destination prefix
                  then give_up r
                  else record r { source_prefix = some prefix }
            ])
      ]

  unfoldable pub decode_source : SubContext → Option N → Bytes → DecodedSubTlvs N → DecodedSubTlvs N
  decode_source in_hello destination body r = give_up r
  decode_source in_ihu destination body r = give_up r
  decode_source (in_prefix ae) destination body r =
      if is_some r.source_prefix || is_wildcard ae || length body == 0 || octet body 0 == 0
      then give_up r
      else source_value ae destination body r

  -- One sub-TLV that is framed.
  unfoldable pub decode_sub_tlv :
      SubContext → Option N → ℕ → Bytes → DecodedSubTlvs N → DecodedSubTlvs N
  decode_sub_tlv context destination type_ body r =
      if type_ == 1
      then add_value r (sub_pad_n body)
      else if type_ == 3
      then add_value r (timestamp_value context body)
      else if type_ == 128
      then decode_source context destination body r
      else unknown_value r type_ body

  unfoldable pub sub_tlvs_loop :
      ℕ → Bytes → SubContext → Option N → DecodedSubTlvs N → Result WireError (DecodedSubTlvs N)
  sub_tlvs_loop zero bytes context destination r = err out_of_fuel
  sub_tlvs_loop (suc fuel) bytes context destination r = elim (next_frame bytes) [
    | done ↦ ok r
    | pad rest ↦ sub_tlvs_loop fuel rest context destination (add_value r sub_pad1)
    | cut type_ ↦ err (invalid_tlv type_)
    | element type_ body rest ↦
        sub_tlvs_loop fuel rest context destination
          (decode_sub_tlv context destination type_ body r)
  ]

  unfoldable pub decode_sub_tlvs :
      Bytes → SubContext → Option N → Result WireError (DecodedSubTlvs N)
  decode_sub_tlvs bytes context destination =
      sub_tlvs_loop (suc (length bytes)) bytes context destination no_sub_tlvs

unfoldable pub has_unknown_mandatory : (N : Type 0) ⦃net : IpNet N⦄ → Bytes → Result WireError Bool
has_unknown_mandatory N bytes =
    decode_sub_tlvs {N = N} bytes in_hello none >>= λ r. ok r.mandatory_unknown
