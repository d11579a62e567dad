-- ===== src/Wire/Decode/Invalid.antt =====
-- What is wrong with a TLV that crates/babel-protocol/src/wire/decode.rs refuses, by its octets.
use babel_rs.Base.{
  not, ◌&&◌, false, ℕ, ◌+◌, ◌-◌, ◌≡◌, ◌<◌, ◌⊎◌, ◌||◌, true, none, some, if◌then◌else◌, ◌==◌, Bytes,
  length, take, drop,
}
use babel_rs.Model.{IpNet, router_id_new}
use babel_rs.Wire.{
  AddressEncoding, ae_beq, ipv4_via_ipv6, ipv6_link_local, from_u8, address_len, is_wildcard,
  WireError, invalid_tlv,
}
use babel_rs.Wire.Frame.{octet, be16}
use babel_rs.Wire.Prefix.{decode_address, prefix_encoded_len, decode_prefix}
use babel_rs.Wire.Decode.Faults.{IsSubsFault}

-- The octets that a TLV of a type has at least.
abbrev pub least_length : ℕ → ℕ
least_length t =
    if t == 2 || t == 4 || t == 5
    then 6
    else if t == 3 || t == 7 || t == 9
    then 2
    else if t == 6 || t == 8
    then 10
    else if t == 10
    then 14
    else 0

-- Where the sub-TLVs of a TLV start, by its type and its value.
pub data SubsStart : ℕ → Bytes → ℕ → Type 0 where
  fixed_start :
      (t : ℕ) (value : Bytes)
      → (t ≡ 2) ⊎ ((t ≡ 3) ⊎ ((t ≡ 4) ⊎ (t ≡ 6)))
      → SubsStart t value (least_length t)
  ihu_start :
      (value : Bytes) (ae : AddressEncoding)
      → from_u8 (octet value 0) ≡ some ae
      → SubsStart 5 value (6 + address_len ae)
  next_hop_start :
      (value : Bytes) (ae : AddressEncoding)
      → from_u8 (octet value 0) ≡ some ae
      → SubsStart 7 value (2 + address_len ae)
  wildcard_start :
      (t : ℕ) (value : Bytes) (ae : AddressEncoding)
      → (t ≡ 8) ⊎ (t ≡ 9)
      → from_u8 (octet value 0) ≡ some ae
      → is_wildcard ae ≡ true
      → SubsStart t value (least_length t)
  update_start :
      (value : Bytes) (ae : AddressEncoding) (size : ℕ)
      → from_u8 (octet value 0) ≡ some ae
      → prefix_encoded_len ae (octet value 2) ≡ some size
      → SubsStart 8 value (10 + size - octet value 3)
  request_start :
      (t : ℕ) (value : Bytes) (ae : AddressEncoding) (size : ℕ)
      → (t ≡ 9) ⊎ (t ≡ 10)
      → from_u8 (octet value 0) ≡ some ae
      → prefix_encoded_len ae (octet value 1) ≡ some size
      → SubsStart t value (least_length t + size)

-- The fault of a TLV of a type, with the type that the error names.
pub data IsInvalid (N : Type 0) ⦃net : IpNet N⦄ : ℕ → Bytes → WireError → Type 0 where
  too_short :
      (t : ℕ) (value : Bytes) → length value < least_length t → IsInvalid N t value (invalid_tlv t)
  cut_sub :
      (t : ℕ) (value : Bytes) (start : ℕ) (e : WireError)
      → SubsStart t value start
      → IsSubsFault (drop start value) e
      → IsInvalid N t value e
  zero_ack_interval : (value : Bytes) → be16 value 4 ≡ 0 → IsInvalid N 2 value (invalid_tlv 2)
  zero_interval :
      (t : ℕ) (value : Bytes) (ae : AddressEncoding)
      → (t ≡ 5) ⊎ (t ≡ 8)
      → from_u8 (octet value 0) ≡ some ae
      → (ae_beq ae ipv4_via_ipv6 ≡ false) ⊎ (t ≡ 8)
      → be16 value 4 ≡ 0
      → IsInvalid N t value (invalid_tlv t)
  bad_address :
      (t : ℕ) (value : Bytes) (ae : AddressEncoding)
      → (t ≡ 5) ⊎ (t ≡ 7)
      → from_u8 (octet value 0) ≡ some ae
      → ae_beq ae ipv4_via_ipv6 ≡ false
      → (length value < least_length t + address_len ae)
        ⊎ ((is_wildcard ae ≡ false)
            × (decode_address ae (take (address_len ae) (drop (least_length t) value)) ≡ none))
      → IsInvalid N t value (invalid_tlv t)
  bad_router_id :
      (value : Bytes)
      → router_id_new (take 8 (drop 2 value)) ≡ none
      → IsInvalid N 6 value (invalid_tlv 6)
  bad_update_length :
      (value : Bytes) (ae : AddressEncoding)
      → from_u8 (octet value 0) ≡ some ae
      → is_wildcard ae ≡ false
      → (ae_beq ae ipv6_link_local && not (octet value 3 == 0)) ≡ false
      → prefix_encoded_len ae (octet value 2) ≡ none
      → IsInvalid N 8 value (invalid_tlv 8)
  bad_update_size :
      (value : Bytes) (ae : AddressEncoding) (size : ℕ)
      → from_u8 (octet value 0) ≡ some ae
      → is_wildcard ae ≡ false
      → (ae_beq ae ipv6_link_local && not (octet value 3 == 0)) ≡ false
      → prefix_encoded_len ae (octet value 2) ≡ some size
      → (size < octet value 3) ⊎ (length value < 10 + size - octet value 3)
      → IsInvalid N 8 value (invalid_tlv 8)
  bad_request_length :
      (t : ℕ) (value : Bytes) (ae : AddressEncoding)
      → (t ≡ 9) ⊎ (t ≡ 10)
      → from_u8 (octet value 0) ≡ some ae
      → is_wildcard ae ≡ false
      → prefix_encoded_len ae (octet value 1) ≡ none
      → IsInvalid N t value (invalid_tlv t)
  bad_request_prefix :
      (t : ℕ) (value : Bytes) (ae : AddressEncoding) (size : ℕ)
      → (t ≡ 9) ⊎ (t ≡ 10)
      → from_u8 (octet value 0) ≡ some ae
      → is_wildcard ae ≡ false
      → prefix_encoded_len ae (octet value 1) ≡ some size
      → (length value < least_length t + size)
        ⊎ (decode_prefix {N = N} ae (octet value 1) 0 (take size (drop (least_length t) value)) none
            ≡ none)
      → IsInvalid N t value (invalid_tlv t)
  no_hops_left :
      (value : Bytes) (ae : AddressEncoding)
      → from_u8 (octet value 0) ≡ some ae
      → is_wildcard ae ≡ false
      → octet value 4 ≡ 0
      → IsInvalid N 10 value (invalid_tlv 10)
  bad_requested_id :
      (value : Bytes) (ae : AddressEncoding)
      → from_u8 (octet value 0) ≡ some ae
      → is_wildcard ae ≡ false
      → router_id_new (take 8 (drop 6 value)) ≡ none
      → IsInvalid N 10 value (invalid_tlv 10)
