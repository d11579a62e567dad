-- ===== src/Wire/Prefix.antt =====
-- crates/babel-protocol/src/wire/prefix.rs: addresses and prefixes on the wire.
pub mod RoundTrip
pub mod Canonical
use babel_rs.Base.{
  ℕ, zero, suc, ◌+◌, ◌-◌, ◌*◌, ◌/◌, ◌%◌, ◌^◌, Bool, true, false, not, ◌&&◌, ◌||◌, Option, none,
  some, List, [], ◌∷◌, ◌++◌, ltb, leb, ◌==◌, if◌then◌else◌, Bytes, length, take, drop, bit_and, min,
}
use babel_rs.Model.{IpNet, IpAddr, v4, v6, is_ipv4, octets, RouteKey}
use babel_rs.Wire.{
  AddressEncoding, wildcard, ipv4, ipv6, ipv6_link_local, ipv4_via_ipv6, max_prefix_bits,
}

-- A copy of the octets into the front of an array of `n` zeroes.
abbrev pub pad_to : ℕ → Bytes → Bytes
pad_to zero xs = []
pad_to (suc n) [] = 0 ∷ pad_to n []
pad_to (suc n) (x ∷ xs) = x ∷ pad_to n xs

-- `Ipv6Addr::is_unicast_link_local`, the prefix fe80::/10.
abbrev pub is_link_local : Bytes → Bool
is_link_local (a ∷ b ∷ rest) = a == 0xfe && leb 0x80 b && ltb b 0xc0
is_link_local other = false

unfoldable pub decode_address : AddressEncoding → Bytes → Option IpAddr
decode_address ipv4 bytes = if length bytes == 4 then some (v4 bytes) else none
decode_address ipv6 bytes = if length bytes == 16 then some (v6 bytes) else none
decode_address ipv6_link_local bytes = some (v6 (0xfe ∷ 0x80 ∷ 0 ∷ 0 ∷ 0 ∷ 0 ∷ 0 ∷ 0 ∷ bytes))
decode_address wildcard bytes = none
decode_address ipv4_via_ipv6 bytes = none

unfoldable pub encode_address : IpAddr → AddressEncoding × Bytes
encode_address (v4 a) = (ipv4, a)
encode_address (v6 a) = if is_link_local a then (ipv6_link_local, drop 8 a) else (ipv6, a)

unfoldable pub encode_optional_address : Option IpAddr → AddressEncoding × Bytes
encode_optional_address none = (wildcard, [])
encode_optional_address (some a) = encode_address a

abbrev pub octets_of_bits : ℕ → ℕ
octets_of_bits plen = (plen + 7) / 8

unfoldable pub prefix_encoded_len : AddressEncoding → ℕ → Option ℕ
prefix_encoded_len ipv6_link_local plen =
    if ltb 128 plen then none else if leb 64 plen then some (octets_of_bits plen - 8) else none
prefix_encoded_len wildcard plen = if plen == 0 then some 0 else none
prefix_encoded_len ipv4 plen = if ltb 32 plen then none else some (octets_of_bits plen)
prefix_encoded_len ipv6 plen = if ltb 128 plen then none else some (octets_of_bits plen)
prefix_encoded_len ipv4_via_ipv6 plen = if ltb 32 plen then none else some (octets_of_bits plen)

-- `previous?.get(..omitted)?`, asked for only if octets are omitted.
unfoldable pub reused : Option Bytes → ℕ → Option Bytes
reused previous zero = some []
reused none (suc n) = none
reused (some bytes) (suc n) = if ltb (length bytes) (suc n) then none else some (take (suc n) bytes)

-- The last octet masked by `0xff << (8 - plen % 8)`.
abbrev pub mask_last : ℕ → Bytes → Bytes
mask_last k [] = []
mask_last k (x ∷ []) = bit_and x (0xff * 2 ^ k % 0x100) ∷ []
mask_last k (x ∷ y ∷ ys) = x ∷ mask_last k (y ∷ ys)

abbrev pub masked : ℕ → Bytes → Bytes
masked plen xs = if plen % 8 == 0 then xs else mask_last (8 - plen % 8) xs

abbrev pub wire_size : AddressEncoding → ℕ → ℕ
wire_size ae plen = elim (prefix_encoded_len ae plen) [ none ↦ 0 | some n ↦ n ]

abbrev pub wire_octets : IpAddr → AddressEncoding → ℕ → Bytes
wire_octets (v4 a) ae n = take n a
wire_octets (v6 a) ipv6_link_local n = take n (drop 8 a)
wire_octets (v6 a) wildcard n = take n a
wire_octets (v6 a) ipv4 n = take n a
wire_octets (v6 a) ipv6 n = take n a
wire_octets (v6 a) ipv4_via_ipv6 n = take n a

module _ {N : Type 0} ⦃net : IpNet N⦄ where
  abbrev pub build_prefix : AddressEncoding → ℕ → Bytes → Option N
  build_prefix ipv4 plen xs = net.net_new (v4 (pad_to 4 xs)) plen
  build_prefix ipv4_via_ipv6 plen xs = net.net_new (v4 (pad_to 4 xs)) plen
  build_prefix ipv6 plen xs = net.net_new (v6 (pad_to 16 xs)) plen
  build_prefix ipv6_link_local plen xs =
      net.net_new (v6 (0xfe ∷ 0x80 ∷ 0 ∷ 0 ∷ 0 ∷ 0 ∷ 0 ∷ 0 ∷ pad_to 8 xs)) plen
  build_prefix wildcard plen xs = none

  unfoldable pub decode_prefix : AddressEncoding → ℕ → ℕ → Bytes → Option Bytes → Option N
  decode_prefix ae plen omitted suffix previous = elim (prefix_encoded_len ae plen) [
    | none ↦ none
    | some encoded_len ↦
        if ltb encoded_len omitted || ltb (length suffix) (encoded_len - omitted)
        then none
        else (elim (reused previous omitted) [
          | none ↦ none
          | some head ↦
              build_prefix ae plen (masked plen (head ++ take (encoded_len - omitted) suffix))
        ])
  ]

  unfoldable pub prefix_wire_bytes : N → AddressEncoding → Bytes
  prefix_wire_bytes prefix ae =
      wire_octets (net.addr prefix) ae (wire_size ae (net.prefix_len prefix))

  unfoldable pub ae_for_key : RouteKey N → Bool → AddressEncoding
  ae_for_key key v4_via_v6 =
      if is_ipv4 (net.addr key.destination)
      then (if v4_via_v6 then ipv4_via_ipv6 else ipv4)
      else ipv6

  -- The last eight octets of the address, behind zeroes if there are fewer.
  unfoldable pub router_id_from_prefix : N → Bytes
  router_id_from_prefix prefix =
      let bytes = octets (net.addr prefix) in
      let count = min (length bytes) 8 in pad_to (8 - count) [] ++ drop (length bytes - count) bytes
