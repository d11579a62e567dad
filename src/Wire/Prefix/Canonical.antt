-- ===== src/Wire/Prefix/Canonical.antt =====
-- A canonical prefix is decoded from its octets, with or without compression.
use babel_rs.Base.{
  ℕ, zero, suc, ◌-◌, ◌*◌, ◌≤◌, ◌≡◌, refl, sym, subst, ap, ◌∙◌, false, Option, none, some, [], ◌∷◌,
  ◌++◌, ltb, Bytes, length, take, drop, arith, length-append, length-take, length-drop, take-append,
  take-drop,
}
use babel_rs.Model.{IpNet, IpAddr, v4, v6, octets, mask, max_bits}
use babel_rs.Wire.{AddressEncoding, wildcard, ipv4, ipv6, ipv6_link_local, ipv4_via_ipv6}
use babel_rs.Wire.Prefix.{
  pad_to, octets_of_bits, prefix_encoded_len, reused, masked, build_prefix, decode_prefix,
  wire_size, wire_octets, prefix_wire_bytes,
}
use babel_rs.Wire.Prefix.RoundTrip.{IsOctets, pad_to-masked}

-- The encodings that carry whole prefixes of the address's family.
abbrev pub Carries : AddressEncoding → IpAddr → Type 0
Carries ipv4 (v4 a) = Unit
Carries ipv4_via_ipv6 (v4 a) = Unit
Carries ipv6 (v6 a) = Unit
Carries ipv4 (v6 a) = ⊥
Carries ipv4_via_ipv6 (v6 a) = ⊥
Carries ipv6 (v4 a) = ⊥
Carries wildcard a = ⊥
Carries ipv6_link_local a = ⊥

abbrev pub octet_count : IpAddr → ℕ
octet_count (v4 a) = 4
octet_count (v6 a) = 16

-- A prefix as the routing code makes it: octets, as many as the family has, a length in its range,
-- and no host bit.
pub record IsCanonical {N : Type 0} ⦃net : IpNet N⦄ (n : N) : Type 0 where
  pub counted : length (octets (net.addr n)) ≡ octet_count (net.addr n)
  pub small : IsOctets (octets (net.addr n))
  pub in_range : net.prefix_len n ≤ max_bits (net.addr n)
  pub no_host_bits : net.trunc n ≡ n

length_wire_octets :
    (xs : Bytes) (plen : ℕ)
    → plen ≤ 8 * length xs
    → length (take (octets_of_bits plen) xs) ≡ octets_of_bits plen
length_wire_octets xs plen h = omega (arith, length-take (octets_of_bits plen) xs)

drop_all : (n : ℕ) (xs : Bytes) → length xs ≤ n → drop n xs ≡ []
drop_all zero [] h = refl
drop_all zero (x ∷ xs) h = absurd (omega arith)
drop_all (suc n) [] h = refl
drop_all (suc n) (x ∷ xs) h = drop_all n xs (omega arith)

take-drop-rest :
    (n : ℕ) (w rest : Bytes) → n ≤ length w → take (length w - n) (drop n w ++ rest) ≡ drop n w
take-drop-rest n w rest h =
    take-append (drop n w) rest (length w - n) (omega (arith, length-drop n w))

reused_lem :
    (bytes : Bytes) (n : ℕ) → n ≤ length bytes → reused (some bytes) n ≡ some (take n bytes)
unfolding reused
reused_lem bytes zero h = refl
reused_lem bytes (suc n) h = ground arith

wire_size_lem :
    (ae : AddressEncoding) (plen k : ℕ)
    → prefix_encoded_len ae plen ≡ some k
    → wire_size ae plen ≡ k
wire_size_lem ae plen k e = ap (λ (o : Option ℕ). elim o [ none ↦ 0 | some n ↦ n ]) e

module _ {N : Type 0} ⦃net : IpNet N⦄ where
  net_new_lem :
      (n : N) (a : IpAddr) (plen : ℕ)
      → net.addr n ≡ a
      → net.prefix_len n ≡ plen
      → plen ≤ max_bits a
      → net.net_new a plen ≡ some n
  net_new_lem n a plen ha hp le =
      let (m, made) = net.net_new_total a plen le in
      let (pa, pp) = net.net_new_parts a plen m made in
      made ∙ ap some (net.net_ext m n (pa ∙ sym ha) (pp ∙ sym hp))

  canonical-mask :
      (n : N) → IsCanonical n → mask (net.prefix_len n) (octets (net.addr n)) ≡ octets (net.addr n)
  canonical-mask n c = sym (net.octets-trunc n) ∙ ap (λ (m : N). octets (net.addr m)) c.no_host_bits

  -- Octets reused and octets sent, put together, are the octets of the prefix.
  decode_prefix-whole :
      (ae : AddressEncoding) (plen omitted : ℕ) (w prev rest : Bytes)
      → prefix_encoded_len ae plen ≡ some (length w)
      → omitted ≤ length w
      → omitted ≤ length prev
      → take omitted prev ≡ take omitted w
      → decode_prefix {N = N} ae plen omitted (drop omitted w ++ rest) (some prev)
        ≡ build_prefix ae plen (masked plen w)
  unfolding decode_prefix
  decode_prefix-whole ae plen omitted w prev rest size le have same =
      let count : length (drop omitted w) ≡ length w - omitted = length-drop omitted w in
      let enough : ltb (length (drop omitted w ++ rest)) (length w - omitted) ≡ false =
        ground (arith, length-append (drop omitted w) rest, count) in
      let fits : ltb (length w) omitted ≡ false = ground arith in
      rw
        (
          decode_prefix,
          size,
          fits,
          enough,
          reused_lem prev omitted have,
          take-drop-rest omitted w rest le,
          same,
          take-drop omitted w,
        )
        refl

  -- For each of the encodings that carry an address.
  decode_wire_v4 :
      (ae : AddressEncoding) (n : N) (a prev rest : Bytes) (omitted : ℕ)
      → IsCanonical n
      → net.addr n ≡ v4 a
      → prefix_encoded_len ae (net.prefix_len n) ≡ some (octets_of_bits (net.prefix_len n))
      → ((xs : Bytes)
          → build_prefix ae (net.prefix_len n) xs
            ≡ net.net_new (v4 (pad_to 4 xs)) (net.prefix_len n))
      → let w = take (octets_of_bits (net.prefix_len n)) a in
        omitted ≤ length w
        → omitted ≤ length prev
        → take omitted prev ≡ take omitted w
        → decode_prefix ae (net.prefix_len n) omitted (drop omitted w ++ rest) (some prev) ≡ some n
  decode_wire_v4 ae n a prev rest omitted c here size build le have same =
      let plen = net.prefix_len n in
      let count : length a ≡ 4 =
        subst (λ (x : IpAddr). length (octets x) ≡ octet_count x) here c.counted in
      let small : IsOctets a = subst (λ (x : IpAddr). IsOctets (octets x)) here c.small in
      let range : plen ≤ 32 = subst (λ (x : IpAddr). plen ≤ max_bits x) here c.in_range in
      let bits : mask plen a ≡ a =
        subst (λ (x : IpAddr). mask plen (octets x) ≡ octets x) here (canonical-mask n c) in
      let w = take (octets_of_bits plen) a in
      let wide : length w ≡ octets_of_bits plen = length_wire_octets a plen (omega arith) in
      let whole =
        decode_prefix-whole ae plen omitted w prev rest (size ∙ ap some (sym wide)) le have same in
      let padded : pad_to 4 (masked plen w) ≡ a =
        ap (λ (k : ℕ). pad_to k (masked plen w)) (sym count)
        ∙ pad_to-masked a plen small (omega arith) bits in
      whole
      ∙ build (masked plen w)
      ∙ ap (λ (xs : Bytes). net.net_new (v4 xs) plen) padded
      ∙ net_new_lem n (v4 a) plen here refl range

  decode_wire_v6 :
      (n : N) (a prev rest : Bytes) (omitted : ℕ)
      → IsCanonical n
      → net.addr n ≡ v6 a
      → let w = take (octets_of_bits (net.prefix_len n)) a in
        omitted ≤ length w
        → omitted ≤ length prev
        → take omitted prev ≡ take omitted w
        → decode_prefix ipv6 (net.prefix_len n) omitted (drop omitted w ++ rest) (some prev)
          ≡ some n
  unfolding prefix_encoded_len
  decode_wire_v6 n a prev rest omitted c here le have same =
      let plen = net.prefix_len n in
      let count : length a ≡ 16 =
        subst (λ (x : IpAddr). length (octets x) ≡ octet_count x) here c.counted in
      let small : IsOctets a = subst (λ (x : IpAddr). IsOctets (octets x)) here c.small in
      let range : plen ≤ 128 = subst (λ (x : IpAddr). plen ≤ max_bits x) here c.in_range in
      let bits : mask plen a ≡ a =
        subst (λ (x : IpAddr). mask plen (octets x) ≡ octets x) here (canonical-mask n c) in
      let w = take (octets_of_bits plen) a in
      let wide : length w ≡ octets_of_bits plen = length_wire_octets a plen (omega arith) in
      let size : prefix_encoded_len ipv6 plen ≡ some (length w) = ground arith in
      let whole = decode_prefix-whole ipv6 plen omitted w prev rest size le have same in
      let padded : pad_to 16 (masked plen w) ≡ a =
        ap (λ (k : ℕ). pad_to k (masked plen w)) (sym count)
        ∙ pad_to-masked a plen small (omega arith) bits in
      whole
      ∙ ap (λ (xs : Bytes). net.net_new (v6 xs) plen) padded
      ∙ net_new_lem n (v6 a) plen here refl range

  Decodes : N → AddressEncoding → Bytes → Bytes → Bytes → ℕ → Type 0
  Decodes n ae w prev rest omitted =
      omitted ≤ length w
      → omitted ≤ length prev
      → take omitted prev ≡ take omitted w
      → decode_prefix ae (net.prefix_len n) omitted (drop omitted w ++ rest) (some prev) ≡ some n

  v4_range : (n : N) (a : Bytes) → IsCanonical n → net.addr n ≡ v4 a → net.prefix_len n ≤ 32
  v4_range n a c here = subst (λ (x : IpAddr). net.prefix_len n ≤ max_bits x) here c.in_range

  v6_range : (n : N) (a : Bytes) → IsCanonical n → net.addr n ≡ v6 a → net.prefix_len n ≤ 128
  v6_range n a c here = subst (λ (x : IpAddr). net.prefix_len n ≤ max_bits x) here c.in_range

  -- What is sent of an address is its octets that carry the prefix.
  sent :
      (ae : AddressEncoding) (n : N) (a : IpAddr) (k : ℕ) (prev rest : Bytes) (omitted : ℕ)
      → net.addr n ≡ a
      → prefix_encoded_len ae (net.prefix_len n) ≡ some k
      → Decodes n ae (wire_octets a ae k) prev rest omitted
      → Decodes n ae (prefix_wire_bytes n ae) prev rest omitted
  unfolding prefix_wire_bytes
  sent ae n a k prev rest omitted here e h =
      subst (λ (x : Bytes). Decodes n ae x prev rest omitted)
        (sym (
          ap (λ (x : IpAddr). wire_octets x ae (wire_size ae (net.prefix_len n))) here
          ∙ ap (wire_octets a ae) (wire_size_lem ae (net.prefix_len n) k e)))
        h

  by_family :
      (ae : AddressEncoding) (n : N) (a : IpAddr) (prev rest : Bytes) (omitted : ℕ)
      → IsCanonical n
      → net.addr n ≡ a
      → Carries ae a
      → Decodes n ae (prefix_wire_bytes n ae) prev rest omitted
  unfolding Decodes prefix_encoded_len
  by_family ipv4 n (v4 a) prev rest omitted c here carried =
      let size : prefix_encoded_len ipv4 (net.prefix_len n)
          ≡ some (octets_of_bits (net.prefix_len n)) =
        ground (arith, v4_range n a c here) in
      sent ipv4 n (v4 a) (octets_of_bits (net.prefix_len n)) prev rest omitted here size
        (decode_wire_v4 ipv4 n a prev rest omitted c here size (λ xs. refl))
  by_family ipv4_via_ipv6 n (v4 a) prev rest omitted c here carried =
      let size : prefix_encoded_len ipv4_via_ipv6 (net.prefix_len n)
          ≡ some (octets_of_bits (net.prefix_len n)) =
        ground (arith, v4_range n a c here) in
      sent ipv4_via_ipv6 n (v4 a) (octets_of_bits (net.prefix_len n)) prev rest omitted here size
        (decode_wire_v4 ipv4_via_ipv6 n a prev rest omitted c here size (λ xs. refl))
  by_family ipv6 n (v6 a) prev rest omitted c here carried =
      let size : prefix_encoded_len ipv6 (net.prefix_len n)
          ≡ some (octets_of_bits (net.prefix_len n)) =
        ground (arith, v6_range n a c here) in
      sent ipv6 n (v6 a) (octets_of_bits (net.prefix_len n)) prev rest omitted here size
        (decode_wire_v6 n a prev rest omitted c here)
  by_family wildcard n a prev rest omitted c here carried = elim carried [ ]
  by_family ipv4 n (v6 a) prev rest omitted c here carried = elim carried [ ]
  by_family ipv6 n (v4 a) prev rest omitted c here carried = elim carried [ ]
  by_family ipv6_link_local n a prev rest omitted c here carried = elim carried [ ]
  by_family ipv4_via_ipv6 n (v6 a) prev rest omitted c here carried = elim carried [ ]

  -- A canonical prefix, sent in an encoding of its family with any number of its octets left out,
  -- is decoded to itself where the octets left out begin the default prefix of the receiver, and
  -- whatever octets stand behind it.
  pub decode_prefix-prefix_wire_bytes :
      (ae : AddressEncoding) (n : N) (omitted : ℕ) (prev rest : Bytes)
      → IsCanonical n
      → Carries ae (net.addr n)
      → omitted ≤ length (prefix_wire_bytes n ae)
      → omitted ≤ length prev
      → take omitted prev ≡ take omitted (prefix_wire_bytes n ae)
      → decode_prefix ae
          (net.prefix_len n)
          omitted
          (drop omitted (prefix_wire_bytes n ae) ++ rest)
          (some prev)
        ≡ some n
  unfolding Decodes
  decode_prefix-prefix_wire_bytes ae n omitted prev rest c carried =
      by_family ae n (net.addr n) prev rest omitted c refl carried
