-- ===== src/Examples/Prefixes.antt =====
-- A concrete library of prefixes, and route keys over it.
use babel_rs.Base.{
  Option, leb, if◌then◌else◌, ◌≤◌, ℕ, ◌-◌, ◌≡◌, ◌↔◌, refl, ap, ap₂, true, ◌&&◌, [], ◌∷◌, none, some,
  arith, ◌==◌, Bytes,
}
use babel_rs.Base.Bits.{pow-pos}
use babel_rs.Model.{
  max_bits, mask, mask_octet, octets, IpAddr, v4, v6, is_ipv4, ip_beq, ip_beq_iff, IpNet, RouteKey,
  route_key_new,
}
use babel_rs.Model.Keys.{IsNetworkOf, IsSourceOf, route_key_new_iff}

pub record Prefix : Type 0 where
  pub address : IpAddr
  pub length : ℕ

mask_octet_twice : (k x : ℕ) → mask_octet k (mask_octet k x) ≡ mask_octet k x
mask_octet_twice k x = grind (arith, pow-pos k)

mask_twice : (plen : ℕ) (xs : Bytes) → mask plen (mask plen xs) ≡ mask plen xs
mask_twice plen [] = refl
mask_twice plen (x ∷ xs) = ap₂ ◌∷◌ (mask_octet_twice (8 - plen) x) (mask_twice (plen - 8) xs)

abbrev pub mask_address : ℕ → IpAddr → IpAddr
mask_address plen (v4 a) = v4 (mask plen a)
mask_address plen (v6 a) = v6 (mask plen a)

pub mask_address_twice :
    (plen : ℕ) (a : IpAddr) → mask_address plen (mask_address plen a) ≡ mask_address plen a
mask_address_twice plen (v4 a) = ap v4 (mask_twice plen a)
mask_address_twice plen (v6 a) = ap v6 (mask_twice plen a)

pub is_ipv4-mask_address : (plen : ℕ) (a : IpAddr) → is_ipv4 (mask_address plen a) ≡ is_ipv4 a
is_ipv4-mask_address plen (v4 a) = refl
is_ipv4-mask_address plen (v6 a) = refl

pub prefix_beq_iff :
    (a b : Prefix) → ((ip_beq a.address b.address && a.length == b.length) ≡ true) ↔ (a ≡ b)
prefix_beq_iff a b = ground (arith, ip_beq_iff a.address b.address)

pub octets-mask_address :
    (plen : ℕ) (a : IpAddr) → octets (mask_address plen a) ≡ mask plen (octets a)
octets-mask_address plen (v4 a) = refl
octets-mask_address plen (v6 a) = refl

abbrev pub prefix_new : IpAddr → ℕ → Option Prefix
prefix_new a plen =
    if leb plen (max_bits a) then some (record { address = a; length = plen }) else none

pub prefix_new_parts :
    (a : IpAddr) (plen : ℕ) (n : Prefix)
    → prefix_new a plen ≡ some n
    → (n.address ≡ a) × (n.length ≡ plen)
prefix_new_parts a plen n h = ground arith

pub prefix_new_total :
    (a : IpAddr) (plen : ℕ) → plen ≤ max_bits a → (n : Prefix) × (prefix_new a plen ≡ some n)
prefix_new_total a plen h = (record { address = a; length = plen }, ground arith)

pub prefix_ext : (m n : Prefix) → m.address ≡ n.address → m.length ≡ n.length → m ≡ n
prefix_ext m n p q = ground arith

instance abbrev pub prefix_net : IpNet Prefix
prefix_net = record {
  addr = λ p. p.address;
  prefix_len = λ p. p.length;
  trunc = λ p. record p { address = mask_address p.length p.address };
  net_beq = λ a b. ip_beq a.address b.address && a.length == b.length;
  net_beq_iff = prefix_beq_iff;
  trunc_twice = λ p. ap (λ a. record p { address = a }) (mask_address_twice p.length p.address);
  prefix_len-trunc = λ p. refl;
  is_ipv4-trunc = λ p. is_ipv4-mask_address p.length p.address;
  octets-trunc = λ p. octets-mask_address p.length p.address;
  net_new = prefix_new;
  net_new_parts = prefix_new_parts;
  net_new_total = prefix_new_total;
  net_ext = prefix_ext;
}

abbrev pub host_prefix : Prefix
host_prefix = record { address = v4 (10 ∷ 1 ∷ 2 ∷ 3 ∷ []); length = 16 }

abbrev pub network_prefix : Prefix
network_prefix = record { address = v4 (10 ∷ 1 ∷ 0 ∷ 0 ∷ []); length = 16 }

abbrev pub default_prefix : Prefix
default_prefix = record { address = v4 (0 ∷ 0 ∷ 0 ∷ 0 ∷ []); length = 0 }

abbrev pub network_key : RouteKey Prefix
network_key = record { destination = network_prefix; source = none }

-- Host bits are cleared and a source of length 0 is dropped.
key_of_host : route_key_new host_prefix (some default_prefix) ≡ some network_key
unfolding route_key_new
key_of_host = refl

route_key_new_iff_example :
    (route_key_new host_prefix (some default_prefix) ≡ some network_key)
    ↔ (IsNetworkOf host_prefix network_prefix × IsSourceOf host_prefix (some default_prefix) none)
route_key_new_iff_example = route_key_new_iff host_prefix (some default_prefix) network_key
