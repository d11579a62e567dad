-- ===== src/Model.antt =====
-- crates/babel-protocol/src/model.rs: identities, route keys, distances and sequence numbers.
-- An address is its octets, and prefixes are those of the `ipnet` crate, a parameter.
pub mod Seqno
pub mod Keys
use babel_rs.Base.{
  ◌*◌, ◌/◌, ◌^◌, ◌≤◌, ℕ, ◌+◌, ◌-◌, ◌%◌, ◌<◌, ◌≡◌, ◌↔◌, refl, Bool, true, false, not, ◌&&◌, ◌||◌,
  Option, none, some, List, [], ◌∷◌, arith, ltb, ◌==◌, bool_beq, if◌then◌else◌, Eq, ◌=?◌, Bytes,
  bytes_beq, bytes_beq_iff, option_beq, option_beq_iff, option_eq, bytes_eq, length,
}
use babel_rs.Base.Words.{wrapping_sub16}

-- The unreachable metric.
abbrev pub infinity : ℕ
infinity = 0xffff

-- `std::net::IpAddr`, four or sixteen octets.
pub data IpAddr : Type 0 where
  v4 : Bytes → IpAddr
  v6 : Bytes → IpAddr

abbrev pub is_ipv4 : IpAddr → Bool
is_ipv4 (v4 a) = true
is_ipv4 (v6 a) = false

abbrev pub octets : IpAddr → Bytes
octets (v4 a) = a
octets (v6 a) = a

abbrev pub ip_beq : IpAddr → IpAddr → Bool
ip_beq (v4 a) (v4 b) = bytes_beq a b
ip_beq (v4 a) (v6 b) = false
ip_beq (v6 a) (v4 b) = false
ip_beq (v6 a) (v6 b) = bytes_beq a b

pub ip_beq_iff : (a b : IpAddr) → (ip_beq a b ≡ true) ↔ (a ≡ b)
ip_beq_iff (v4 a) (v4 b) = ground (arith, bytes_beq_iff a b)
ip_beq_iff (v4 a) (v6 b) = ground arith
ip_beq_iff (v6 a) (v4 b) = ground arith
ip_beq_iff (v6 a) (v6 b) = ground (arith, bytes_beq_iff a b)

instance abbrev pub ip_eq : Eq IpAddr
ip_eq = record { beq = ip_beq; beq_iff = ip_beq_iff }

-- The octet with its last `k` bits cleared, and an address with all bits behind `plen` cleared.
abbrev pub mask_octet : ℕ → ℕ → ℕ
mask_octet k x = x / 2 ^ k * 2 ^ k

abbrev pub mask : ℕ → Bytes → Bytes
mask plen [] = []
mask plen (x ∷ xs) = mask_octet (8 - plen) x ∷ mask (plen - 8) xs

-- The number of bits of an address.
abbrev pub max_bits : IpAddr → ℕ
max_bits (v4 a) = 32
max_bits (v6 a) = 128

-- What the program relies on of `ipnet::IpNet`: a prefix is its address and its length, prefixes are
-- compared by `==`, `new` takes every length up to the address's, and `trunc` clears the host bits,
-- which keeps length and family and is idempotent.
pub record IpNet (N : Type 0) : Type 0 where
  pub addr : N → IpAddr
  pub prefix_len : N → ℕ
  pub trunc : N → N
  pub net_beq : N → N → Bool
  pub net_beq_iff : (a b : N) → (net_beq a b ≡ true) ↔ (a ≡ b)
  pub trunc_twice : (n : N) → trunc (trunc n) ≡ trunc n
  pub prefix_len-trunc : (n : N) → prefix_len (trunc n) ≡ prefix_len n
  pub is_ipv4-trunc : (n : N) → is_ipv4 (addr (trunc n)) ≡ is_ipv4 (addr n)
  pub octets-trunc : (n : N) → octets (addr (trunc n)) ≡ mask (prefix_len n) (octets (addr n))
  pub net_new : IpAddr → ℕ → Option N
  pub net_new_parts :
      (a : IpAddr) (plen : ℕ) (n : N)
      → net_new a plen ≡ some n
      → (addr n ≡ a) × (prefix_len n ≡ plen)
  pub net_new_total :
      (a : IpAddr) (plen : ℕ) → plen ≤ max_bits a → (n : N) × (net_new a plen ≡ some n)
  pub net_ext : (m n : N) → addr m ≡ addr n → prefix_len m ≡ prefix_len n → m ≡ n

abbrev zero_octets : Bytes
zero_octets = 0 ∷ 0 ∷ 0 ∷ 0 ∷ 0 ∷ 0 ∷ 0 ∷ 0 ∷ []

abbrev ones_octets : Bytes
ones_octets = 0xff ∷ 0xff ∷ 0xff ∷ 0xff ∷ 0xff ∷ 0xff ∷ 0xff ∷ 0xff ∷ []

-- `RouterId`, by its octets.
abbrev pub RouterId : Type 0
RouterId = Bytes

unfoldable pub router_id_new : Bytes → Option RouterId
router_id_new value =
    if bytes_beq value zero_octets || bytes_beq value ones_octets then none else some value

pub record RouteKey (N : Type 0) : Type 0 where
  pub destination : N
  pub source : Option N

module _ {N : Type 0} ⦃net : IpNet N⦄ where
  open net use {addr, prefix_len, trunc, net_beq, net_beq_iff}

  instance abbrev pub net_eq : Eq N
  net_eq = record { beq = net_beq; beq_iff = net_beq_iff }

  abbrev pub key_beq : RouteKey N → RouteKey N → Bool
  key_beq a b = a.destination =? b.destination && option_beq a.source b.source

  pub key_beq_iff : (a b : RouteKey N) → (key_beq a b ≡ true) ↔ (a ≡ b)
  key_beq_iff a b =
      ground (arith, net_beq_iff a.destination b.destination, option_beq_iff a.source b.source)

  instance abbrev pub key_eq : Eq (RouteKey N)
  key_eq = record { beq = key_beq; beq_iff = key_beq_iff }

  abbrev pub other_family : N → Option N → Bool
  other_family destination none = false
  other_family destination (some value) =
      not (bool_beq (is_ipv4 (addr value)) (is_ipv4 (addr destination)))

  abbrev pub kept_source : Option N → Option N
  kept_source none = none
  kept_source (some value) = if prefix_len value == 0 then none else some (trunc value)

  -- `RouteKey::new`.
  unfoldable pub route_key_new : N → Option N → Option (RouteKey N)
  route_key_new destination source =
      if other_family destination source
      then none
      else some (record { destination = trunc destination; source = kept_source source })

pub record Distance : Type 0 where
  pub seqno : ℕ
  pub metric : ℕ

unfoldable pub seqno_gt : ℕ → ℕ → Bool
seqno_gt a b = let delta = wrapping_sub16 a b in not (delta == 0) && ltb delta 0x8000

-- `Distance::feasible_against`.
unfoldable pub feasible_against : Distance → Distance → Bool
unfolding seqno_gt
feasible_against d feasible =
    seqno_gt d.seqno feasible.seqno || (d.seqno == feasible.seqno && ltb d.metric feasible.metric)
