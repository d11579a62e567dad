-- ===== src/Mac/Keys.antt =====
-- Keys, configuration, endpoints and the cryptography that the `hmac`, `sha2`, `blake2` and `subtle`
-- crates provide, which is a parameter.
use babel_rs.Base.{
  ℕ, ◌+◌, ◌≡◌, ◌↔◌, Bool, true, false, ◌&&◌, ◌||◌, List, [], ◌∷◌, ◌++◌, ltb, leb, ◌==◌,
  if◌then◌else◌, Bytes, length, Eq, arith,
}
use babel_rs.Base.Results.{Result, ok, err}
use babel_rs.Base.Words.{be_bytes16}
use babel_rs.Model.{IpAddr, v4, v6, ip_beq, ip_beq_iff}

pub data MacAlgorithm : Type 0 where
  hmac_sha256 blake2s128 : MacAlgorithm

pub data MacError : Type 0 where
  key_length key_count packet entropy : MacError

pub record MacKey : Type 0 where
  pub algorithm : MacAlgorithm
  pub bytes : Bytes

abbrev is_blake : MacAlgorithm → Bool
is_blake hmac_sha256 = false
is_blake blake2s128 = true

-- `MacKey::new`.
unfoldable pub mac_key_new : MacAlgorithm → Bytes → Result MacError MacKey
mac_key_new algorithm bytes =
    if length bytes == 0 || ltb 4096 (length bytes) || (is_blake algorithm && ltb 32 (length bytes))
    then err key_length
    else ok (record { algorithm = algorithm; bytes = bytes })

-- The length of a digest, as documented by the crates.
abbrev pub digest_len : MacAlgorithm → ℕ
digest_len hmac_sha256 = 32
digest_len blake2s128 = 16

-- The digest of some data under a key, and the comparison in constant time.
pub record Crypto : Type 0 where
  pub digest : MacKey → Bytes → Bytes
  pub ct_eq : Bytes → Bytes → Bool
  pub length-digest :
      (k : MacKey) (bytes : Bytes) → length (digest k bytes) ≡ digest_len k.algorithm
  pub ct_eq_iff : (a b : Bytes) → (ct_eq a b ≡ true) ↔ (a ≡ b)

pub record MacConfig : Type 0 where
  pub keys : List MacKey
  pub accept_unverified : Bool

-- `MacConfig::new`.
unfoldable pub mac_config_new : List MacKey → Result MacError MacConfig
mac_config_new keys =
    if length keys == 0 || ltb 8 (length keys)
    then err key_count
    else ok (record { keys = keys; accept_unverified = false })

abbrev pub key_overhead : MacAlgorithm → ℕ
key_overhead hmac_sha256 = 34
key_overhead blake2s128 = 18

unfoldable pub keys_overhead : List MacKey → ℕ
keys_overhead [] = 0
keys_overhead (k ∷ ks) = key_overhead k.algorithm + keys_overhead ks

-- `MacConfig::overhead`.
unfoldable pub overhead : MacConfig → ℕ
overhead c = 22 + keys_overhead c.keys

-- `std::net::SocketAddr`; the last two fields are 0 for IPv4.
pub record SocketAddr : Type 0 where
  pub ip : IpAddr
  pub port : ℕ
  pub flowinfo : ℕ
  pub scope_id : ℕ

abbrev pub socket_beq : SocketAddr → SocketAddr → Bool
socket_beq a b =
    ip_beq a.ip b.ip && a.port == b.port && a.flowinfo == b.flowinfo && a.scope_id == b.scope_id

pub socket_beq_iff : (a b : SocketAddr) → (socket_beq a b ≡ true) ↔ (a ≡ b)
socket_beq_iff a b = ground (arith, ip_beq_iff a.ip b.ip)

instance abbrev pub socket_eq : Eq SocketAddr
socket_eq = record { beq = socket_beq; beq_iff = socket_beq_iff }

pub record DatagramEndpoints : Type 0 where
  pub source : SocketAddr
  pub destination : SocketAddr

abbrev pub pseudo_header : IpAddr → IpAddr → ℕ → ℕ → Bytes → Result MacError Bytes
pseudo_header (v4 s) (v4 d) sp dp body = ok (s ++ (be_bytes16 sp ++ (d ++ (be_bytes16 dp ++ body))))
pseudo_header (v6 s) (v6 d) sp dp body = ok (s ++ (be_bytes16 sp ++ (d ++ (be_bytes16 dp ++ body))))
pseudo_header (v4 s) (v6 d) sp dp body = err packet
pseudo_header (v6 s) (v4 d) sp dp body = err packet

-- `DatagramEndpoints::authenticated_bytes`.
unfoldable pub authenticated_bytes : DatagramEndpoints → Bytes → Result MacError Bytes
authenticated_bytes e body =
    pseudo_header e.source.ip e.destination.ip e.source.port e.destination.port body

-- `IpAddr::is_multicast`.
abbrev pub is_multicast : IpAddr → Bool
is_multicast (v4 []) = false
is_multicast (v4 (a ∷ r)) = leb 224 a && leb a 239
is_multicast (v6 []) = false
is_multicast (v6 (a ∷ r)) = a == 0xff
