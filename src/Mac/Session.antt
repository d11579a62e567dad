-- ===== src/Mac/Session.antt =====
-- The state of a session, and `MacSession::sign`.
use babel_rs.Base.{
  ℕ, ◌+◌, ◌-◌, ◌%◌, Bool, not, List, [], ◌∷◌, ◌++◌, Option, none, ltb, ◌==◌, ◌||◌, if◌then◌else◌,
  Bytes, length, take, drop, any,
}
use babel_rs.Base.Map.{Map}
use babel_rs.Base.Results.{Result, ok, err, ◌>>=◌, ◌>>◌, guard}
use babel_rs.Base.Words.{be_bytes16, be_bytes32}
use babel_rs.Mac.Keys.{
  MacError, packet, MacKey, MacConfig, Crypto, SocketAddr, DatagramEndpoints, authenticated_bytes,
}
use babel_rs.Mac.Frame.{Element, body_end, tlvs}

abbrev pub mac_type : ℕ
mac_type = 16

abbrev pub pc_type : ℕ
pc_type = 17

abbrev pub request_type : ℕ
request_type = 18

abbrev pub reply_type : ℕ
reply_type = 19

abbrev pub rate_ms : ℕ
rate_ms = 300

abbrev pub challenge_ms : ℕ
challenge_ms = 30000

abbrev pub expire_ms : ℕ
expire_ms = 300000

pub record Peer : Type 0 where
  pub index : Option Bytes
  pub unicast : ℕ
  pub multicast : ℕ
  pub nonce : Option (Bytes × ℕ)
  pub last_reply : Option ℕ
  pub expires : ℕ

pub record MacSession : Type 0 where
  pub config : MacConfig
  pub index : Bytes
  pub counter : ℕ
  pub peers : Map SocketAddr Peer
  pub max_peers : ℕ
  pub last_challenge : Option ℕ

-- The outcome of the one call of the random source that an operation makes at most.
abbrev pub Random : Type 0
Random = Result MacError Bytes

-- `MacSession::new`.
unfoldable pub session_new : MacConfig → ℕ → Random → Result MacError MacSession
session_new config max_peers random = do
  index ← random
  ok (record {
    config = config;
    index = index;
    counter = 0;
    peers = [];
    max_peers = max_peers;
    last_challenge = none;
  })

abbrev pub is_authentication : Element → Bool
is_authentication e = e.0 == pc_type || e.0 == mac_type

-- The input is a whole packet with no element of the authentication in it.
unfoldable pub check_unsigned : Bytes → Result MacError (Unit {0})
check_unsigned bytes = do
  end ← body_end bytes
  guard (end == length bytes) packet
  elements ← tlvs (drop 4 (take end bytes))
  guard (not (any is_authentication elements)) packet

-- A counter that cannot grow starts again under a fresh index.
unfoldable pub fresh_counter : MacSession → Random → Result MacError MacSession
fresh_counter s random =
    if s.counter == 0xffff_ffff
    then (do index ← random; ok (record s { index = index; counter = 0 }))
    else ok s

-- The packet with its PC element and the body length corrected, the header's last two octets.
abbrev pub with_counter : Bytes → ℕ → Bytes → Bytes
with_counter bytes counter index = bytes ++ (pc_type ∷ 20 ∷ (be_bytes32 counter ++ index))

abbrev pub set_body_len : Bytes → ℕ → Bytes
set_body_len bytes len = take 2 bytes ++ (be_bytes16 len ++ drop 4 bytes)

module _ ⦃crypto : Crypto⦄ where
  unfoldable pub trailer : List MacKey → Bytes → Bytes
  trailer [] bytes = []
  trailer (k ∷ ks) bytes =
      let digest = crypto.digest k bytes in
      mac_type ∷ (length digest % 0x100) ∷ (digest ++ trailer ks bytes)

  -- From the framed packet on: the length must fit, and the endpoints be of one family.
  unfoldable pub sign_framed : List MacKey → Bytes → DatagramEndpoints → Result MacError Bytes
  sign_framed keys out endpoints = do
    guard (ltb (length out - 4) 0x10000) packet
    let framed = set_body_len out (length out - 4)
    bytes ← authenticated_bytes endpoints framed
    ok (framed ++ trailer keys bytes)

  -- `MacSession::sign`. The counter that was allocated is spent, also when a later step fails.
  unfoldable pub sign :
      MacSession → Bytes → DatagramEndpoints → Random → Result MacError Bytes × MacSession
  sign s bytes endpoints random = elim (check_unsigned bytes) [
    | err e ↦ (err e, s)
    | ok _ ↦ elim (fresh_counter s random) [
      | err e ↦ (err e, s)
      | ok t ↦ (
        sign_framed t.config.keys (with_counter bytes t.counter t.index) endpoints,
        record t { counter = t.counter + 1 },
      )
    ]
  ]
