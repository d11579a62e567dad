-- ===== src/Mac/Receive.antt =====
-- `MacSession::receive`: verification, challenges, replies and the packet counters of peers.
pub mod Verified
pub mod Settle
pub mod Replay
pub mod Capacity
pub mod Others
use babel_rs.Base.{
  ℕ, suc, ◌+◌, ◌-◌, ◌%◌, ◌≡◌, Bool, true, false, not, List, [], ◌∷◌, ◌++◌, Option, none, some, ltb,
  leb, ◌==◌, ◌&&◌, ◌||◌, if◌then◌else◌, Bytes, length, take, drop, any, option_beq, bytes_eq,
}
use babel_rs.Base.Map.{Map, lookup, insert, retain, contains_key}
use babel_rs.Base.Results.{Result, ok, err, ◌>>=◌}
use babel_rs.Base.Words.{from_be32, saturating_add64}
use babel_rs.Mac.Keys.{
  MacError, MacKey, MacConfig, Crypto, SocketAddr, socket_eq, DatagramEndpoints,
  authenticated_bytes, is_multicast,
}
use babel_rs.Mac.Frame.{Element, body_end, tlvs, control}
use babel_rs.Mac.Session.{
  MacSession, Peer, Random, mac_type, pc_type, request_type, reply_type, rate_ms, challenge_ms,
  expire_ms,
}

pub record MacReception : Type 0 where
  pub accepted : Bool
  pub controls : List Bytes

abbrev pub refused : MacReception
refused = record { accepted = false; controls = [] }

abbrev pub or_refused : Result MacError MacReception → MacReception
or_refused (ok r) = r
or_refused (err e) = refused

-- `MacSession::expire`.
unfoldable pub expire : MacSession → ℕ → MacSession
expire s now = record s { peers = retain (λ _ p. ltb now p.expires) s.peers }

-- What the loop over the body finds: the first counter with its index, the last request, and
-- whether a reply answers the nonce that the peer was sent.
pub record Scan : Type 0 where
  pub counter : Option (ℕ × Bytes)
  pub request : Option Bytes
  pub success : Bool

-- The four octets of a counter and the index behind them.
abbrev pub split_counter : Bytes → Option (ℕ × Bytes)
split_counter (a ∷ b ∷ c ∷ d ∷ index) = some (from_be32 a b c d, index)
split_counter v = none

abbrev pub is_none {ℓ} : {A : Type ℓ} → Option A → Bool
is_none none = true
is_none (some a) = false

-- `Option::is_none_or(|last| now.saturating_sub(last) >= RATE_MS)`.
abbrev pub rate_allows : Option ℕ → ℕ → Bool
rate_allows none now = true
rate_allows (some last) now = leb rate_ms (now - last)

module _ ⦃crypto : Crypto⦄ where
  abbrev pub key_matches : Bytes → List Element → MacKey → Bool
  key_matches bytes elements k =
      any (λ e. e.0 == mac_type && crypto.ct_eq (crypto.digest k bytes) e.1) elements

  -- Some local key accounts for some MAC of the trailer.
  unfoldable pub verify : List MacKey → Bytes → ℕ → DatagramEndpoints → Result MacError Bool
  verify keys packet end endpoints = tlvs (drop end packet) >>= λ elements.
      if any (λ e. e.0 == mac_type) elements
      then (authenticated_bytes endpoints (take end packet) >>= λ bytes.
          ok (any (key_matches bytes elements) keys))
      else ok false

  abbrev pub answers : Option (Bytes × ℕ) → ℕ → Bytes → Bool
  answers none now v = false
  answers (some (nonce, expires)) now v = ltb now expires && crypto.ct_eq nonce v

  -- One round of the loop over the body.
  unfoldable pub scan_element : Option (Bytes × ℕ) → Bool → ℕ → Scan → Element → Scan
  scan_element sent multicast now s (t, v) =
      if t == pc_type && is_none s.counter && leb 4 (length v) && leb (length v) 36
      then record s { counter = split_counter v }
      else if t == request_type && leb (length v) 192 && not multicast
      then record s { request = some v }
      else if t == reply_type && leb (length v) 192
      then record s { success = s.success || answers sent now v }
      else s

  unfoldable pub scan : Option (Bytes × ℕ) → Bool → ℕ → Scan → List Element → Scan
  scan sent multicast now s [] = s
  scan sent multicast now s (e ∷ es) =
      scan sent multicast now (scan_element sent multicast now s e) es

abbrev pub scan_start : Scan
scan_start = record { counter = none; request = none; success = false }

-- A request is answered if the peer was answered long enough ago.
unfoldable pub answer_request : Peer → Option Bytes → ℕ → Peer × List Bytes
answer_request peer none now = (peer, [])
answer_request peer (some nonce) now =
    if rate_allows peer.last_reply now
    then (record peer { last_reply = some now }, control reply_type nonce ∷ [])
    else (peer, [])

-- `entry(source).or_insert_with(...)`.
unfoldable pub entry_peer : MacSession → SocketAddr → ℕ → Peer
entry_peer s source now = elim (lookup source s.peers) [
  | some p ↦ p
  | none ↦ record {
    index = none;
    unicast = 0;
    multicast = 0;
    nonce = none;
    last_reply = none;
    expires = saturating_add64 now expire_ms;
  }
]

abbrev pub put_peer : MacSession → SocketAddr → Peer → MacSession
put_peer s source p = record s { peers = insert source p s.peers }

-- The counter that a packet of this kind is compared with.
abbrev pub previous : Peer → Bool → ℕ
previous p multicast = if multicast then p.multicast else p.unicast

abbrev pub set_previous : Peer → Bool → ℕ → Peer
set_previous p true pc = record p { multicast = pc }
set_previous p false pc = record p { unicast = pc }

abbrev pub renewed : Peer → ℕ → Peer
renewed p now = record p { expires = saturating_add64 now expire_ms }

-- An unknown index is challenged with a fresh nonce, at a bounded rate.
unfoldable pub challenge :
    MacSession
    → SocketAddr
    → Peer
    → Bool
    → List Bytes
    → ℕ
    → Random
    → Result MacError MacReception × MacSession
challenge s source peer accepted controls now random =
    if rate_allows s.last_challenge now
    then (elim random [
      | err e ↦ (err e, put_peer s source peer)
      | ok nonce ↦ (
        ok (record {
          accepted = accepted;
          controls = controls ++ (control request_type nonce ∷ []);
        }),
        record (put_peer s source
            (record peer { nonce = some (nonce, saturating_add64 now challenge_ms) })) {
              last_challenge = some now;
            },
      )
    ])
    else (ok (record { accepted = accepted; controls = controls }), put_peer s source peer)

-- What is decided once the body is scanned and a request answered.
unfoldable pub settle :
    MacSession
    → SocketAddr
    → Bool
    → Peer
    → List Bytes
    → Scan
    → Bool
    → ℕ
    → Random
    → Result MacError MacReception × MacSession
settle s source multicast peer controls found accepted now random = elim found.counter [
  | none ↦ (ok (record { accepted = accepted; controls = controls }), put_peer s source peer)
  | some (pc, index) ↦
      let restarted = record peer {
        nonce = none;
        index = some index;
        unicast = pc;
        multicast = pc;
      } in
      if found.success
      then (
        ok (record { accepted = true; controls = controls }),
        put_peer s source (renewed restarted now),
      )
      else if not (option_beq peer.index (some index))
      then challenge s source peer accepted controls now random
      else if leb pc (previous peer multicast)
      then (ok (record { accepted = accepted; controls = controls }), put_peer s source peer)
      else (
        ok (record { accepted = true; controls = controls }),
        put_peer s source (renewed (set_previous peer multicast pc) now),
      )
]

module _ ⦃crypto : Crypto⦄ where
  -- The body's elements, once the packet is verified. A new sender wants room for a peer.
  unfoldable pub admit_elements :
      MacSession
      → List Element
      → DatagramEndpoints
      → Bool
      → ℕ
      → Random
      → Result MacError MacReception × MacSession
  admit_elements s elements endpoints accepted now random =
      let source = endpoints.source in
      let multicast = is_multicast endpoints.destination.ip in
      let peer = entry_peer s source now in
      let found = scan peer.nonce multicast now scan_start elements in
      let answered = answer_request peer found.request now in
      if not (contains_key source s.peers) && leb s.max_peers (length s.peers)
      then (ok (record { accepted = accepted; controls = [] }), s)
      else settle s source multicast answered.0 answered.1 found accepted now random

  -- The part of `receive_inner` behind the verification.
  unfoldable pub admit :
      MacSession
      → Bytes
      → DatagramEndpoints
      → Bool
      → ℕ
      → Random
      → Result MacError MacReception × MacSession
  admit s body endpoints accepted now random = elim (tlvs body) [
    | err e ↦ (err e, s)
    | ok elements ↦ admit_elements s elements endpoints accepted now random
  ]

  unfoldable pub receive_inner :
      MacSession
      → Bytes
      → DatagramEndpoints
      → ℕ
      → Random
      → Result MacError MacReception × MacSession
  receive_inner s packet endpoints now random = elim (body_end packet) [
    | err e ↦ (err e, s)
    | ok end ↦
        if s.config.accept_unverified
        then admit s (drop 4 (take end packet)) endpoints true now random
        else (elim (verify s.config.keys packet end endpoints) [
          | err e ↦ (err e, s)
          | ok false ↦ (ok refused, s)
          | ok true ↦ admit s (drop 4 (take end packet)) endpoints false now random
        ])
  ]

  -- `MacSession::receive`: an error refuses the packet and keeps what was changed before it.
  unfoldable pub receive :
      MacSession → Bytes → DatagramEndpoints → ℕ → Random → MacReception × MacSession
  receive s packet endpoints now random =
      let (result, after) = receive_inner (expire s now) packet endpoints now random in
      (or_refused result, after)
