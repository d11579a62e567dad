-- ===== src/Mac/Signed/Delivery.antt =====
-- A signed packet is accepted by a peer that shares a key.
use babel_rs.Base.{
  ℕ, ◌+◌, ◌≡◌, ◌<◌, refl, Bool, true, false, List, [], ◌∷◌, ◌++◌, some, arith, Bytes, ltb, length,
  ap, ◌∙◌, option_beq_iff, bytes_eq,
}
use mathlib.Core.List.{Memᴰ}
use babel_rs.Base.Map.{lookup, Distinct, lookup-retain}
use babel_rs.Base.Results.{ok}
use babel_rs.Mac.Keys.{MacKey, Crypto, SocketAddr, socket_eq, DatagramEndpoints, is_multicast}
use babel_rs.Mac.Frame.{Element}
use babel_rs.Mac.Session.{MacSession, Peer, Random, sign, pc_type}
use babel_rs.Base.Words.{be_bytes32}
use babel_rs.Mac.Receive.{
  Scan, scan, scan_start, answer_request, entry_peer, previous, settle, admit_elements, expire,
  receive, or_refused,
}
use babel_rs.Mac.Receive.Replay.{answer_request_keeps, receive_inner_admits}
use babel_rs.Mac.Signed.{Random16, sign-IsSigned}
use babel_rs.Mac.Signed.Framing.{body_end-signed, verify-signed, tlvs-signed, scan-signed}

-- A newer counter under the index that is known is accepted, and so is an answer to a challenge.
settle_newer :
    (s : MacSession) (source : SocketAddr) (multicast : Bool) (peer : Peer) (controls : List Bytes)
    (found : Scan) (accepted : Bool) (now : ℕ) (random : Random) (pc : ℕ) (index : Bytes)
    → found.counter ≡ some (pc, index)
    → peer.index ≡ some index
    → previous peer multicast < pc
    → (or_refused (settle s source multicast peer controls found accepted now random).0).accepted
      ≡ true
unfolding settle
settle_newer s source multicast peer controls found accepted now random pc index c i newer =
    ground (arith, option_beq_iff peer.index (some index))

entry_peer-expire :
    (s : MacSession) (source : SocketAddr) (p : Peer) (now : ℕ)
    → Distinct s.peers
    → lookup source s.peers ≡ some p
    → now < p.expires
    → lookup source (expire s now).peers ≡ some p
unfolding expire
entry_peer-expire s source p now d found live =
    ground (arith, lookup-retain (λ _ (q : Peer). ltb now q.expires) source s.peers d)

module _ ⦃crypto : Crypto⦄ where
  admit_elements_newer :
      (s : MacSession) (elements : List Element) (endpoints : DatagramEndpoints) (accepted : Bool)
      (now : ℕ) (random : Random) (p : Peer) (pc : ℕ) (index : Bytes)
      → lookup endpoints.source s.peers ≡ some p
      → (scan p.nonce (is_multicast endpoints.destination.ip) now scan_start elements).counter
        ≡ some (pc, index)
      → p.index ≡ some index
      → previous p (is_multicast endpoints.destination.ip) < pc
      → (or_refused (admit_elements s elements endpoints accepted now random).0).accepted ≡ true
  unfolding admit_elements
  admit_elements_newer s elements endpoints accepted now random p pc index found counted i newer =
      let multicast = is_multicast endpoints.destination.ip in
      let entry : entry_peer s endpoints.source now ≡ p = unfold entry_peer in ground arith in
      let f = scan p.nonce multicast now scan_start elements in
      let kept = answer_request_keeps p f.request now multicast in
      let answered = answer_request p f.request now in
      rw (found, entry)
        (settle_newer s endpoints.source multicast answered.0 answered.1 f accepted now random pc
          index counted (kept.1 ∙ i) (omega (arith, kept.2)))

  -- A packet that one session signs is accepted by another that demands verification, shares one
  -- of the signer's keys, and has an entry for the sender that has not expired, knows its index and
  -- has seen only smaller counters of its kind of destination.
  pub receive-sign :
      (s t : MacSession) (bytes out : Bytes) (endpoints : DatagramEndpoints) (random : Random)
      (r : MacSession) (k : MacKey) (p : Peer) (now : ℕ) (random' : Random)
      → length s.index ≡ 16
      → s.counter < 0x1_0000_0000
      → Random16 random
      → sign s bytes endpoints random ≡ (ok out, t)
      → r.config.accept_unverified ≡ false
      → Memᴰ k r.config.keys
      → Memᴰ k s.config.keys
      → Distinct r.peers
      → lookup endpoints.source r.peers ≡ some p
      → now < p.expires
      → p.index ≡ some t.index
      → previous p (is_multicast endpoints.destination.ip) + 1 < t.counter
      → (receive r out endpoints now random').0.accepted ≡ true
  unfolding receive
  receive-sign s t bytes out endpoints random r k p now random' h c r16 signed strict mine theirs d
        found live known newer =
      let v = sign-IsSigned s t bytes out endpoints random h c r16 signed in
      let r1 = expire r now in
      let multicast = is_multicast endpoints.destination.ip in
      let elements = v.input.elements ++ ((pc_type, be_bytes32 v.counter ++ v.index) ∷ []) in
      let strict1 : r1.config.accept_unverified ≡ false = unfold expire in strict in
      let mine1 : Memᴰ k r1.config.keys = unfold expire in mine in
      let admitted =
        receive_inner_admits r1 out endpoints now random' (length bytes + 22) elements strict1
          (body_end-signed s t bytes out endpoints v)
          (verify-signed s t bytes out endpoints v r1.config.keys k mine1 theirs)
          (tlvs-signed s t bytes out endpoints v) in
      let counted =
        scan-signed p.nonce multicast now scan_start v.input.elements v.counter v.index
          v.input.plain refl (omega (arith, v.counter_fits)) v.index_16 in
      rw admitted (
        admit_elements_newer r1 elements endpoints false now random' p v.counter v.index
          (entry_peer-expire r endpoints.source p now d found live) counted
          (known ∙ ap (λ (x : Bytes). some x) v.index_eq) (omega (arith, v.counter_eq)))
