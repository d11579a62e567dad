-- ===== src/Mac/Receive/Replay.antt =====
-- A packet that was accepted and comes again.
use babel_rs.Base.{
  ℕ, ◌≡◌, ◌≢◌, ◌≤◌, refl, All, Bool, true, false, List, Option, none, some, arith, Bytes, take,
  drop, inl, inr, ◌⊎◌, not, ◌&&◌, length, Bool-cases, ltb, leb, sym, ap, ◌∙◌, subst,
}
use babel_rs.Base.Map.{Distinct, lookup-insert_same, insert-Distinct, retain-Distinct, contains_key}
use babel_rs.Base.Results.{Result, ok, Result-cases}
use babel_rs.Mac.Keys.{
  Crypto, MacConfig, MacError, SocketAddr, socket_eq, DatagramEndpoints, is_multicast,
}
use babel_rs.Mac.Frame.{Element, body_end, tlvs}
use babel_rs.Mac.Session.{MacSession, Peer, Random}
use babel_rs.Mac.Receive.{
  Scan, scan, scan_start, answer_request, entry_peer, put_peer, previous, admit_elements, admit,
  receive_inner, receive, expire, verify, or_refused, MacReception,
}
use babel_rs.Mac.Receive.Others.{Arrival, IsKept, receive_all, expire-IsKept, receive_all-IsKept}
use babel_rs.Mac.Receive.Settle.{scan_again, Accepted, settle_accepted, settle_refused}

pub answer_request_keeps :
    (p : Peer) (request : Option Bytes) (now : ℕ) (multicast : Bool)
    → ((answer_request p request now).0.nonce ≡ p.nonce)
      × ((answer_request p request now).0.index ≡ p.index)
      × (previous (answer_request p request now).0 multicast ≡ previous p multicast)
unfolding answer_request
answer_request_keeps p request now multicast = ground arith

module _ ⦃crypto : Crypto⦄ where
  abbrev scanned : MacSession → DatagramEndpoints → ℕ → List Element → Scan
  scanned s endpoints now elements =
      scan (entry_peer s endpoints.source now).nonce (is_multicast endpoints.destination.ip) now
        scan_start elements

  admit_elements_accepted :
      (s : MacSession) (elements : List Element) (endpoints : DatagramEndpoints) (now : ℕ)
      (random : Random)
      → (or_refused (admit_elements s elements endpoints false now random).0).accepted ≡ true
      → (p : Peer) × Accepted
          (is_multicast endpoints.destination.ip)
          (entry_peer s endpoints.source now).nonce
          (scanned s endpoints now elements)
          p
        × ((admit_elements s elements endpoints false now random).1 ≡ put_peer s endpoints.source p)
  unfolding admit_elements
  admit_elements_accepted s elements endpoints now random h =
      let multicast = is_multicast endpoints.destination.ip in
      let found = scanned s endpoints now elements in
      let answered = answer_request (entry_peer s endpoints.source now) found.request now in
      let kept =
        answer_request_keeps (entry_peer s endpoints.source now) found.request now multicast in
      elim (Bool-cases
        (not (contains_key endpoints.source s.peers) && leb s.max_peers (length s.peers))) [
          | inl full ↦ absurd (ground arith)
          | inr room ↦
              let (p, a, e) =
                settle_accepted s endpoints.source multicast answered.0 answered.1 found now random
                  (rw room at h) in
              rw room (p, subst (λ x. Accepted multicast x found p) kept.0 a, e)
        ]

  admit_elements_refused :
      (s : MacSession) (elements : List Element) (endpoints : DatagramEndpoints) (now : ℕ)
      (random : Random) (pc : ℕ) (index : Bytes)
      → (scanned s endpoints now elements).counter ≡ some (pc, index)
      → (scanned s endpoints now elements).success ≡ false
      → ((entry_peer s endpoints.source now).index ≡ none)
        ⊎ (pc
            ≤ previous (entry_peer s endpoints.source now) (is_multicast endpoints.destination.ip))
      → (or_refused (admit_elements s elements endpoints false now random).0).accepted ≡ false
  unfolding admit_elements
  admit_elements_refused s elements endpoints now random pc index c u low =
      let multicast = is_multicast endpoints.destination.ip in
      let found = scanned s endpoints now elements in
      let answered = answer_request (entry_peer s endpoints.source now) found.request now in
      let kept =
        answer_request_keeps (entry_peer s endpoints.source now) found.request now multicast in
      elim (Bool-cases
        (not (contains_key endpoints.source s.peers) && leb s.max_peers (length s.peers))) [
          | inl full ↦ rw full
          | inr room ↦ rw room (
              settle_refused s endpoints.source multicast answered.0 answered.1 found now random pc
                index c u (ground arith))
        ]

  -- What the sender's entry is when time has passed: as it was left, or forgotten.
  entry_peer_after :
      (config : MacConfig) (t : MacSession) (source : SocketAddr) (p : Peer) (later : ℕ)
      → IsKept config source p t
      → let q = entry_peer (expire t later) source later in
        (q ≡ p) ⊎ ((q.index ≡ none) × (q.nonce ≡ none))
  unfolding entry_peer
  entry_peer_after config t source p later k =
      elim ((expire-IsKept config source p t later k).entry) [
        | inl here ↦ rw (entry_peer, here) (inl refl)
        | inr gone ↦ rw (entry_peer, gone) (inr (refl, refl))
      ]

  replayed_after :
      (s : MacSession) (endpoints : DatagramEndpoints) (now later : ℕ) (elements : List Element)
      (p : Peer) (between : MacSession)
      → IsKept s.config endpoints.source p between
      → now ≤ later
      → Accepted
          (is_multicast endpoints.destination.ip)
          (entry_peer s endpoints.source now).nonce
          (scanned s endpoints now elements)
          p
      → let t = expire between later in
        (pc : ℕ) × (index : Bytes) × ((scanned t endpoints later elements).counter
          ≡ some (pc, index))
        × ((scanned t endpoints later elements).success ≡ false)
        × (((entry_peer t endpoints.source later).index ≡ none)
            ⊎ (pc
                ≤ previous
                    (entry_peer t endpoints.source later)
                    (is_multicast endpoints.destination.ip)))
  replayed_after s endpoints now later elements p between kept le a =
      let sent = (entry_peer s endpoints.source now).nonce in
      let multicast = is_multicast endpoints.destination.ip in
      let t = expire between later in
      let q = entry_peer t endpoints.source later in
      let became = entry_peer_after s.config between endpoints.source p later kept in
      let again =
        scan_again sent q.nonce multicast now later elements le
          (ground (arith, became, a.unanswered)) in
      (
        a.pc,
        a.index,
        again.0 ∙ a.counted,
        again.1,
        ground (arith, became, a.reached, ap (λ (r : Peer). previous r multicast)),
      )

  pub receive_inner_admits :
      (s : MacSession) (packet : Bytes) (endpoints : DatagramEndpoints) (now : ℕ) (random : Random)
      (end : ℕ) (elements : List Element)
      → s.config.accept_unverified ≡ false
      → body_end packet ≡ ok end
      → verify s.config.keys packet end endpoints ≡ ok true
      → tlvs (drop 4 (take end packet)) ≡ ok elements
      → receive_inner s packet endpoints now random
        ≡ admit_elements s elements endpoints false now random
  unfolding receive_inner admit
  receive_inner_admits s packet endpoints now random end elements strict framed good parsed =
      ground arith

  -- What an accepted packet was found to be.
  receive_inner_accepted :
      (s : MacSession) (packet : Bytes) (endpoints : DatagramEndpoints) (now : ℕ) (random : Random)
      → s.config.accept_unverified ≡ false
      → (or_refused (receive_inner s packet endpoints now random).0).accepted ≡ true
      → (end : ℕ) × (body_end packet ≡ ok end)
        × (verify s.config.keys packet end endpoints ≡ ok true)
        × (elements : List Element) × (tlvs (drop 4 (take end packet)) ≡ ok elements)
  unfolding receive_inner admit
  receive_inner_accepted s packet endpoints now random strict h =
      elim (Result-cases (body_end packet)) [
        | inl (end, framed) ↦ elim (Result-cases (verify s.config.keys packet end endpoints)) [
          | inl (true, good) ↦ elim (Result-cases (tlvs (drop 4 (take end packet)))) [
            | inl (elements, parsed) ↦ (end, framed, good, elements, parsed)
            | inr (x, e) ↦ absurd (ground arith)
          ]
          | inl (false, e) ↦ absurd (ground arith)
          | inr (x, e) ↦ absurd (ground arith)
        ]
        | inr (x, e) ↦ absurd (ground arith)
      ]

  -- A session that demands verification, whose peers have one entry each, and that accepts a packet
  -- does not accept the same packet from the same endpoints again at the same or any later time, with
  -- any datagrams from other senders in between, valid or not, whether the sender's entry is still
  -- kept or has expired by then, and whatever the random source gives. Nothing is said of other
  -- datagrams of the same sender in between.
  pub receive_replay :
      (s : MacSession) (packet : Bytes) (endpoints : DatagramEndpoints) (now later : ℕ)
      (random random' : Random) (others : List Arrival)
      → s.config.accept_unverified ≡ false
      → Distinct s.peers
      → now ≤ later
      → All (λ a. a.endpoints.source ≢ endpoints.source) others
      → (receive s packet endpoints now random).0.accepted ≡ true
      → (receive
          (receive_all (receive s packet endpoints now random).1 others)
          packet
          endpoints
          later
          random').0.accepted
        ≡ false
  unfolding receive
  receive_replay s packet endpoints now later random random' others strict d le differ accepted =
      let source = endpoints.source in
      let s1 = expire s now in
      let strict1 : s1.config.accept_unverified ≡ false = unfold expire in strict in
      let d1 : Distinct s1.peers =
        unfold expire in retain-Distinct (λ _ (p : Peer). ltb now p.expires) s.peers d in
      let (end, framed, good, elements, parsed) =
        receive_inner_accepted s1 packet endpoints now random strict1 accepted in
      let first =
        receive_inner_admits s1 packet endpoints now random end elements strict1 framed good
          parsed in
      let (p, a, stored) = admit_elements_accepted s1 elements endpoints now random (
        ap (λ (r : Result MacError MacReception × MacSession). (or_refused r.0).accepted)
          (sym first)
        ∙ accepted) in
      let after : (receive_inner s1 packet endpoints now random).1 ≡ put_peer s1 source p =
        ap (λ (r : Result MacError MacReception × MacSession). r.1) first ∙ stored in
      let between = receive_all (receive_inner s1 packet endpoints now random).1 others in
      let kept : IsKept s1.config source p between =
        receive_all-IsKept s1.config source p _ others differ (
          subst (IsKept s1.config source p) (sym after) (record {
            same_config = refl;
            distinct = insert-Distinct source p s1.peers d1;
            entry = inl (lookup-insert_same source p s1.peers);
          })) in
      let (pc, index, c, u, low) =
        replayed_after s1 endpoints now later elements p between kept le a in
      let t = expire between later in
      let same : t.config ≡ s1.config =
        (expire-IsKept s1.config source p between later kept).same_config in
      let strict2 : t.config.accept_unverified ≡ false =
        ap (λ (x : MacConfig). x.accept_unverified) same ∙ strict1 in
      let good2 : verify t.config.keys packet end endpoints ≡ ok true =
        ap (λ (x : MacConfig). verify x.keys packet end endpoints) same ∙ good in
      rw
        (receive_inner_admits t packet endpoints later random' end elements strict2 framed good2
          parsed)
        (admit_elements_refused t elements endpoints later random' pc index c u low)
