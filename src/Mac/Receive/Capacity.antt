-- ===== src/Mac/Receive/Capacity.antt =====
-- The table of peers stays within its bound.
use babel_rs.Base.{
  ℕ, ◌≡◌, ◌≤◌, Bool, true, false, not, ◌&&◌, List, Option, some, arith, Bytes, take, drop, inl, inr,
  Bool-cases, Option-cases, leb, ltb, length, option_beq, bytes_eq,
}
use babel_rs.Base.Map.{
  Distinct, insert-Distinct, retain-Distinct, length-insert, length-retain, contains_key,
}
use babel_rs.Base.Results.{ok, err, Result-cases}
use babel_rs.Mac.Keys.{Crypto, SocketAddr, socket_eq, DatagramEndpoints}
use babel_rs.Mac.Frame.{Element, body_end, tlvs}
use babel_rs.Mac.Session.{MacSession, Peer, Random}
use babel_rs.Mac.Receive.{
  Scan, put_peer, previous, settle, challenge, rate_allows, admit_elements, admit, receive_inner,
  receive, expire,
}

-- One entry for a sender, and no more of them than the bound.
pub record IsBounded (s : MacSession) : Type 0 where
  pub distinct : Distinct s.peers
  pub within : length s.peers ≤ s.max_peers

challenge_cases :
    (P : MacSession → Type 0) (s : MacSession) (source : SocketAddr) (peer : Peer) (accepted : Bool)
    (controls : List Bytes) (now : ℕ) (random : Random)
    → ((q : Peer) (c : Option ℕ) → P (record (put_peer s source q) { last_challenge = c }))
    → P (challenge s source peer accepted controls now random).1
unfolding challenge
challenge_cases P s source peer accepted controls now (ok index) put =
    elim (Bool-cases (rate_allows s.last_challenge now)) [
      | inl e ↦ rw e (put _ _)
      | inr e ↦ rw e (put peer s.last_challenge)
    ]
challenge_cases P s source peer accepted controls now (err x) put =
    elim (Bool-cases (rate_allows s.last_challenge now)) [
      | inl e ↦ rw e (put peer s.last_challenge)
      | inr e ↦ rw e (put peer s.last_challenge)
    ]

-- `settle` stores an entry for the sender on every branch.
pub settle_cases :
    (P : MacSession → Type 0) (s : MacSession) (source : SocketAddr) (multicast : Bool)
    (peer : Peer) (controls : List Bytes) (found : Scan) (accepted : Bool) (now : ℕ)
    (random : Random)
    → ((q : Peer) (c : Option ℕ) → P (record (put_peer s source q) { last_challenge = c }))
    → P (settle s source multicast peer controls found accepted now random).1
unfolding settle
settle_cases P s source multicast peer controls found accepted now random put =
    elim (Option-cases found.counter) [
      | inl e ↦ rw (e, settle) (put peer s.last_challenge)
      | inr ((pc, index), e) ↦ elim (Bool-cases found.success) [
        | inl y ↦ rw (e, settle, y) (put _ s.last_challenge)
        | inr n ↦ elim (Bool-cases (option_beq peer.index (some index))) [
          | inr other ↦
              rw (e, settle, n, other)
                (challenge_cases P s source peer accepted controls now random put)
          | inl same ↦ elim (Bool-cases (leb pc (previous peer multicast))) [
            | inl old ↦ rw (e, settle, n, same, old) (put peer s.last_challenge)
            | inr new ↦ rw (e, settle, n, same, new) (put _ s.last_challenge)
          ]
        ]
      ]
    ]

put-IsBounded :
    (s : MacSession) (source : SocketAddr) (q : Peer) (c : Option ℕ)
    → IsBounded s
    → (not (contains_key source s.peers) && leb s.max_peers (length s.peers)) ≡ false
    → IsBounded (record (put_peer s source q) { last_challenge = c })
put-IsBounded s source q c v room = record {
  distinct = insert-Distinct source q s.peers v.distinct;
  within = ground (arith, length-insert source q s.peers);
}

expire-IsBounded : (s : MacSession) (now : ℕ) → IsBounded s → IsBounded (expire s now)
unfolding expire
expire-IsBounded s now v = record {
  distinct = retain-Distinct (λ _ (p : Peer). ltb now p.expires) s.peers v.distinct;
  within = omega (arith, length-retain (λ _ (p : Peer). ltb now p.expires) s.peers, v.within);
}

module _ ⦃crypto : Crypto⦄ where
  admit_elements-IsBounded :
      (s : MacSession) (elements : List Element) (endpoints : DatagramEndpoints) (accepted : Bool)
      (now : ℕ) (random : Random)
      → IsBounded s
      → IsBounded (admit_elements s elements endpoints accepted now random).1
  unfolding admit_elements
  admit_elements-IsBounded s elements endpoints accepted now random v =
      elim (Bool-cases
        (not (contains_key endpoints.source s.peers) && leb s.max_peers (length s.peers))) [
          | inl full ↦ rw full v
          | inr room ↦ rw room (
              settle_cases IsBounded s endpoints.source _ _ _ _ accepted now random
                (λ q c. put-IsBounded s endpoints.source q c v room))
        ]

  admit-IsBounded :
      (s : MacSession) (body : Bytes) (endpoints : DatagramEndpoints) (accepted : Bool) (now : ℕ)
      (random : Random)
      → IsBounded s
      → IsBounded (admit s body endpoints accepted now random).1
  unfolding admit
  admit-IsBounded s body endpoints accepted now random v = elim (Result-cases (tlvs body)) [
    | inl (elements, e) ↦
        rw (e, admit) (admit_elements-IsBounded s elements endpoints accepted now random v)
    | inr (x, e) ↦ rw (e, admit) v
  ]

  receive_inner-IsBounded :
      (s : MacSession) (packet : Bytes) (endpoints : DatagramEndpoints) (now : ℕ) (random : Random)
      → IsBounded s
      → IsBounded (receive_inner s packet endpoints now random).1
  unfolding receive_inner
  receive_inner-IsBounded s packet endpoints now random v = elim (Result-cases (body_end packet)) [
    | inr (x, e) ↦ rw (e, receive_inner) v
    | inl (end, e) ↦ elim (Bool-cases s.config.accept_unverified) [
      | inl lax ↦
          ground (arith, admit-IsBounded s (drop 4 (take end packet)) endpoints true now random v)
      | inr strict ↦
          ground (arith, admit-IsBounded s (drop 4 (take end packet)) endpoints false now random v)
    ]
  ]

  -- Whatever arrives, a session keeps one entry for a sender and at most `max_peers` entries.
  pub receive-IsBounded :
      (s : MacSession) (packet : Bytes) (endpoints : DatagramEndpoints) (now : ℕ) (random : Random)
      → IsBounded s
      → IsBounded (receive s packet endpoints now random).1
  unfolding receive
  receive-IsBounded s packet endpoints now random v =
      receive_inner-IsBounded (expire s now) packet endpoints now random (expire-IsBounded s now v)
