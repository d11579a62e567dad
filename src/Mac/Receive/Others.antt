-- ===== src/Mac/Receive/Others.antt =====
-- What packets from other senders leave of the entry of a sender.
use babel_rs.Base.{
  ℕ, ◌≡◌, ◌≢◌, ap, ◌∙◌, Bool, true, false, not, ◌&&◌, List, [], ◌∷◌, All, Option, none, some, arith,
  Bytes, take, drop, inl, inr, ◌⊎◌, Bool-cases, leb, ltb, length,
}
use babel_rs.Base.Map.{
  lookup, Distinct, insert-Distinct, retain-Distinct, lookup-retain, lookup-insert, keep_if,
  contains_key,
}
use babel_rs.Base.Results.{Result-cases}
use babel_rs.Mac.Keys.{Crypto, MacConfig, SocketAddr, socket_eq, DatagramEndpoints}
use babel_rs.Mac.Frame.{Element, body_end, tlvs}
use babel_rs.Mac.Session.{MacSession, Peer, Random}
use babel_rs.Mac.Receive.{put_peer, admit_elements, admit, receive_inner, receive, expire}
use babel_rs.Mac.Receive.Capacity.{settle_cases}

-- A datagram that arrives: its octets, its endpoints, the time, and what the random source gives.
pub record Arrival : Type 0 where
  pub packet : Bytes
  pub endpoints : DatagramEndpoints
  pub now : ℕ
  pub random : Random

-- The sender's entry is as it was left, or it is gone, in a session of that configuration.
pub record IsKept (config : MacConfig) (source : SocketAddr) (p : Peer) (t : MacSession)
    : Type 0 where
  pub same_config : t.config ≡ config
  pub distinct : Distinct t.peers
  pub entry : (lookup source t.peers ≡ some p) ⊎ (lookup source t.peers ≡ none)

-- The session behind some datagrams.
abbrev pub receive_all : ⦃crypto : Crypto⦄ → MacSession → List Arrival → MacSession
receive_all t [] = t
receive_all t (a ∷ rest) = receive_all (receive t a.packet a.endpoints a.now a.random).1 rest

module _ (config : MacConfig) (source : SocketAddr) (p : Peer) where
  put-IsKept :
      (t : MacSession) (other : SocketAddr) (q : Peer) (c : Option ℕ)
      → other ≢ source
      → IsKept config source p t
      → IsKept config source p (record (put_peer t other q) { last_challenge = c })
  put-IsKept t other q c differs k = record {
    same_config = k.same_config;
    distinct = insert-Distinct other q t.peers k.distinct;
    entry =
        let miss = socket_eq.beq_iff other source in
        ground (arith, lookup-insert other source q t.peers, k.entry, differs, miss);
  }

  pub expire-IsKept :
      (t : MacSession) (now : ℕ) → IsKept config source p t → IsKept config source p (expire t now)
  unfolding expire
  expire-IsKept t now k = record {
    same_config = k.same_config;
    distinct = retain-Distinct (λ _ (r : Peer). ltb now r.expires) t.peers k.distinct;
    entry =
        let stored = lookup-retain (λ _ (r : Peer). ltb now r.expires) source t.peers k.distinct in
        elim k.entry [
          | inl here ↦
              let found = stored ∙ ap (keep_if (λ _ (r : Peer). ltb now r.expires) source) here in
              ground (arith, found)
          | inr gone ↦ inr (stored ∙ ap (keep_if (λ _ (r : Peer). ltb now r.expires) source) gone)
        ];
  }

  module _ ⦃crypto : Crypto⦄ where
    admit_elements-IsKept :
        (t : MacSession) (elements : List Element) (endpoints : DatagramEndpoints) (accepted : Bool)
        (now : ℕ) (random : Random)
        → endpoints.source ≢ source
        → IsKept config source p t
        → IsKept config source p (admit_elements t elements endpoints accepted now random).1
    unfolding admit_elements
    admit_elements-IsKept t elements endpoints accepted now random differs k =
        elim (Bool-cases
          (not (contains_key endpoints.source t.peers) && leb t.max_peers (length t.peers))) [
            | inl full ↦ rw full k
            | inr room ↦ rw room (
                settle_cases (IsKept config source p) t endpoints.source _ _ _ _ accepted now random
                  (λ q c. put-IsKept t endpoints.source q c differs k))
          ]

    admit-IsKept :
        (t : MacSession) (body : Bytes) (endpoints : DatagramEndpoints) (accepted : Bool) (now : ℕ)
        (random : Random)
        → endpoints.source ≢ source
        → IsKept config source p t
        → IsKept config source p (admit t body endpoints accepted now random).1
    unfolding admit
    admit-IsKept t body endpoints accepted now random differs k = elim (Result-cases (tlvs body)) [
      | inl (elements, e) ↦
          rw (e, admit) (admit_elements-IsKept t elements endpoints accepted now random differs k)
      | inr (x, e) ↦ rw (e, admit) k
    ]

    receive_inner-IsKept :
        (t : MacSession) (packet : Bytes) (endpoints : DatagramEndpoints) (now : ℕ)
        (random : Random)
        → endpoints.source ≢ source
        → IsKept config source p t
        → IsKept config source p (receive_inner t packet endpoints now random).1
    unfolding receive_inner
    receive_inner-IsKept t packet endpoints now random differs k =
        elim (Result-cases (body_end packet)) [
          | inr (x, e) ↦ rw (e, receive_inner) k
          | inl (end, e) ↦
              let body = drop 4 (take end packet) in
              let lax = admit-IsKept t body endpoints true now random differs k in
              let strict = admit-IsKept t body endpoints false now random differs k in ground arith
        ]

    pub receive_all-IsKept :
        (t : MacSession) (others : List Arrival)
        → All (λ a. a.endpoints.source ≢ source) others
        → IsKept config source p t
        → IsKept config source p (receive_all t others)
    unfolding receive
    receive_all-IsKept t [] differ k = k
    receive_all-IsKept t (a ∷ rest) differ k =
        receive_all-IsKept (receive t a.packet a.endpoints a.now a.random).1 rest differ.1 (
          receive_inner-IsKept (expire t a.now) a.packet a.endpoints a.now a.random differ.0
            (expire-IsKept t a.now k))
