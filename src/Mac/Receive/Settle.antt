-- ===== src/Mac/Receive/Settle.antt =====
-- What two scans of one body have in common, and what `settle` decides.
use babel_rs.Base.{
  ℕ, ◌≡◌, ◌≤◌, refl, Bool, true, false, List, [], ◌∷◌, Option, none, some, arith, Bytes, inl, inr,
  ◌⊎◌, Bool-cases, Option-cases, option_beq_iff, bytes_eq,
}
use babel_rs.Base.Words.{saturating_add64}
use babel_rs.Mac.Keys.{Crypto, SocketAddr, socket_eq}
use babel_rs.Mac.Frame.{Element}
use babel_rs.Mac.Session.{MacSession, Peer, Random, expire_ms}
use babel_rs.Mac.Receive.{
  Scan, scan, scan_element, scan_start, answers, put_peer, previous, set_previous, renewed,
  challenge, settle, or_refused,
}

module _ ⦃crypto : Crypto⦄ where
  -- A reply that no longer answers.
  abbrev pub Silenced : Option (Bytes × ℕ) → ℕ → Option (Bytes × ℕ) → ℕ → Type 0
  Silenced sent now sent' later =
      (v : Bytes) → answers sent now v ≡ false → answers sent' later v ≡ false

  pub Silenced-none : (sent : Option (Bytes × ℕ)) (now later : ℕ) → Silenced sent now none later
  Silenced-none sent now later v h = refl

  pub Silenced-later :
      (sent : Option (Bytes × ℕ)) (now later : ℕ) → now ≤ later → Silenced sent now sent later
  Silenced-later none now later le v h = refl
  Silenced-later (some (n, expires)) now later le v h = ground arith

  -- The later scan has found the same counter, and an answer only where the earlier one has.
  pub record Follows (s s' : Scan) : Type 0 where
    pub same_counter : s'.counter ≡ s.counter
    pub no_answer : (s.success ≡ true) ⊎ (s'.success ≡ false)

  scan_element-Follows :
      (sent sent' : Option (Bytes × ℕ)) (multicast : Bool) (now later : ℕ) (s s' : Scan)
      (e : Element)
      → Silenced sent now sent' later
      → Follows s s'
      → Follows (scan_element sent multicast now s e) (scan_element sent' multicast later s' e)
  unfolding scan_element
  scan_element-Follows sent sent' multicast now later s s' (t, v) q f = ground (arith, q v)

  pub scan-Follows :
      (sent sent' : Option (Bytes × ℕ)) (multicast : Bool) (now later : ℕ) (s s' : Scan)
      (es : List Element)
      → Silenced sent now sent' later
      → Follows s s'
      → Follows (scan sent multicast now s es) (scan sent' multicast later s' es)
  unfolding scan
  scan-Follows sent sent' multicast now later s s' [] q f = f
  scan-Follows sent sent' multicast now later s s' (e ∷ es) q f =
      scan-Follows sent sent' multicast now later (scan_element sent multicast now s e)
        (scan_element sent' multicast later s' e) es q
        (scan_element-Follows sent sent' multicast now later s s' e q f)

  scan_element-none :
      (multicast : Bool) (now : ℕ) (s : Scan) (e : Element)
      → s.success ≡ false
      → (scan_element none multicast now s e).success ≡ false
  unfolding scan_element
  scan_element-none multicast now s (t, v) h = ground arith

  -- With no nonce outstanding no reply answers.
  scan-none :
      (multicast : Bool) (now : ℕ) (s : Scan) (es : List Element)
      → s.success ≡ false
      → (scan none multicast now s es).success ≡ false
  unfolding scan
  scan-none multicast now s [] h = h
  scan-none multicast now s (e ∷ es) h =
      scan-none multicast now (scan_element none multicast now s e) es
        (scan_element-none multicast now s e h)

  -- A later scan of the same elements finds the same counter, and finds no answer if the nonce is
  -- gone, or is the one that the elements did not answer before.
  pub scan_again :
      (sent sent' : Option (Bytes × ℕ)) (multicast : Bool) (now later : ℕ) (es : List Element)
      → now ≤ later
      → (sent' ≡ none)
        ⊎ ((sent' ≡ sent) × ((scan sent multicast now scan_start es).success ≡ false))
      → ((scan sent' multicast later scan_start es).counter
          ≡ (scan sent multicast now scan_start es).counter)
        × ((scan sent' multicast later scan_start es).success ≡ false)
  scan_again sent sent' multicast now later es le (inl gone) =
      let f =
        scan-Follows sent none multicast now later scan_start scan_start es
          (Silenced-none sent now later) (record { same_counter = refl; no_answer = inr refl }) in
      rw gone (f.same_counter, scan-none multicast later scan_start es refl)
  scan_again sent sent' multicast now later es le (inr (same, quiet)) =
      let f =
        scan-Follows sent sent multicast now later scan_start scan_start es
          (Silenced-later sent now later le)
          (record { same_counter = refl; no_answer = inr refl }) in
      rw same (f.same_counter, (ground (arith, f.no_answer)))

-- The entry that an accepted packet leaves for its sender.
pub record Accepted (multicast : Bool) (nonce : Option (Bytes × ℕ)) (found : Scan) (p : Peer)
    : Type 0 where
  pub pc : ℕ
  pub index : Bytes
  pub counted : found.counter ≡ some (pc, index)
  pub same_index : p.index ≡ some index
  pub reached : previous p multicast ≡ pc
  pub unanswered : (p.nonce ≡ none) ⊎ ((p.nonce ≡ nonce) × (found.success ≡ false))

pub settle_accepted :
    (s : MacSession) (source : SocketAddr) (multicast : Bool) (peer : Peer) (controls : List Bytes)
    (found : Scan) (now : ℕ) (random : Random)
    → (or_refused (settle s source multicast peer controls found false now random).0).accepted
      ≡ true
    → (p : Peer) × Accepted multicast peer.nonce found p
      × ((settle s source multicast peer controls found false now random).1 ≡ put_peer s source p)
unfolding settle challenge
settle_accepted s source multicast peer controls found now random h =
    elim (Option-cases found.counter) [
      | inl e ↦ absurd (ground arith)
      | inr ((pc, index), e) ↦ elim (Bool-cases found.success) [
        | inl y ↦ (
          record peer {
            nonce = none;
            index = some index;
            unicast = pc;
            multicast = pc;
            expires = saturating_add64 now expire_ms;
          },
          record {
            pc = pc;
            index = index;
            counted = e;
            same_index = refl;
            reached = ground arith;
            unanswered = inl refl;
          },
          ground arith,
        )
        | inr n ↦ (
          renewed (set_previous peer multicast pc) now,
          record {
            pc = pc;
            index = index;
            counted = e;
            same_index = ground (arith, option_beq_iff peer.index (some index));
            reached = ground arith;
            unanswered = inr (ground arith, n);
          },
          ground arith,
        )
      ]
    ]

pub settle_refused :
    (s : MacSession) (source : SocketAddr) (multicast : Bool) (peer : Peer) (controls : List Bytes)
    (found : Scan) (now : ℕ) (random : Random) (pc : ℕ) (index : Bytes)
    → found.counter ≡ some (pc, index)
    → found.success ≡ false
    → (peer.index ≡ none) ⊎ (pc ≤ previous peer multicast)
    → (or_refused (settle s source multicast peer controls found false now random).0).accepted
      ≡ false
unfolding settle challenge
settle_refused s source multicast peer controls found now random pc index c u low = ground arith
