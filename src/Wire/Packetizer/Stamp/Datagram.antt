-- ===== src/Wire/Packetizer/Stamp/Datagram.antt =====
-- What `stamp_hello_timestamps` of crates/babel-protocol/src/wire/packetizer.rs makes of a whole
-- datagram.
use babel_rs.Base.{
  ℕ, zero, suc, ◌+◌, ◌≡◌, ◌≢◌, ◌<◌, ◌⊎◌, sym, subst, true, false, ◌&&◌, [], ◌∷◌, ◌++◌, ltb, leb,
  ◌==◌, Bytes, length, take, drop, arith, inl, inr, Bool-cases, length-take, length-drop,
  length-append, take-drop,
}
use babel_rs.Base.Results.{ok, err}
use babel_rs.Base.Words.{from_be16}
use babel_rs.Wire.{WireError}
use babel_rs.Wire.Frame.{Frame, done, pad, cut, element, next_frame, octet, be16}
use babel_rs.Wire.Packetizer.Stamp.{
  Stamped, behind, stamp_subs, stamp_tlv, stamp_next, body_step, stamp_body, stamp_hello_timestamps,
}
use babel_rs.Wire.Framing.{
  Framing, at_end, at_pad, at_cut, at_element, next_frame-Framing, next_frame-IsCut,
}
use babel_rs.Wire.Packetizer.Stamp.Written.{
  IsStampedSubs, IsStampedBody, body_end, body_cut, body_pad, body_hello, body_bad_hello,
  body_other, stamp_subs-IsStamped,
}
use babel_rs.Wire.Packetizer.Stamp.Overwrite.{stamp_accepted, stamp_hello_timestamps-overwrites}

-- A Hello of six octets and sub-TLVs.
hello-IsStampedBody :
    (stamp : ℕ) (head subs rest : Bytes) (sub later : Stamped)
    → length head ≡ 6
    → IsStampedSubs stamp subs sub
    → IsStampedBody stamp rest later
    → IsStampedBody stamp
        (4 ∷ length (head ++ subs) ∷ (head ++ subs) ++ rest)
        (stamp_next 4 (head ++ subs) (behind head sub) rest later)
hello-IsStampedBody stamp head subs rest (ok tt, written) later six h k =
    body_hello head subs written rest later six h k
hello-IsStampedBody stamp head subs rest (err e, written) later six h k =
    body_bad_hello head subs written rest e six h

not_hello : (t n : ℕ) → (t == 4 && leb 6 n) ≡ false → (t ≢ 4) ⊎ (n < 6)
not_hello t n e = elim (Bool-cases (leb 6 n)) [
  | inl l ↦ inl (λ four. ground (arith, e, l, four))
  | inr l ↦ inr (ground (arith, l))
]

tlv-IsStampedBody :
    (stamp t : ℕ) (value rest : Bytes) (later : Stamped)
    → (t == 0) ≡ false
    → IsStampedBody stamp rest later
    → IsStampedBody stamp
        (t ∷ length value ∷ value ++ rest)
        (stamp_next t value (stamp_tlv stamp t value) rest later)
unfolding stamp_tlv
tlv-IsStampedBody stamp t value rest later nz k =
    elim (Bool-cases (t == 4 && leb 6 (length value))) [
      | inr e ↦
          rw e (body_other t value rest later (ground (arith, nz)) (not_hello t (length value) e) k)
      | inl e ↦
          let four : t ≡ 4 = ground (arith, e) in
          let six : length (take 6 value) ≡ 6 = ground (arith, e, length-take 6 value) in
          let sub = stamp_subs (suc (length value)) stamp (drop 6 value) in
          let subs =
            stamp_subs-IsStamped stamp (suc (length value)) (drop 6 value)
              (omega (arith, length-drop 6 value)) in
          rw e (
            subst
              (λ (x : ℕ).
                IsStampedBody stamp (x ∷ length value ∷ value ++ rest)
                  (stamp_next x value (behind (take 6 value) sub) rest later))
              (sym four)
              (subst
                (λ (v : Bytes).
                  IsStampedBody stamp (4 ∷ length v ∷ v ++ rest)
                    (stamp_next 4 v (behind (take 6 value) sub) rest later))
                (take-drop 6 value)
                (hello-IsStampedBody stamp (take 6 value) (drop 6 value) rest sub later six subs
                  k)))
    ]

stamp_body-IsStamped :
    (stamp fuel : ℕ) (bytes : Bytes)
    → length bytes < fuel
    → IsStampedBody stamp bytes (stamp_body fuel stamp bytes)
unfolding stamp_body
stamp_body-IsStamped stamp zero bytes h = absurd (omega arith)
stamp_body-IsStamped stamp (suc fuel) bytes h =
    by_frame bytes (next_frame bytes) (next_frame-Framing bytes)
      (λ rest shorter. stamp_body-IsStamped stamp fuel rest (omega arith))
  where
    by_frame :
        (bytes : Bytes) (f : Frame)
        → Framing bytes f
        → ((rest : Bytes)
            → length rest < length bytes
            → IsStampedBody stamp rest (stamp_body fuel stamp rest))
        → IsStampedBody stamp bytes (body_step stamp (stamp_body fuel stamp) bytes f)
    by_frame _ done at_end ih = body_end
    by_frame _ (pad _) (at_pad rest) ih = body_pad rest _ (ih rest (omega arith))
    by_frame _ (cut _) (at_cut bytes t e) ih = body_cut t bytes (next_frame-IsCut t bytes e)
    by_frame _ (element _ _ _) (at_element t value rest nz) ih =
        tlv-IsStampedBody stamp t value rest _ nz
          (ih rest (omega (arith, length-append value rest)))

-- A datagram without a whole header and body of this protocol.
abbrev pub IsForeign : Bytes → Type 0
IsForeign bytes =
    (length bytes < 4)
    ⊎ ((octet bytes 0 ≢ 42) ⊎ ((octet bytes 1 ≢ 2) ⊎ (length bytes < 4 + be16 bytes 2)))

-- A datagram, and what stamping it gives: an error and no change if it is foreign, and else its
-- header, the stamped body and the trailer.
pub data IsStampedDatagram (stamp : ℕ) : Bytes → Stamped → Type 0 where
  foreign :
      (bytes : Bytes) (e : WireError)
      → IsForeign bytes
      → IsStampedDatagram stamp bytes (err e, bytes)
  own :
      (high low : ℕ) (body trailer : Bytes) (s : Stamped)
      → length body ≡ from_be16 high low
      → IsStampedBody stamp body s
      → IsStampedDatagram stamp
          (42 ∷ 2 ∷ high ∷ low ∷ body ++ trailer)
          (s.0, 42 ∷ 2 ∷ high ∷ low ∷ s.1 ++ trailer)

own-IsStampedDatagram :
    (stamp a b high low : ℕ) (rest : Bytes)
    → (a == 42) ≡ true
    → (b == 2) ≡ true
    → ltb (length rest) (from_be16 high low) ≡ false
    → IsStampedDatagram stamp
        (a ∷ b ∷ high ∷ low ∷ rest)
        (stamp_hello_timestamps (a ∷ b ∷ high ∷ low ∷ rest) stamp)
own-IsStampedDatagram stamp a b high low rest ea eb ec =
    let k = from_be16 high low in
    let n : length (take k rest) ≡ k = ground (arith, length-take k rest, ec) in
    let body = stamp_body-IsStamped stamp (suc k) (take k rest) (omega arith) in
    let magic : a ≡ 42 = ground (arith, ea) in
    let version : b ≡ 2 = ground (arith, eb) in
    let s = stamp_body (suc k) stamp (take k rest) in
    let made = own high low (take k rest) (drop k rest) s n body in
    let whole =
      subst
        (λ (w : Bytes).
          IsStampedDatagram stamp (42 ∷ 2 ∷ high ∷ low ∷ w)
            (s.0, 42 ∷ 2 ∷ high ∷ low ∷ s.1 ++ drop k rest))
        (take-drop k rest) made in
    let headed =
      subst
        (λ (x : ℕ).
          IsStampedDatagram stamp (x ∷ 2 ∷ high ∷ low ∷ rest)
            (s.0, x ∷ 2 ∷ high ∷ low ∷ s.1 ++ drop k rest))
        (sym magic) whole in
    subst (IsStampedDatagram stamp (a ∷ b ∷ high ∷ low ∷ rest))
      (sym (stamp_accepted stamp a b high low rest ea eb ec))
      (subst
        (λ (y : ℕ).
          IsStampedDatagram stamp (a ∷ y ∷ high ∷ low ∷ rest)
            (s.0, a ∷ y ∷ high ∷ low ∷ s.1 ++ drop k rest))
        (sym version) headed)

stamp_hello_timestamps-IsStamped :
    (stamp : ℕ) (bytes : Bytes) → IsStampedDatagram stamp bytes (stamp_hello_timestamps bytes stamp)
unfolding stamp_hello_timestamps
stamp_hello_timestamps-IsStamped stamp [] = foreign [] _ (inl (omega arith))
stamp_hello_timestamps-IsStamped stamp (a ∷ []) = foreign _ _ (inl (omega arith))
stamp_hello_timestamps-IsStamped stamp (a ∷ b ∷ []) = foreign _ _ (inl (omega arith))
stamp_hello_timestamps-IsStamped stamp (a ∷ b ∷ c ∷ []) = foreign _ _ (inl (omega arith))
stamp_hello_timestamps-IsStamped stamp (a ∷ b ∷ c ∷ d ∷ rest) = elim (Bool-cases (a == 42)) [
  | inr ea ↦ rw ea (foreign _ _ (inr (inl (λ h. ground (arith, ea, h)))))
  | inl ea ↦ elim (Bool-cases (b == 2)) [
    | inr eb ↦ rw (ea, eb) (foreign _ _ (inr (inr (inl (λ h. ground (arith, eb, h))))))
    | inl eb ↦ elim (Bool-cases (ltb (length rest) (from_be16 c d))) [
      | inl ec ↦ rw (ea, eb, ec) (foreign _ _ (inr (inr (inr (ground (arith, ec))))))
      | inr ec ↦ own-IsStampedDatagram stamp a b c d rest ea eb ec
    ]
  ]
]

-- Stamping a datagram that has a whole header and body of the protocol writes the time, as four
-- octets in network order, at the front of every timestamp sub-TLV of four or more octets in a Hello,
-- up to the end of the body or to the first TLV or sub-TLV that is cut off, which is the error, and
-- changes no other octet; any other datagram is refused and left as it is. The length is kept, and
-- stamping again with a later time gives what stamping the first datagram with that time gives.
pub stamp_hello_timestamps_lem :
    (bytes : Bytes) (stamp later : ℕ)
    → IsStampedDatagram stamp bytes (stamp_hello_timestamps bytes stamp)
      × (length ((stamp_hello_timestamps bytes stamp).1) ≡ length bytes)
      × (stamp_hello_timestamps ((stamp_hello_timestamps bytes stamp).1) later
          ≡ stamp_hello_timestamps bytes later)
stamp_hello_timestamps_lem bytes stamp later =
    let (kept, again) = stamp_hello_timestamps-overwrites bytes stamp later in
    (stamp_hello_timestamps-IsStamped stamp bytes, kept, again)
