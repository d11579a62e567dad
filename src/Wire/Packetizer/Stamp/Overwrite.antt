-- ===== src/Wire/Packetizer/Stamp/Overwrite.antt =====
-- Stamping a datagram keeps its length, and the last time stamp is the one that is sent.
use babel_rs.Base.{
  ℕ, zero, suc, ◌+◌, ◌≡◌, refl, sym, ap, ◌∙◌, true, false, [], ◌∷◌, ◌++◌, ltb, ◌==◌, Bytes, length,
  take, drop, arith, inl, inr, Bool-cases, length-append, length-take, length-drop, take-append,
  drop-append,
}
use babel_rs.Base.Results.{ok, err, Result-cases}
use babel_rs.Base.Words.{from_be16}
use babel_rs.Wire.{WireError}
use babel_rs.Wire.Frame.{Frame, done, pad, cut, element, next_frame}
use babel_rs.Wire.Packetizer.Stamp.{
  Stamped, behind, stamp_tlv, stamp_next, body_step, stamp_body, stamp_hello_timestamps,
}
use babel_rs.Wire.Framing.{Framing, at_end, at_pad, at_cut, at_element, next_frame-Framing}
use babel_rs.Wire.Packetizer.Stamp.Values.{
  next_frame-element, Settles, next_frame-nil, next_frame-pad, KeepsLength, length-stamp_tlv,
  stamp_tlv-result, stamp_tlv-again,
}

-- The loop over TLVs.
body_round :
    (later fuel : ℕ) (bytes : Bytes) (f : Frame)
    → next_frame bytes ≡ f
    → stamp_body (suc fuel) later bytes ≡ body_step later (stamp_body fuel later) bytes f
unfolding stamp_body
body_round later fuel bytes f h = ap (body_step later (stamp_body fuel later) bytes) h

pub stamp_next-ok :
    (t : ℕ) (value rest : Bytes) (s rounds : Stamped) (u : Unit {0})
    → s.0 ≡ ok u
    → stamp_next t value s rest rounds ≡ behind (t ∷ length value ∷ s.1) rounds
stamp_next-ok t value rest s rounds u e = rw e refl

pub stamp_next-err :
    (t : ℕ) (value rest : Bytes) (s rounds : Stamped) (x : WireError)
    → s.0 ≡ err x
    → stamp_next t value s rest rounds ≡ (err x, t ∷ length value ∷ s.1 ++ rest)
stamp_next-err t value rest s rounds x e = rw e refl

-- A TLV that was stamped is read and stamped again, in front of any octets.
stamp_body-again :
    (stamp later fuel t : ℕ) (value rest : Bytes)
    → (t == 0) ≡ false
    → stamp_body (suc fuel) later (t ∷ length value ∷ (stamp_tlv stamp t value).1 ++ rest)
      ≡ stamp_next t value (stamp_tlv later t value) rest (stamp_body fuel later rest)
stamp_body-again stamp later fuel t value rest nz =
    let n = length-stamp_tlv stamp t value in
    let read = next_frame-element t (length value) ((stamp_tlv stamp t value).1) rest nz (sym n) in
    body_round later fuel _ _ read
    ∙ ap
        (λ (s : Stamped).
          stamp_next t ((stamp_tlv stamp t value).1) s rest (stamp_body fuel later rest))
        (stamp_tlv-again stamp later t value)
    ∙ ap
        (λ (k : ℕ). elim ((stamp_tlv later t value).0) [
          | err e ↦ (err e, t ∷ k ∷ (stamp_tlv later t value).1 ++ rest)
          | ok _ ↦ behind (t ∷ k ∷ (stamp_tlv later t value).1) (stamp_body fuel later rest)
        ])
        n

stamp_next-Settles :
    (stamp later fuel t : ℕ) (value rest : Bytes)
    → (t == 0) ≡ false
    → Settles (stamp_body fuel stamp) (stamp_body fuel later)
    → stamp_body
        (suc fuel)
        later
        ((stamp_next t value (stamp_tlv stamp t value) rest (stamp_body fuel stamp rest)).1)
      ≡ stamp_next t value (stamp_tlv later t value) rest (stamp_body fuel later rest)
unfolding Settles
stamp_next-Settles stamp later fuel t value rest nz ih =
    let first = stamp_tlv stamp t value in
    let again = stamp_tlv later t value in
    let same = stamp_tlv-result stamp later t value in
    let rounds = stamp_body fuel stamp rest in
    elim (Result-cases (first.0)) [
      | inl (u, e) ↦
          let e' : again.0 ≡ ok u = sym same ∙ e in
          ap (λ (s : Stamped). stamp_body (suc fuel) later (s.1))
            (stamp_next-ok t value rest first rounds u e)
          ∙ stamp_body-again stamp later fuel t value (rounds.1) nz
          ∙ stamp_next-ok t value (rounds.1) again (stamp_body fuel later (rounds.1)) u e'
          ∙ ap (behind (t ∷ length value ∷ again.1)) (ih rest)
          ∙ sym (stamp_next-ok t value rest again (stamp_body fuel later rest) u e')
      | inr (x, e) ↦
          ap (λ (s : Stamped). stamp_body (suc fuel) later (s.1))
            (stamp_next-err t value rest first rounds x e)
          ∙ stamp_body-again stamp later fuel t value rest nz
    ]

body_step-Settles :
    (stamp later fuel : ℕ) (bytes : Bytes) (f : Frame)
    → Framing bytes f
    → Settles (stamp_body fuel stamp) (stamp_body fuel later)
    → stamp_body (suc fuel) later ((body_step stamp (stamp_body fuel stamp) bytes f).1)
      ≡ body_step later (stamp_body fuel later) bytes f
unfolding Settles
body_step-Settles stamp later fuel _ done at_end ih = body_round later fuel [] done next_frame-nil
body_step-Settles stamp later fuel _ (pad _) (at_pad rest) ih =
    body_round later fuel (0 ∷ (stamp_body fuel stamp rest).1) _ (next_frame-pad _)
    ∙ ap (behind (0 ∷ [])) (ih rest)
body_step-Settles stamp later fuel bytes (cut _) (at_cut _ t e) ih =
    body_round later fuel bytes (cut t) e
body_step-Settles stamp later fuel _ (element _ _ _) (at_element t value rest nz) ih =
    stamp_next-Settles stamp later fuel t value rest nz ih

stamp_body-Settles :
    (stamp later fuel : ℕ) → Settles (stamp_body fuel stamp) (stamp_body fuel later)
unfolding stamp_body Settles
stamp_body-Settles stamp later zero bytes = refl
stamp_body-Settles stamp later (suc fuel) bytes =
    body_step-Settles stamp later fuel bytes (next_frame bytes) (next_frame-Framing bytes)
      (stamp_body-Settles stamp later fuel)

length-stamp_next :
    (stamp t : ℕ) (value rest : Bytes) (rounds : Stamped)
    → length (rounds.1) ≡ length rest
    → length ((stamp_next t value (stamp_tlv stamp t value) rest rounds).1)
      ≡ 2 + length value + length rest
length-stamp_next stamp t value rest rounds h =
    let first = stamp_tlv stamp t value in
    let n = length-stamp_tlv stamp t value in
    elim (Result-cases (first.0)) [
      | inl (u, e) ↦ rw e (omega (arith, n, h, length-append (first.1) (rounds.1)))
      | inr (x, e) ↦ rw e (omega (arith, n, length-append (first.1) rest))
    ]

stamp_body-KeepsLength : (stamp fuel : ℕ) → KeepsLength (stamp_body fuel stamp)
unfolding stamp_body KeepsLength
stamp_body-KeepsLength stamp zero bytes = refl
stamp_body-KeepsLength stamp (suc fuel) bytes =
    by_frame bytes (next_frame bytes) (next_frame-Framing bytes) (stamp_body-KeepsLength stamp fuel)
  where
    by_frame :
        (bytes : Bytes) (f : Frame)
        → Framing bytes f
        → ((rest : Bytes) → length ((stamp_body fuel stamp rest).1) ≡ length rest)
        → length ((body_step stamp (stamp_body fuel stamp) bytes f).1) ≡ length bytes
    by_frame _ done at_end ih = refl
    by_frame _ (pad _) (at_pad rest) ih = omega (arith, ih rest)
    by_frame _ (cut _) (at_cut _ t e) ih = refl
    by_frame _ (element _ _ _) (at_element t value rest nz) ih = omega (
      arith,
      length-append value rest,
      length-stamp_next stamp t value rest (stamp_body fuel stamp rest) (ih rest),
    )

length_stamped :
    (stamp k : ℕ) (body : Bytes) → length body ≡ k → length ((stamp_body (suc k) stamp body).1) ≡ k
unfolding KeepsLength
length_stamped stamp k body n = stamp_body-KeepsLength stamp (suc k) body ∙ n

stamped_again :
    (stamp later k : ℕ) (body : Bytes)
    → stamp_body (suc k) later ((stamp_body (suc k) stamp body).1) ≡ stamp_body (suc k) later body
unfolding Settles
stamped_again stamp later k body = stamp_body-Settles stamp later (suc k) body

Twice : Bytes → ℕ → ℕ → Type 0
Twice bytes stamp later =
    (length ((stamp_hello_timestamps bytes stamp).1) ≡ length bytes)
    × (stamp_hello_timestamps ((stamp_hello_timestamps bytes stamp).1) later
        ≡ stamp_hello_timestamps bytes later)

-- A datagram that is refused is not written.
refused-Twice :
    (bytes : Bytes) (stamp later : ℕ)
    → (stamp_hello_timestamps bytes stamp).1 ≡ bytes
    → Twice bytes stamp later
unfolding Twice
refused-Twice bytes stamp later h =
    (ap length h, ap (λ (w : Bytes). stamp_hello_timestamps w later) h)

pub stamp_accepted :
    (stamp a b c d : ℕ) (rest : Bytes)
    → (a == 42) ≡ true
    → (b == 2) ≡ true
    → ltb (length rest) (from_be16 c d) ≡ false
    → stamp_hello_timestamps (a ∷ b ∷ c ∷ d ∷ rest) stamp ≡ (
      (stamp_body (suc (from_be16 c d)) stamp (take (from_be16 c d) rest)).0,
      a ∷ b ∷ c ∷ d ∷ (stamp_body (suc (from_be16 c d)) stamp (take (from_be16 c d) rest)).1
          ++ drop (from_be16 c d) rest,
    )
unfolding stamp_hello_timestamps
stamp_accepted stamp a b c d rest ea eb ec = rw (ea, eb, ec) refl

accepted-Twice :
    (stamp later a b c d : ℕ) (rest : Bytes)
    → (a == 42) ≡ true
    → (b == 2) ≡ true
    → ltb (length rest) (from_be16 c d) ≡ false
    → Twice (a ∷ b ∷ c ∷ d ∷ rest) stamp later
unfolding Twice
accepted-Twice stamp later a b c d rest ea eb ec =
    let k = from_be16 c d in
    let body = take k rest in
    let s = (stamp_body (suc k) stamp body).1 in
    let n : length body ≡ k = ground (arith, length-take k rest, ec) in
    let n' : length s ≡ k = length_stamped stamp k body n in
    let whole : length (s ++ drop k rest) ≡ length rest =
      ground (arith, length-append s (drop k rest), length-drop k rest, ec) in
    let first = stamp_accepted stamp a b c d rest ea eb ec in
    let fits : ltb (length (s ++ drop k rest)) k ≡ false = rw whole ec in
    (
      ap (λ (x : Stamped). length (x.1)) first ∙ ap (λ (m : ℕ). suc (suc (suc (suc m)))) whole,
      ap (λ (x : Stamped). stamp_hello_timestamps (x.1) later) first
          ∙ stamp_accepted later a b c d (s ++ drop k rest) ea eb fits
          ∙ rw (take-append s (drop k rest) k (sym n'), drop-append s (drop k rest) k (sym n'))
              (ap (λ (x : Stamped). (x.0, a ∷ b ∷ c ∷ d ∷ x.1 ++ drop k rest))
                (stamped_again stamp later k body))
          ∙ sym (stamp_accepted later a b c d rest ea eb ec),
    )

-- Stamping a datagram keeps its length, whether it succeeds or fails, and stamping it again with
-- a later time gives what stamping the first datagram with that time gives, error included.
pub stamp_hello_timestamps-overwrites :
    (bytes : Bytes) (stamp later : ℕ)
    → (length ((stamp_hello_timestamps bytes stamp).1) ≡ length bytes)
      × (stamp_hello_timestamps ((stamp_hello_timestamps bytes stamp).1) later
          ≡ stamp_hello_timestamps bytes later)
unfolding stamp_hello_timestamps Twice
stamp_hello_timestamps-overwrites [] stamp later = (refl, refl)
stamp_hello_timestamps-overwrites (a ∷ []) stamp later = (refl, refl)
stamp_hello_timestamps-overwrites (a ∷ b ∷ []) stamp later = (refl, refl)
stamp_hello_timestamps-overwrites (a ∷ b ∷ c ∷ []) stamp later = (refl, refl)
stamp_hello_timestamps-overwrites (a ∷ b ∷ c ∷ d ∷ rest) stamp later = elim (Bool-cases (a == 42)) [
  | inr ea ↦ refused-Twice (a ∷ b ∷ c ∷ d ∷ rest) stamp later (rw ea refl)
  | inl ea ↦ elim (Bool-cases (b == 2)) [
    | inr eb ↦ refused-Twice (a ∷ b ∷ c ∷ d ∷ rest) stamp later (rw (ea, eb) refl)
    | inl eb ↦ elim (Bool-cases (ltb (length rest) (from_be16 c d))) [
      | inl ec ↦ refused-Twice (a ∷ b ∷ c ∷ d ∷ rest) stamp later (rw (ea, eb, ec) refl)
      | inr ec ↦ accepted-Twice stamp later a b c d rest ea eb ec
    ]
  ]
]
