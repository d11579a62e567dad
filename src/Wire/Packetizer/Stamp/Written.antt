-- ===== src/Wire/Packetizer/Stamp/Written.antt =====
-- What `stamp_hello_timestamps` of crates/babel-protocol/src/wire/packetizer.rs writes, by a
-- description of the datagram.
use babel_rs.Base.{
  ℕ, zero, suc, ◌≡◌, ◌≢◌, ◌<◌, ◌⊎◌, sym, subst, false, ◌&&◌, [], ◌∷◌, ◌++◌, leb, ◌==◌, Bytes,
  length, take, drop, arith, inl, inr, Bool-cases, length-take, length-append, take-drop,
}
use babel_rs.Base.Results.{ok, err}
use babel_rs.Base.Words.{be_bytes32}
use babel_rs.Wire.{WireError, invalid_tlv, truncated_tlv}
use babel_rs.Wire.Frame.{Frame, done, pad, cut, element, next_frame}
use babel_rs.Wire.Packetizer.Stamp.{Stamped, behind, stamp_value, subs_step, stamp_subs}
use babel_rs.Wire.Framing.{
  Framing, at_end, at_pad, at_cut, at_element, next_frame-Framing, IsCut, next_frame-IsCut,
}

-- Sub-TLVs, and what stamping them gives: the time stands in the first four octets of every element
-- of type 3 that has as many, up to the end or to octets that are cut off, and nothing else changes.
pub data IsStampedSubs (stamp : ℕ) : Bytes → Stamped → Type 0 where
  subs_end : IsStampedSubs stamp [] (ok tt, [])
  subs_cut :
      (t : ℕ) (bytes : Bytes)
      → IsCut t bytes
      → IsStampedSubs stamp bytes (err (invalid_tlv 4), bytes)
  subs_pad :
      (rest : Bytes) (s : Stamped)
      → IsStampedSubs stamp rest s
      → IsStampedSubs stamp (0 ∷ rest) (behind (0 ∷ []) s)
  subs_time :
      (old more rest : Bytes) (s : Stamped)
      → length old ≡ 4
      → IsStampedSubs stamp rest s
      → IsStampedSubs stamp
          (3 ∷ length (old ++ more) ∷ (old ++ more) ++ rest)
          (behind (3 ∷ length (old ++ more) ∷ be_bytes32 stamp ++ more) s)
  subs_other :
      (t : ℕ) (value rest : Bytes) (s : Stamped)
      → 0 < t
      → (t ≢ 3) ⊎ (length value < 4)
      → IsStampedSubs stamp rest s
      → IsStampedSubs stamp (t ∷ length value ∷ value ++ rest) (behind (t ∷ length value ∷ value) s)

-- The TLVs of a body, and what stamping them gives: the sub-TLVs of every Hello, behind its six
-- octets, are stamped, and nothing else changes; a Hello with cut-off sub-TLVs ends the loop.
pub data IsStampedBody (stamp : ℕ) : Bytes → Stamped → Type 0 where
  body_end : IsStampedBody stamp [] (ok tt, [])
  body_cut :
      (t : ℕ) (bytes : Bytes)
      → IsCut t bytes
      → IsStampedBody stamp bytes (err (truncated_tlv t), bytes)
  body_pad :
      (rest : Bytes) (s : Stamped)
      → IsStampedBody stamp rest s
      → IsStampedBody stamp (0 ∷ rest) (behind (0 ∷ []) s)
  body_hello :
      (head subs subs' rest : Bytes) (s : Stamped)
      → length head ≡ 6
      → IsStampedSubs stamp subs (ok tt, subs')
      → IsStampedBody stamp rest s
      → IsStampedBody stamp
          (4 ∷ length (head ++ subs) ∷ (head ++ subs) ++ rest)
          (behind (4 ∷ length (head ++ subs) ∷ head ++ subs') s)
  body_bad_hello :
      (head subs subs' rest : Bytes) (e : WireError)
      → length head ≡ 6
      → IsStampedSubs stamp subs (err e, subs')
      → IsStampedBody stamp
          (4 ∷ length (head ++ subs) ∷ (head ++ subs) ++ rest)
          (err e, 4 ∷ length (head ++ subs) ∷ (head ++ subs') ++ rest)
  body_other :
      (t : ℕ) (value rest : Bytes) (s : Stamped)
      → 0 < t
      → (t ≢ 4) ⊎ (length value < 6)
      → IsStampedBody stamp rest s
      → IsStampedBody stamp (t ∷ length value ∷ value ++ rest) (behind (t ∷ length value ∷ value) s)

-- An element of sub-TLVs.
element-IsStampedSubs :
    (stamp t : ℕ) (value rest : Bytes) (s : Stamped)
    → (t == 0) ≡ false
    → IsStampedSubs stamp rest s
    → IsStampedSubs stamp
        (t ∷ length value ∷ value ++ rest)
        (behind (t ∷ length value ∷ stamp_value stamp t value) s)
element-IsStampedSubs stamp t value rest s nz h =
    elim (Bool-cases (t == 3 && leb 4 (length value))) [
      | inl e ↦
          let three : t ≡ 3 = ground (arith, e) in
          let four : length (take 4 value) ≡ 4 = ground (arith, e, length-take 4 value) in
          let whole = take-drop 4 value in
          rw e (
            subst
              (λ (k : ℕ).
                IsStampedSubs stamp (k ∷ length value ∷ value ++ rest)
                  (behind (k ∷ length value ∷ be_bytes32 stamp ++ drop 4 value) s))
              (sym three)
              (subst
                (λ (v : Bytes).
                  IsStampedSubs stamp (3 ∷ length v ∷ v ++ rest)
                    (behind (3 ∷ length v ∷ be_bytes32 stamp ++ drop 4 value) s))
                whole (subs_time (take 4 value) (drop 4 value) rest s four h)))
      | inr e ↦
          let why : (t ≢ 3) ⊎ (length value < 4) = not_timestamp t (length value) e in
          rw e (subs_other t value rest s (ground (arith, nz)) why h)
    ]
  where
    not_timestamp : (t n : ℕ) → (t == 3 && leb 4 n) ≡ false → (t ≢ 3) ⊎ (n < 4)
    not_timestamp t n e = elim (Bool-cases (leb 4 n)) [
      | inl l ↦ inl (λ three. ground (arith, e, l, three))
      | inr l ↦ inr (ground (arith, l))
    ]

pub stamp_subs-IsStamped :
    (stamp fuel : ℕ) (bytes : Bytes)
    → length bytes < fuel
    → IsStampedSubs stamp bytes (stamp_subs fuel stamp bytes)
unfolding stamp_subs
stamp_subs-IsStamped stamp zero bytes h = absurd (omega arith)
stamp_subs-IsStamped stamp (suc fuel) bytes h =
    by_frame bytes (next_frame bytes) (next_frame-Framing bytes)
      (λ rest shorter. stamp_subs-IsStamped stamp fuel rest (omega arith))
  where
    by_frame :
        (bytes : Bytes) (f : Frame)
        → Framing bytes f
        → ((rest : Bytes)
            → length rest < length bytes
            → IsStampedSubs stamp rest (stamp_subs fuel stamp rest))
        → IsStampedSubs stamp bytes (subs_step stamp (stamp_subs fuel stamp) bytes f)
    by_frame _ done at_end ih = subs_end
    by_frame _ (pad _) (at_pad rest) ih = subs_pad rest _ (ih rest (omega arith))
    by_frame _ (cut _) (at_cut bytes t e) ih = subs_cut t bytes (next_frame-IsCut t bytes e)
    by_frame _ (element _ _ _) (at_element t value rest nz) ih =
        element-IsStampedSubs stamp t value rest _ nz
          (ih rest (omega (arith, length-append value rest)))
