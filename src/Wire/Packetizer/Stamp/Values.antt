-- ===== src/Wire/Packetizer/Stamp/Values.antt =====
-- Stamping the sub-TLVs of a TLV twice.
use babel_rs.Base.{
  ℕ, zero, suc, ◌≡◌, refl, sym, subst, ap, ◌∙◌, true, false, ◌&&◌, [], ◌∷◌, ◌++◌, ltb, leb, ◌==◌,
  Bytes, length, take, drop, arith, inl, inr, Bool-cases, length-append, length-take, length-drop,
  take-append, drop-append,
}
use babel_rs.Base.Words.{be_bytes32}
use babel_rs.Wire.Framing.{Framing, at_end, at_pad, at_cut, at_element, next_frame-Framing}
use babel_rs.Wire.Frame.{Frame, done, pad, cut, element, next_frame}
use babel_rs.Wire.Packetizer.Stamp.{Stamped, behind, stamp_value, subs_step, stamp_subs, stamp_tlv}

pub next_frame-element :
    (t n : ℕ) (value rest : Bytes)
    → (t == 0) ≡ false
    → n ≡ length value
    → next_frame (t ∷ n ∷ value ++ rest) ≡ element t value rest
unfolding next_frame
next_frame-element t n value rest nz e =
    let fits : ltb (length (value ++ rest)) n ≡ false = ground (arith, length-append value rest) in
    rw (nz, fits, take-append value rest n e, drop-append value rest n e) refl

-- A stamped value has the length it had, and the time stamp that is written last.
length-stamp_value :
    (stamp t : ℕ) (value : Bytes) → length (stamp_value stamp t value) ≡ length value
length-stamp_value stamp t value = elim (Bool-cases (t == 3 && leb 4 (length value))) [
  | inl e ↦ rw e (ground (arith, e, length-drop 4 value))
  | inr e ↦ rw e refl
]

stamp_value-twice :
    (stamp later t : ℕ) (value : Bytes)
    → stamp_value later t (stamp_value stamp t value) ≡ stamp_value later t value
stamp_value-twice stamp later t value = elim (Bool-cases (t == 3 && leb 4 (length value))) [
  | inl e ↦
      let still : (t == 3 && leb 4 (length (be_bytes32 stamp ++ drop 4 value))) ≡ true =
        ground (arith, e) in
      rw (e, still) refl
  | inr e ↦ rw e (rw e refl)
]

-- Stamping again what a round stamped, by the rounds behind it.
unfoldable pub Settles : (Bytes → Stamped) → (Bytes → Stamped) → Type 0
Settles first again = (bytes : Bytes) → again ((first bytes).1) ≡ again bytes

subs_round :
    (later fuel : ℕ) (bytes : Bytes) (f : Frame)
    → next_frame bytes ≡ f
    → stamp_subs (suc fuel) later bytes ≡ subs_step later (stamp_subs fuel later) bytes f
unfolding stamp_subs
subs_round later fuel bytes f h = ap (subs_step later (stamp_subs fuel later) bytes) h

pub next_frame-nil : next_frame [] ≡ done
unfolding next_frame
next_frame-nil = refl

pub next_frame-pad : (rest : Bytes) → next_frame (0 ∷ rest) ≡ pad rest
unfolding next_frame
next_frame-pad rest = refl

-- A round reads the same frame after it was stamped, with the value stamped.
subs_step-Settles :
    (stamp later fuel : ℕ) (bytes : Bytes) (f : Frame)
    → Framing bytes f
    → Settles (stamp_subs fuel stamp) (stamp_subs fuel later)
    → stamp_subs (suc fuel) later ((subs_step stamp (stamp_subs fuel stamp) bytes f).1)
      ≡ subs_step later (stamp_subs fuel later) bytes f
unfolding Settles
subs_step-Settles stamp later fuel _ done at_end ih = subs_round later fuel [] done next_frame-nil
subs_step-Settles stamp later fuel _ (pad _) (at_pad rest) ih =
    subs_round later fuel (0 ∷ (stamp_subs fuel stamp rest).1) _ (next_frame-pad _)
    ∙ ap (behind (0 ∷ [])) (ih rest)
subs_step-Settles stamp later fuel bytes (cut _) (at_cut _ t e) ih =
    subs_round later fuel bytes (cut t) e
subs_step-Settles stamp later fuel _ (element _ _ _) (at_element t value rest nz) ih =
    let n = length-stamp_value stamp t value in
    subs_round later fuel _ _
      (next_frame-element t (length value) (stamp_value stamp t value) _ nz (sym n))
    ∙ ap (λ (w : Bytes). behind (t ∷ w) (stamp_subs fuel later ((stamp_subs fuel stamp rest).1)))
        (ap (λ (k : ℕ). k ∷ stamp_value later t (stamp_value stamp t value)) n
          ∙ ap (λ (w : Bytes). length value ∷ w) (stamp_value-twice stamp later t value))
    ∙ ap (behind (t ∷ length value ∷ stamp_value later t value)) (ih rest)

stamp_subs-Settles :
    (stamp later fuel : ℕ) → Settles (stamp_subs fuel stamp) (stamp_subs fuel later)
unfolding stamp_subs Settles
stamp_subs-Settles stamp later zero bytes = refl
stamp_subs-Settles stamp later (suc fuel) bytes =
    subs_step-Settles stamp later fuel bytes (next_frame bytes) (next_frame-Framing bytes)
      (stamp_subs-Settles stamp later fuel)

-- Stamping keeps the length of what it stamps, and its result does not depend on the time.
unfoldable pub KeepsLength : (Bytes → Stamped) → Type 0
KeepsLength first = (bytes : Bytes) → length ((first bytes).1) ≡ length bytes

stamp_subs-KeepsLength : (stamp fuel : ℕ) → KeepsLength (stamp_subs fuel stamp)
unfolding stamp_subs KeepsLength
stamp_subs-KeepsLength stamp zero bytes = refl
stamp_subs-KeepsLength stamp (suc fuel) bytes =
    by_frame bytes (next_frame bytes) (next_frame-Framing bytes) (stamp_subs-KeepsLength stamp fuel)
  where
    by_frame :
        (bytes : Bytes) (f : Frame)
        → Framing bytes f
        → ((rest : Bytes) → length ((stamp_subs fuel stamp rest).1) ≡ length rest)
        → length ((subs_step stamp (stamp_subs fuel stamp) bytes f).1) ≡ length bytes
    by_frame _ done at_end ih = refl
    by_frame _ (pad _) (at_pad rest) ih = omega (arith, ih rest)
    by_frame _ (cut _) (at_cut _ t e) ih = refl
    by_frame _ (element _ _ _) (at_element t value rest nz) ih = omega (
      arith,
      ih rest,
      length-append value rest,
      length-stamp_value stamp t value,
      length-append (stamp_value stamp t value) ((stamp_subs fuel stamp rest).1),
    )

stamp_subs-result :
    (a b fuel : ℕ) (bytes : Bytes) → (stamp_subs fuel a bytes).0 ≡ (stamp_subs fuel b bytes).0
unfolding stamp_subs
stamp_subs-result a b zero bytes = refl
stamp_subs-result a b (suc fuel) bytes = by_frame (next_frame bytes) (stamp_subs-result a b fuel)
  where
    by_frame :
        (f : Frame)
        → ((rest : Bytes) → (stamp_subs fuel a rest).0 ≡ (stamp_subs fuel b rest).0)
        → (subs_step a (stamp_subs fuel a) bytes f).0 ≡ (subs_step b (stamp_subs fuel b) bytes f).0
    by_frame done ih = refl
    by_frame (pad rest) ih = ih rest
    by_frame (cut t) ih = refl
    by_frame (element t value rest) ih = ih rest

pub length-stamp_tlv :
    (stamp t : ℕ) (value : Bytes) → length ((stamp_tlv stamp t value).1) ≡ length value
unfolding stamp_tlv KeepsLength
length-stamp_tlv stamp t value = elim (Bool-cases (t == 4 && leb 6 (length value))) [
  | inl e ↦ rw e (
      ground (
        arith,
        e,
        length-take 6 value,
        length-drop 6 value,
        stamp_subs-KeepsLength stamp (suc (length value)) (drop 6 value),
        length-append (take 6 value) ((stamp_subs (suc (length value)) stamp (drop 6 value)).1),
      ))
  | inr e ↦ rw e refl
]

pub stamp_tlv-result :
    (a b t : ℕ) (value : Bytes) → (stamp_tlv a t value).0 ≡ (stamp_tlv b t value).0
unfolding stamp_tlv
stamp_tlv-result a b t value = elim (Bool-cases (t == 4 && leb 6 (length value))) [
  | inl e ↦ rw e (stamp_subs-result a b (suc (length value)) (drop 6 value))
  | inr e ↦ rw e refl
]

pub stamp_tlv-hello :
    (stamp t : ℕ) (value : Bytes)
    → (t == 4 && leb 6 (length value)) ≡ true
    → stamp_tlv stamp t value
      ≡ behind (take 6 value) (stamp_subs (suc (length value)) stamp (drop 6 value))
unfolding stamp_tlv
stamp_tlv-hello stamp t value e = rw e refl

unstamped :
    (stamp t : ℕ) (value : Bytes)
    → (t == 4 && leb 6 (length value)) ≡ false
    → (stamp_tlv stamp t value).1 ≡ value
unfolding stamp_tlv
unstamped stamp t value e = rw e refl

pub stamp_tlv-again :
    (stamp later t : ℕ) (value : Bytes)
    → stamp_tlv later t ((stamp_tlv stamp t value).1) ≡ stamp_tlv later t value
unfolding Settles
stamp_tlv-again stamp later t value = elim (Bool-cases (t == 4 && leb 6 (length value))) [
  | inl e ↦
      let subs = (stamp_subs (suc (length value)) stamp (drop 6 value)).1 in
      let stamped : (stamp_tlv stamp t value).1 ≡ take 6 value ++ subs =
        ap (λ (s : Stamped). s.1) (stamp_tlv-hello stamp t value e) in
      let n : length (take 6 value ++ subs) ≡ length value =
        subst (λ (w : Bytes). length w ≡ length value) stamped (length-stamp_tlv stamp t value) in
      let six : 6 ≡ length (take 6 value) = ground (arith, e, length-take 6 value) in
      let again : (t == 4 && leb 6 (length (take 6 value ++ subs))) ≡ true = rw n e in
      ap (stamp_tlv later t) stamped
      ∙ stamp_tlv-hello later t (take 6 value ++ subs) again
      ∙ rw (n, take-append (take 6 value) subs 6 six, drop-append (take 6 value) subs 6 six)
          (ap (behind (take 6 value))
            (stamp_subs-Settles stamp later (suc (length value)) (drop 6 value)))
      ∙ sym (stamp_tlv-hello later t value e)
  | inr e ↦ ap (stamp_tlv later t) (unstamped stamp t value e)
]
