-- ===== src/Wire/Decode/Ends.antt =====
-- How `decode_packet` of crates/babel-protocol/src/wire/decode.rs ends.
use babel_rs.Base.{
  ℕ, zero, suc, ◌+◌, ◌<◌, ◌≡◌, refl, true, not, List, [], ◌∷◌, ◌++◌, ltb, ◌==◌, Bytes, length, take,
  drop, arith, length-append,
}
use babel_rs.Base.Results.{ok, err}
use babel_rs.Base.Words.{from_be16}
use babel_rs.Model.{IpNet, IpAddr}
use babel_rs.Wire.{
  WireError, short_header, bad_magic, unsupported_version, truncated_body, truncated_tlv,
}
use babel_rs.Wire.Inbound.{Tlv, pad1}
use babel_rs.Wire.Frame.{Frame, done, pad, cut, element, next_frame, octet, be16}
use babel_rs.Wire.Framing.{
  Framing, at_end, at_pad, at_cut, at_element, next_frame-Framing, IsCut, next_frame-IsCut,
  StandsIn, in_front, behind_pad, behind_element,
}
use babel_rs.Wire.Decode.Update.{ParserState, Decoded, parser_new}
use babel_rs.Wire.Decode.Tlvs.{push_some, decode_tlv, body_loop, decode_body, decode_packet}
use babel_rs.Wire.Decode.Invalid.{IsInvalid}
use babel_rs.Wire.Decode.FaultyUpdate.{decode_tlv-FaultsIn}
use babel_rs.Wire.Faults.{
  FaultsIn, fine, fault, FaultsIn->>=, fault_of, FaultsIn-weaken, FaultsIn-if-known,
}

-- The fault of a body: behind whole TLVs, one of the type that is reported is cut off, or one is
-- invalid.
pub data IsBodyFault (N : Type 0) ⦃net : IpNet N⦄ : Bytes → WireError → Type 0 where
  cut_tlv :
      (body rest : Bytes) (t : ℕ)
      → StandsIn body rest
      → IsCut t rest
      → IsBodyFault N body (truncated_tlv t)
  invalid_at :
      (body : Bytes) (t : ℕ) (value rest : Bytes) (e : WireError)
      → StandsIn body (t ∷ length value ∷ value ++ rest)
      → IsInvalid N t value e
      → IsBodyFault N body e

module _ {N : Type 0} ⦃net : IpNet N⦄ where
  pad-IsBodyFault :
      (rest : Bytes) (e : WireError) → IsBodyFault N rest e → IsBodyFault N (0 ∷ rest) e
  pad-IsBodyFault rest _ (cut_tlv _ tail t s c) =
      cut_tlv (0 ∷ rest) tail t (behind_pad rest tail s) c
  pad-IsBodyFault rest _ (invalid_at _ t value tail e s c) =
      invalid_at (0 ∷ rest) t value tail e (behind_pad rest _ s) c

  element-IsBodyFault :
      (k : ℕ) (front rest : Bytes)
      → 0 < k
      → (e : WireError) → IsBodyFault N rest e
      → IsBodyFault N (k ∷ length front ∷ front ++ rest) e
  element-IsBodyFault k front rest pos _ (cut_tlv _ tail t s c) =
      cut_tlv _ tail t (behind_element k front rest tail pos s) c
  element-IsBodyFault k front rest pos _ (invalid_at _ t value tail e s c) =
      invalid_at _ t value tail e (behind_element k front rest _ pos s) c

  body_loop-FaultsIn :
      (fuel : ℕ) (bytes : Bytes) (state : ParserState) (tlvs : List (Tlv N))
      → length bytes < fuel
      → FaultsIn (IsBodyFault N bytes) (body_loop fuel bytes state tlvs)
  unfolding body_loop
  body_loop-FaultsIn zero bytes state tlvs h = absurd (omega arith)
  body_loop-FaultsIn (suc fuel) bytes state tlvs h =
      by_frame bytes (next_frame bytes) (next_frame-Framing bytes)
        (λ rest after more s. body_loop-FaultsIn fuel rest after more (omega arith))
    where
      by_tlv :
          (r : Decoded N) (t : ℕ) (value rest : Bytes)
          → 0 < t
          → FaultsIn (IsInvalid N t value) r
          → ((after : ParserState) (more : List (Tlv N))
              → FaultsIn (IsBodyFault N rest) (body_loop fuel rest after more))
          → FaultsIn (IsBodyFault N (t ∷ length value ∷ value ++ rest)) (elim r [
            | err e ↦ err e
            | ok decoded ↦ body_loop fuel rest decoded.1 (push_some tlvs decoded.0)
          ])
      by_tlv (ok d) t value rest pos f ih =
          FaultsIn-weaken (element-IsBodyFault t value rest pos) (ih d.1 (push_some tlvs d.0))
      by_tlv (err e) t value rest pos (fault _ f) ih =
          fault e (invalid_at _ t value rest e (in_front _) f)

      by_frame :
          (bytes : Bytes) (f : Frame)
          → Framing bytes f
          → ((rest : Bytes) (after : ParserState) (more : List (Tlv N))
              → length rest < length bytes
              → FaultsIn (IsBodyFault N rest) (body_loop fuel rest after more))
          → FaultsIn (IsBodyFault N bytes) (elim f [
            | done ↦ ok tlvs
            | pad rest ↦ body_loop fuel rest state (tlvs ++ (pad1 ∷ []))
            | cut type_ ↦ err (truncated_tlv type_)
            | element type_ value rest ↦ elim (decode_tlv {N = N} type_ value state) [
              | err e ↦ err e
              | ok decoded ↦ body_loop fuel rest decoded.1 (push_some tlvs decoded.0)
            ]
          ])
      by_frame _ done at_end ih = fine tlvs
      by_frame _ (pad _) (at_pad rest) ih =
          FaultsIn-weaken (pad-IsBodyFault rest) (ih rest state _ (omega arith))
      by_frame _ (cut _) (at_cut bytes t e) ih =
          fault (truncated_tlv t)
            (cut_tlv bytes bytes t (in_front bytes) (next_frame-IsCut t bytes e))
      by_frame _ (element _ _ _) (at_element t value rest nz) ih =
          by_tlv (decode_tlv t value state) t value rest (ground (arith, nz))
            (decode_tlv-FaultsIn N t value state)
            (λ after more. ih rest after more (omega (arith, length-append value rest)))

-- The body of a datagram, by the length in its header.
abbrev pub body_of : Bytes → Bytes
body_of bytes = take (be16 bytes 2) (drop 4 bytes)

-- What is wrong with a datagram for an error.
pub data IsFaultOf (N : Type 0) ⦃net : IpNet N⦄ : Bytes → WireError → Type 0 where
  is_short : (bytes : Bytes) → length bytes < 4 → IsFaultOf N bytes short_header
  other_magic : (bytes : Bytes) → ¬ (octet bytes 0 ≡ 42) → IsFaultOf N bytes bad_magic
  other_version :
      (bytes : Bytes) (v : ℕ)
      → octet bytes 1 ≡ v
      → ¬ (v ≡ 2)
      → IsFaultOf N bytes (unsupported_version v)
  is_truncated :
      (bytes : Bytes) → length bytes < 4 + be16 bytes 2 → IsFaultOf N bytes truncated_body
  in_body : (bytes : Bytes) (e : WireError) → IsBodyFault N (body_of bytes) e → IsFaultOf N bytes e

differs : (a b : ℕ) → not (a == b) ≡ true → ¬ (a ≡ b)
differs a b h = ground arith

too_short_body :
    (rest : Bytes) (n : ℕ)
    → ltb (length rest) n ≡ true
    → suc (suc (suc (suc (length rest)))) < 4 + n
too_short_body rest n h = ground arith

module _ {N : Type 0} ⦃net : IpNet N⦄ where
  decode_body-FaultsIn :
      (body : Bytes) (source : IpAddr)
      → FaultsIn (IsBodyFault N body) (decode_body {N = N} body source)
  unfolding decode_body
  decode_body-FaultsIn body source =
      body_loop-FaultsIn (suc (length body)) body (parser_new source) [] (omega arith)

  decode_packet-FaultsIn :
      (bytes : Bytes) (source : IpAddr)
      → FaultsIn (IsFaultOf N bytes) (decode_packet {N = N} bytes source)
  unfolding decode_packet
  decode_packet-FaultsIn [] source = fault short_header (is_short _ (omega arith))
  decode_packet-FaultsIn (a ∷ []) source = fault short_header (is_short _ (omega arith))
  decode_packet-FaultsIn (a ∷ b ∷ []) source = fault short_header (is_short _ (omega arith))
  decode_packet-FaultsIn (a ∷ b ∷ c ∷ []) source = fault short_header (is_short _ (omega arith))
  decode_packet-FaultsIn (magic ∷ version ∷ high ∷ low ∷ rest) source =
      FaultsIn-if-known (not (magic == 42)) _ _
        (λ e. fault bad_magic (other_magic _ (differs magic 42 e)))
        (λ _.
          FaultsIn-if-known (not (version == 2)) _ _
            (λ e.
              fault (unsupported_version version)
                (other_version _ version refl (differs version 2 e)))
            (λ _.
              FaultsIn-if-known (ltb (length rest) (from_be16 high low)) _ _
                (λ e.
                  fault truncated_body
                    (is_truncated _ (too_short_body rest (from_be16 high low) e)))
                (λ _.
                  FaultsIn->>= _ _
                    (FaultsIn-weaken (in_body (magic ∷ version ∷ high ∷ low ∷ rest))
                      (decode_body-FaultsIn (take (from_be16 high low) rest) source))
                    (λ tlvs. fine _))))

  -- Decoding that fails says what is wrong with the datagram: a header that is short, the magic
  -- octet, the version and its value, or a body shorter than it says; or in the body, behind whole
  -- TLVs, the type of a TLV that is cut off, or the type of one that is invalid: shorter than its kind
  -- asks for, with an interval or a hop count of zero that may not be, with an address, a prefix or
  -- a router id that is none, or with a cut-off sub-TLV, whose type is then named, in the place of
  -- its sub-TLVs. No other error is given, and what these TLVs say decides, not the context.
  pub decode_packet-IsFaultOf :
      (bytes : Bytes) (source : IpAddr) (e : WireError)
      → decode_packet {N = N} bytes source ≡ err e
      → IsFaultOf N bytes e
  decode_packet-IsFaultOf bytes source e h = fault_of (decode_packet-FaultsIn bytes source) h
