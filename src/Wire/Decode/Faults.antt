-- ===== src/Wire/Decode/Faults.antt =====
-- The faults of the sub-TLVs in crates/babel-protocol/src/wire/decode.rs, and their loop.
use babel_rs.Base.{ℕ, zero, suc, ◌<◌, Option, ◌∷◌, ◌++◌, Bytes, length, arith, length-append}
use babel_rs.Base.Results.{ok, err}
use babel_rs.Model.{IpNet}
use babel_rs.Wire.{sub_pad1, WireError, invalid_tlv}
use babel_rs.Wire.Faults.{FaultsIn, fine, fault, FaultsIn-weaken}
use babel_rs.Wire.Frame.{Frame, done, pad, cut, element, next_frame}
use babel_rs.Wire.Framing.{
  Framing, at_end, at_pad, at_cut, at_element, next_frame-Framing, IsCut, next_frame-IsCut,
  StandsIn, in_front, behind_pad, behind_element,
}
use babel_rs.Wire.Decode.SubTlvs.{
  SubContext, DecodedSubTlvs, no_sub_tlvs, add_value, decode_sub_tlv, sub_tlvs_loop,
  decode_sub_tlvs,
}

-- The fault of sub-TLVs: behind whole ones, one of the type that is reported is cut off.
pub data IsSubsFault : Bytes → WireError → Type 0 where
  cut_sub_tlv :
      (bytes rest : Bytes) (t : ℕ)
      → StandsIn bytes rest
      → IsCut t rest
      → IsSubsFault bytes (invalid_tlv t)

pad-IsSubsFault : (rest : Bytes) (e : WireError) → IsSubsFault rest e → IsSubsFault (0 ∷ rest) e
pad-IsSubsFault rest _ (cut_sub_tlv _ tail t s c) =
    cut_sub_tlv (0 ∷ rest) tail t (behind_pad rest tail s) c

element-IsSubsFault :
    (t : ℕ) (value rest : Bytes)
    → 0 < t
    → (e : WireError) → IsSubsFault rest e
    → IsSubsFault (t ∷ length value ∷ value ++ rest) e
element-IsSubsFault t value rest pos _ (cut_sub_tlv _ tail u s c) =
    cut_sub_tlv _ tail u (behind_element t value rest tail pos s) c

module _ {N : Type 0} ⦃net : IpNet N⦄ where
  sub_tlvs_loop-FaultsIn :
      (fuel : ℕ) (bytes : Bytes) (context : SubContext) (destination : Option N)
      (r : DecodedSubTlvs N)
      → length bytes < fuel
      → FaultsIn (IsSubsFault bytes) (sub_tlvs_loop fuel bytes context destination r)
  unfolding sub_tlvs_loop
  sub_tlvs_loop-FaultsIn zero bytes context destination r h = absurd (omega arith)
  sub_tlvs_loop-FaultsIn (suc fuel) bytes context destination r h =
      by_frame bytes (next_frame bytes) (next_frame-Framing bytes)
        (λ rest r' s. sub_tlvs_loop-FaultsIn fuel rest context destination r' (omega arith))
    where
      by_frame :
          (bytes : Bytes) (f : Frame)
          → Framing bytes f
          → ((rest : Bytes) (r' : DecodedSubTlvs N)
              → length rest < length bytes
              → FaultsIn (IsSubsFault rest) (sub_tlvs_loop fuel rest context destination r'))
          → FaultsIn (IsSubsFault bytes) (elim f [
            | done ↦ ok r
            | pad rest ↦ sub_tlvs_loop fuel rest context destination (add_value r sub_pad1)
            | cut type_ ↦ err (invalid_tlv type_)
            | element type_ body rest ↦
                sub_tlvs_loop fuel rest context destination
                  (decode_sub_tlv context destination type_ body r)
          ])
      by_frame _ done at_end ih = fine r
      by_frame _ (pad _) (at_pad rest) ih =
          FaultsIn-weaken (pad-IsSubsFault rest) (ih rest (add_value r sub_pad1) (omega arith))
      by_frame _ (cut _) (at_cut bytes t e) ih =
          fault (invalid_tlv t)
            (cut_sub_tlv bytes bytes t (in_front bytes) (next_frame-IsCut t bytes e))
      by_frame _ (element _ _ _) (at_element t body rest nz) ih =
          FaultsIn-weaken (element-IsSubsFault t body rest (ground (arith, nz))) (
            ih rest (decode_sub_tlv context destination t body r)
              (omega (arith, length-append body rest)))

  pub decode_sub_tlvs-FaultsIn :
      (bytes : Bytes) (context : SubContext) (destination : Option N)
      → FaultsIn (IsSubsFault bytes) (decode_sub_tlvs bytes context destination)
  unfolding decode_sub_tlvs
  decode_sub_tlvs-FaultsIn bytes context destination =
      sub_tlvs_loop-FaultsIn (suc (length bytes)) bytes context destination no_sub_tlvs
        (omega arith)
