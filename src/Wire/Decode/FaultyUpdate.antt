-- ===== src/Wire/Decode/FaultyUpdate.antt =====
-- The faults of an Update, and of any TLV, in crates/babel-protocol/src/wire/decode.rs.
use babel_rs.Base.{
  false, ℕ, ◌+◌, ◌-◌, ◌≡◌, refl, sym, subst, true, not, ◌||◌, ◌==◌, ltb, some, Bytes, length, take,
  drop, arith, inl, inr, if◌then◌else◌,
}
use babel_rs.Model.{IpNet, infinity, RouteKey, route_key_new}
use babel_rs.Base.Map.{lookup}
use babel_rs.Wire.Prefix.{prefix_encoded_len, decode_prefix}
use babel_rs.Wire.{AddressEncoding, ae_eq, from_u8, is_wildcard, WireError, invalid_tlv}
use babel_rs.Wire.Frame.{octet, be16}
use babel_rs.Wire.Decode.SubTlvs.{DecodedSubTlvs}
use babel_rs.Wire.Decode.Update.{
  ParserState, Decoded, context_next_hop, resolve_update, finish_update, wildcard_update,
  prefix_update, decode_update,
}
use babel_rs.Wire.Decode.Tlvs.{decode_tlv}
use babel_rs.Wire.Faults.{
  FaultsIn, fine, fault, FaultsIn-if, FaultsIn-option, FaultsIn-if-known, FaultsIn-option_known,
  FaultsIn->>=_known,
}
use babel_rs.Wire.Decode.Faults.{decode_sub_tlvs-FaultsIn}
use babel_rs.Wire.Decode.SourceFamily.{route_key_new-decode_sub_tlvs}
use babel_rs.Wire.Decode.Invalid.{
  SubsStart, wildcard_start, update_start, IsInvalid, cut_sub, zero_interval, bad_update_length,
  bad_update_size,
}
use babel_rs.Wire.Decode.Faulty.{
  below, is_zero, either, short, decode_ack_request-FaultsIn, decode_ack-FaultsIn,
  decode_hello-FaultsIn, decode_ihu-FaultsIn, decode_router_id-FaultsIn, decode_next_hop-FaultsIn,
  decode_route_request-FaultsIn, decode_seqno_request-FaultsIn,
}

module _ (N : Type 0) ⦃net : IpNet N⦄ where
  wildcard_update-FaultsIn :
      (value : Bytes) (state : ParserState) (ae : AddressEncoding)
      → from_u8 (octet value 0) ≡ some ae
      → is_wildcard ae ≡ true
      → FaultsIn (IsInvalid N 8 value) (wildcard_update {N = N} value state)
  unfolding wildcard_update
  wildcard_update-FaultsIn value state ae known wild =
      FaultsIn-if (not (be16 value 8 == infinity)) _ _ (fine _) (
        FaultsIn-if (not (octet value 2 == 0) || not (octet value 3 == 0)) _ _ (fine _) (
          FaultsIn->>=_known _ _ (decode_sub_tlvs-FaultsIn {N = N} _ _ _)
            (λ e. cut_sub 8 value 10 e (wildcard_start 8 value ae (inl refl) known wild))
            (λ sub _. FaultsIn-if _ _ _ (fine _) (fine _))))

  resolve_update-FaultsIn :
      (P : WireError → Type 0) (ae : AddressEncoding) (value : Bytes) (prefix : N)
      (key : RouteKey N) (sub : DecodedSubTlvs N) (state : ParserState)
      → FaultsIn P (resolve_update ae value prefix key sub state)
  unfolding resolve_update
  resolve_update-FaultsIn P ae value prefix key sub state = FaultsIn-if _ _ _ (fine _) (
      FaultsIn-option state.router_id _ _ (fine _)
        (λ id. FaultsIn-option (context_next_hop ae _ state) _ _ (fine _) (λ hop. fine _)))

  finish_update-FaultsIn :
      (ae : AddressEncoding) (value : Bytes) (natural : ℕ) (prefix : N) (state : ParserState)
      → SubsStart 8 value natural
      → FaultsIn (IsInvalid N 8 value) (finish_update ae value natural prefix state)
  unfolding finish_update
  finish_update-FaultsIn ae value natural prefix state starts =
      FaultsIn->>=_known _ _ (decode_sub_tlvs-FaultsIn {N = N} _ _ _)
        (λ e. cut_sub 8 value natural e starts)
        (λ sub good. FaultsIn-if _ _ _ (fine _) (
          FaultsIn-option_known (route_key_new prefix sub.source_prefix) _ _
            (λ e. absurd (route_key_new-decode_sub_tlvs prefix _ _ sub good e))
            (λ key _. resolve_update-FaultsIn (IsInvalid N 8 value) ae value prefix key sub _)))

  prefix_update-FaultsIn :
      (ae : AddressEncoding) (value : Bytes) (state : ParserState)
      → from_u8 (octet value 0) ≡ some ae
      → is_wildcard ae ≡ false
      → FaultsIn (IsInvalid N 8 value) (prefix_update {N = N} ae value state)
  unfolding prefix_update
  prefix_update-FaultsIn ae value state known tame =
      FaultsIn-if-known _ _ _ (λ _. fine _)
        (λ whole.
          FaultsIn-option_known (prefix_encoded_len ae (octet value 2)) _ _
            (λ e. fault (invalid_tlv 8) (bad_update_length value ae known tame whole e))
            (λ size sized.
              FaultsIn-if-known _ _ _
                (λ e. fault (invalid_tlv 8) (
                  bad_update_size value ae size known tame whole sized
                    (elim (either (ltb size (octet value 3))
                      (ltb (length value) (10 + size - octet value 3)) e) [
                        | inl s ↦ inl (below _ _ s)
                        | inr s ↦ inr (below _ _ s)
                      ])))
                (λ _.
                  FaultsIn-option
                    (decode_prefix {N = N} ae (octet value 2) (octet value 3)
                      (take (size - octet value 3) (drop 10 value)) (lookup ae state.prefixes))
                    _ _ (fine _)
                    (λ prefix.
                      finish_update-FaultsIn ae value _ prefix state
                        (update_start value ae size known sized)))))

  decode_update-FaultsIn :
      (value : Bytes) (state : ParserState)
      → FaultsIn (IsInvalid N 8 value) (decode_update {N = N} value state)
  unfolding decode_update
  decode_update-FaultsIn value state =
      FaultsIn-if-known _ _ _ (λ e. short N 8 value (below _ _ e))
        (λ _.
          FaultsIn-option_known (from_u8 (octet value 0)) _ _ (λ _. fine _)
            (λ ae known.
              FaultsIn-if-known _ _ _
                (λ z.
                  fault (invalid_tlv 8) (
                    zero_interval 8 value ae (inr refl) known (inr refl)
                      (is_zero (be16 value 4) z)))
                (λ _.
                  FaultsIn-if-known _ _ _ (wildcard_update-FaultsIn value state ae known)
                    (λ tame. prefix_update-FaultsIn ae value state known tame))))

  -- A branch on the type of a TLV.
  by_type :
      (t n : ℕ) (value : Bytes) (x y : Decoded N)
      → FaultsIn (IsInvalid N n value) x
      → FaultsIn (IsInvalid N t value) y
      → FaultsIn (IsInvalid N t value) (if t == n then x else y)
  by_type t n value x y hx hy =
      FaultsIn-if-known (t == n) x y
        (λ e.
          let same : t ≡ n = ground (arith, e) in
          subst (λ (k : ℕ). FaultsIn (IsInvalid N k value) x) (sym same) hx)
        (λ _. hy)

  pub decode_tlv-FaultsIn :
      (type_ : ℕ) (value : Bytes) (state : ParserState)
      → FaultsIn (IsInvalid N type_ value) (decode_tlv {N = N} type_ value state)
  unfolding decode_tlv
  decode_tlv-FaultsIn t value state = by_type t 1 value _ _ (fine _) (
      by_type t 2 value _ _ (decode_ack_request-FaultsIn N value state) (
        by_type t 3 value _ _ (decode_ack-FaultsIn N value state) (
          by_type t 4 value _ _ (decode_hello-FaultsIn N value state) (
            by_type t 5 value _ _ (decode_ihu-FaultsIn N value state) (
              by_type t 6 value _ _ (decode_router_id-FaultsIn N value state) (
                by_type t 7 value _ _ (decode_next_hop-FaultsIn N value state) (
                  by_type t 8 value _ _ (decode_update-FaultsIn value state) (
                    by_type t 9 value _ _ (decode_route_request-FaultsIn N value state) (
                      by_type t 10 value _ _ (decode_seqno_request-FaultsIn N value state)
                        (fine _))))))))))
