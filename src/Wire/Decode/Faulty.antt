-- ===== src/Wire/Decode/Faulty.antt =====
-- The faults of each kind of TLV in crates/babel-protocol/src/wire/decode.rs.
use babel_rs.Base.{
  false, ℕ, ◌+◌, ◌≡◌, ◌<◌, ◌⊎◌, refl, Bool, true, ◌||◌, ◌==◌, ltb, Option, none, some, Bytes,
  length, take, drop, arith, inl, inr,
}
use babel_rs.Base.Results.{err}
use babel_rs.Model.{IpNet, IpAddr, router_id_new, route_key_new}
use babel_rs.Wire.Prefix.{decode_address, prefix_encoded_len, decode_prefix}
use babel_rs.Wire.{
  ae_beq, ipv4_via_ipv6, AddressEncoding, ae_eq, from_u8, address_len, is_wildcard, invalid_tlv,
}
use babel_rs.Wire.Frame.{octet, be16}
use babel_rs.Wire.Decode.SubTlvs.{has_unknown_mandatory}
use babel_rs.Wire.Decode.Update.{ParserState}
use babel_rs.Wire.Decode.Tlvs.{
  decode_ack_request, decode_ack, decode_hello, finish_ihu, decode_ihu, decode_router_id,
  decode_next_hop, wildcard_route_request, decode_route_request, finish_seqno_request,
  decode_seqno_request,
}
use babel_rs.Wire.Faults.{
  FaultsIn, fine, fault, FaultsIn->>=, FaultsIn-if, FaultsIn-if-known, FaultsIn-option_known,
  FaultsIn->>=_known,
}
use babel_rs.Wire.Decode.Faults.{IsSubsFault, decode_sub_tlvs-FaultsIn}
use babel_rs.Wire.Decode.SourceFamily.{route_key_new-decode_sub_tlvs}
use babel_rs.Wire.Decode.Invalid.{
  least_length, fixed_start, ihu_start, next_hop_start, wildcard_start, request_start, IsInvalid,
  too_short, cut_sub, zero_ack_interval, zero_interval, bad_address, bad_router_id,
  bad_request_length, bad_request_prefix, no_hops_left, bad_requested_id,
}

pub below : (a b : ℕ) → ltb a b ≡ true → a < b
below a b h = ground (arith, h)

pub is_zero : (a : ℕ) → (a == 0) ≡ true → a ≡ 0
is_zero a h = ground (arith, h)

pub neither : (a b : Bool) → (a || b) ≡ false → (a ≡ false) × (b ≡ false)
neither a b h = ground (arith, h)

pub either : (a b : Bool) → (a || b) ≡ true → (a ≡ true) ⊎ (b ≡ true)
either a b h = ground (arith, h)

module _ (N : Type 0) ⦃net : IpNet N⦄ where
  pub short :
      {A : Type 0} (t : ℕ) (value : Bytes)
      → length value < least_length t
      → FaultsIn {A = A} (IsInvalid N t value) (err (invalid_tlv t))
  short t value h = fault (invalid_tlv t) (too_short t value h)

  unknown-FaultsIn : (bytes : Bytes) → FaultsIn (IsSubsFault bytes) (has_unknown_mandatory N bytes)
  unfolding has_unknown_mandatory
  unknown-FaultsIn bytes = FaultsIn->>= _ _ (decode_sub_tlvs-FaultsIn {N = N} _ _ _) (λ r. fine _)

  pub decode_ack_request-FaultsIn :
      (value : Bytes) (state : ParserState)
      → FaultsIn (IsInvalid N 2 value) (decode_ack_request {N = N} value state)
  unfolding decode_ack_request
  decode_ack_request-FaultsIn value state =
      FaultsIn-if-known _ _ _
        (λ e. fault (invalid_tlv 2) (elim (either (ltb (length value) 6) (be16 value 4 == 0) e) [
          | inl s ↦ too_short 2 value (below _ _ s)
          | inr z ↦ zero_ack_interval value (is_zero (be16 value 4) z)
        ]))
        (λ _.
          FaultsIn->>=_known _ _ (unknown-FaultsIn (drop 6 value))
            (λ e. cut_sub 2 value 6 e (fixed_start 2 value (inl refl)))
            (λ b _. FaultsIn-if b _ _ (fine _) (fine _)))

  pub decode_ack-FaultsIn :
      (value : Bytes) (state : ParserState)
      → FaultsIn (IsInvalid N 3 value) (decode_ack {N = N} value state)
  unfolding decode_ack
  decode_ack-FaultsIn value state =
      FaultsIn-if-known _ _ _ (λ e. short 3 value (below _ _ e))
        (λ _.
          FaultsIn->>=_known _ _ (unknown-FaultsIn (drop 2 value))
            (λ e. cut_sub 3 value 2 e (fixed_start 3 value (inr (inl refl))))
            (λ b _. FaultsIn-if b _ _ (fine _) (fine _)))

  pub decode_hello-FaultsIn :
      (value : Bytes) (state : ParserState)
      → FaultsIn (IsInvalid N 4 value) (decode_hello {N = N} value state)
  unfolding decode_hello
  decode_hello-FaultsIn value state =
      FaultsIn-if-known _ _ _ (λ e. short 4 value (below _ _ e))
        (λ _.
          FaultsIn->>=_known _ _ (decode_sub_tlvs-FaultsIn {N = N} _ _ _)
            (λ e. cut_sub 4 value 6 e (fixed_start 4 value (inr (inr (inl refl)))))
            (λ sub _. FaultsIn-if sub.mandatory_unknown _ _ (fine _) (fine _)))

  finish_ihu-FaultsIn :
      (value : Bytes) (ae : AddressEncoding) (address : Option IpAddr) (state : ParserState)
      → from_u8 (octet value 0) ≡ some ae
      → FaultsIn (IsInvalid N 5 value) (finish_ihu {N = N} value (address_len ae) address state)
  unfolding finish_ihu
  finish_ihu-FaultsIn value ae address state known =
      FaultsIn->>=_known _ _ (decode_sub_tlvs-FaultsIn {N = N} _ _ _)
        (λ e. cut_sub 5 value (6 + address_len ae) e (ihu_start value ae known))
        (λ sub _. FaultsIn-if sub.mandatory_unknown _ _ (fine _) (fine _))

  pub decode_ihu-FaultsIn :
      (value : Bytes) (state : ParserState)
      → FaultsIn (IsInvalid N 5 value) (decode_ihu {N = N} value state)
  unfolding decode_ihu
  decode_ihu-FaultsIn value state =
      FaultsIn-if-known _ _ _ (λ e. short 5 value (below _ _ e))
        (λ _.
          FaultsIn-option_known (from_u8 (octet value 0)) _ _ (λ _. fine _)
            (λ ae known.
              FaultsIn-if-known _ _ _ (λ _. fine _)
                (λ direct.
                  FaultsIn-if-known _ _ _
                    (λ e.
                      fault (invalid_tlv 5)
                        (elim (either (ltb (length value) (6 + address_len ae)) (be16 value 4 == 0)
                          e) [
                            | inl s ↦
                                bad_address 5 value ae (inl refl) known direct (inl (below _ _ s))
                            | inr z ↦
                                zero_interval 5 value ae (inl refl) known (inl direct)
                                  (is_zero (be16 value 4) z)
                          ]))
                    (λ _.
                      FaultsIn-if-known _ _ _ (λ _. finish_ihu-FaultsIn value ae none state known)
                        (λ given.
                          FaultsIn-option_known
                            (decode_address ae (take (address_len ae) (drop 6 value))) _ _
                            (λ e.
                              fault (invalid_tlv 5)
                                (bad_address 5 value ae (inl refl) known direct (inr (given, e))))
                            (λ a _. finish_ihu-FaultsIn value ae (some a) state known))))))

  pub decode_router_id-FaultsIn :
      (value : Bytes) (state : ParserState)
      → FaultsIn (IsInvalid N 6 value) (decode_router_id {N = N} value state)
  unfolding decode_router_id
  decode_router_id-FaultsIn value state =
      FaultsIn-if-known _ _ _ (λ e. short 6 value (below _ _ e))
        (λ _.
          FaultsIn-option_known (router_id_new (take 8 (drop 2 value))) _ _
            (λ e. fault (invalid_tlv 6) (bad_router_id value e))
            (λ id _.
              FaultsIn->>=_known _ _ (unknown-FaultsIn (drop 10 value))
                (λ e. cut_sub 6 value 10 e (fixed_start 6 value (inr (inr (inr refl)))))
                (λ b _. FaultsIn-if b _ _ (fine _) (fine _))))

  pub decode_next_hop-FaultsIn :
      (value : Bytes) (state : ParserState)
      → FaultsIn (IsInvalid N 7 value) (decode_next_hop {N = N} value state)
  unfolding decode_next_hop
  decode_next_hop-FaultsIn value state =
      FaultsIn-if-known _ _ _ (λ e. short 7 value (below _ _ e))
        (λ _.
          FaultsIn-option_known (from_u8 (octet value 0)) _ _ (λ _. fine _)
            (λ ae known.
              FaultsIn-if-known (is_wildcard ae || ae_beq ae ipv4_via_ipv6) _ _ (λ _. fine _)
                (λ other.
                  FaultsIn-if-known _ _ _
                    (λ s. fault (invalid_tlv 7) (
                      bad_address 7 value ae (inr refl) known
                        (neither (is_wildcard ae) (ae_beq ae ipv4_via_ipv6) other).1
                        (inl (below _ _ s))))
                    (λ _.
                      FaultsIn-option_known
                        (decode_address ae (take (address_len ae) (drop 2 value))) _ _
                        (λ e. fault (invalid_tlv 7) (
                          bad_address 7 value ae (inr refl) known
                            (neither (is_wildcard ae) (ae_beq ae ipv4_via_ipv6) other).1
                            (inr
                              ((neither (is_wildcard ae) (ae_beq ae ipv4_via_ipv6) other).0, e))))
                        (λ a _.
                          FaultsIn->>=_known _ _
                            (unknown-FaultsIn (drop (2 + address_len ae) value))
                            (λ e.
                              cut_sub 7 value (2 + address_len ae) e
                                (next_hop_start value ae known))
                            (λ b _. FaultsIn-if b _ _ (fine _) (fine _)))))))

  wildcard_route_request-FaultsIn :
      (value : Bytes) (state : ParserState) (ae : AddressEncoding)
      → from_u8 (octet value 0) ≡ some ae
      → is_wildcard ae ≡ true
      → FaultsIn (IsInvalid N 9 value) (wildcard_route_request {N = N} value state)
  unfolding wildcard_route_request
  wildcard_route_request-FaultsIn value state ae known wild = FaultsIn-if _ _ _ (fine _) (
      FaultsIn->>=_known _ _ (decode_sub_tlvs-FaultsIn {N = N} _ _ _)
        (λ e. cut_sub 9 value 2 e (wildcard_start 9 value ae (inr refl) known wild))
        (λ sub _. FaultsIn-if _ _ _ (fine _) (fine _)))

  pub decode_route_request-FaultsIn :
      (value : Bytes) (state : ParserState)
      → FaultsIn (IsInvalid N 9 value) (decode_route_request {N = N} value state)
  unfolding decode_route_request
  decode_route_request-FaultsIn value state =
      FaultsIn-if-known _ _ _ (λ e. short 9 value (below _ _ e))
        (λ _.
          FaultsIn-option_known (from_u8 (octet value 0)) _ _ (λ _. fine _)
            (λ ae known.
              FaultsIn-if-known _ _ _ (wildcard_route_request-FaultsIn value state ae known)
                (λ tame.
                  FaultsIn-option_known (prefix_encoded_len ae (octet value 1)) _ _
                    (λ e.
                      fault (invalid_tlv 9) (bad_request_length 9 value ae (inl refl) known tame e))
                    (λ size sized.
                      FaultsIn-if-known _ _ _
                        (λ s. fault (invalid_tlv 9) (
                          bad_request_prefix 9 value ae size (inl refl) known tame sized
                            (inl (below _ _ s))))
                        (λ _.
                          FaultsIn-option_known
                            (decode_prefix {N = N} ae (octet value 1) 0 (take size (drop 2 value))
                              none)
                            _ _
                            (λ e. fault (invalid_tlv 9) (
                              bad_request_prefix 9 value ae size (inl refl) known tame sized
                                (inr e)))
                            (λ prefix _.
                              FaultsIn->>=_known _ _ (decode_sub_tlvs-FaultsIn {N = N} _ _ _)
                                (λ e.
                                  cut_sub 9 value (2 + size) e
                                    (request_start 9 value ae size (inl refl) known sized))
                                (λ sub good. FaultsIn-if _ _ _ (fine _) (
                                  FaultsIn-option_known (route_key_new prefix sub.source_prefix) _ _
                                    (λ e.
                                      absurd (route_key_new-decode_sub_tlvs prefix _ _ sub good e))
                                    (λ key _. fine _)))))))))

  finish_seqno_request-FaultsIn :
      (ae : AddressEncoding) (size : ℕ) (value : Bytes) (state : ParserState)
      → from_u8 (octet value 0) ≡ some ae
      → is_wildcard ae ≡ false
      → prefix_encoded_len ae (octet value 1) ≡ some size
      → FaultsIn (IsInvalid N 10 value) (finish_seqno_request {N = N} ae size value state)
  unfolding finish_seqno_request
  finish_seqno_request-FaultsIn ae size value state known tame sized =
      FaultsIn-option_known (router_id_new (take 8 (drop 6 value))) _ _
        (λ e. fault (invalid_tlv 10) (bad_requested_id value ae known tame e))
        (λ id _.
          FaultsIn-option_known
            (decode_prefix {N = N} ae (octet value 1) 0 (take size (drop 14 value)) none) _ _
            (λ e.
              fault (invalid_tlv 10)
                (bad_request_prefix 10 value ae size (inr refl) known tame sized (inr e)))
            (λ prefix _.
              FaultsIn->>=_known _ _ (decode_sub_tlvs-FaultsIn {N = N} _ _ _)
                (λ e.
                  cut_sub 10 value (14 + size) e
                    (request_start 10 value ae size (inr refl) known sized))
                (λ sub good. FaultsIn-if _ _ _ (fine _) (
                  FaultsIn-option_known (route_key_new prefix sub.source_prefix) _ _
                    (λ e. absurd (route_key_new-decode_sub_tlvs prefix _ _ sub good e))
                    (λ key _. fine _)))))

  pub decode_seqno_request-FaultsIn :
      (value : Bytes) (state : ParserState)
      → FaultsIn (IsInvalid N 10 value) (decode_seqno_request {N = N} value state)
  unfolding decode_seqno_request
  decode_seqno_request-FaultsIn value state =
      FaultsIn-if-known _ _ _ (λ e. short 10 value (below _ _ e))
        (λ _.
          FaultsIn-option_known (from_u8 (octet value 0)) _ _ (λ _. fine _)
            (λ ae known.
              FaultsIn-if-known _ _ _ (λ _. fine _)
                (λ tame.
                  FaultsIn-option_known (prefix_encoded_len ae (octet value 1)) _ _
                    (λ e.
                      fault (invalid_tlv 10)
                        (bad_request_length 10 value ae (inr refl) known tame e))
                    (λ size sized.
                      FaultsIn-if-known _ _ _
                        (λ e.
                          fault (invalid_tlv 10)
                            (elim (either (ltb (length value) (14 + size)) (octet value 4 == 0) e) [
                              | inl s ↦
                                  bad_request_prefix 10 value ae size (inr refl) known tame sized
                                    (inl (below _ _ s))
                              | inr z ↦ no_hops_left value ae known tame (is_zero (octet value 4) z)
                            ]))
                        (λ _.
                          finish_seqno_request-FaultsIn ae size value state known tame sized)))))
