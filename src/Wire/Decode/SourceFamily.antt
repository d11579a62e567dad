-- ===== src/Wire/Decode/SourceFamily.antt =====
-- The source prefix that decode_sub_tlvs of crates/babel-protocol/src/wire/decode.rs accepts is of the
-- family of the destination, so that a route key is made of the two.
use babel_rs.Base.{
  ℕ, ◌+◌, zero, suc, ◌≡◌, refl, subst, false, ◌||◌, none, some, ◌==◌, ltb, Bytes, length, take,
  drop, arith, inl, inr, Bool-cases, Option-cases,
}
use babel_rs.Base.Map.{is_some}
use babel_rs.Base.Results.{Result, ok, err}
use babel_rs.Model.{IpNet, other_family, route_key_new}
use babel_rs.Wire.{sub_pad1, AddressEncoding, is_wildcard, WireError, invalid_tlv}
use babel_rs.Wire.Frame.{Frame, done, pad, cut, element, next_frame, octet}
use babel_rs.Wire.Prefix.{prefix_encoded_len, decode_prefix}
use babel_rs.Wire.Decode.SubTlvs.{
  SubContext, in_hello, in_ihu, in_prefix, DecodedSubTlvs, no_sub_tlvs, add_value, family_differs,
  source_value, decode_source, decode_sub_tlv, sub_tlvs_loop, decode_sub_tlvs,
}

module _ {N : Type 0} ⦃net : IpNet N⦄ where
  IsSameFamily : N → DecodedSubTlvs N → Type 0
  IsSameFamily d r = other_family d r.source_prefix ≡ false

  source_value-IsSameFamily :
      (d : N) (ae : AddressEncoding) (body : Bytes) (r : DecodedSubTlvs N)
      → IsSameFamily d r
      → IsSameFamily d (source_value ae (some d) body r)
  unfolding source_value IsSameFamily
  source_value-IsSameFamily d ae body r h =
      elim (Option-cases (prefix_encoded_len ae (octet body 0))) [
        | inl e ↦ rw (source_value, e) h
        | inr (size, e) ↦ elim (Bool-cases (ltb (length body) (1 + size))) [
          | inl s ↦ rw (source_value, e, s) h
          | inr s ↦
              elim (Option-cases
                (decode_prefix {N = N} ae (octet body 0) 0 (take size (drop 1 body)) none)) [
                  | inl p ↦ rw (source_value, e, s, p) h
                  | inr (prefix, p) ↦ elim (Bool-cases (family_differs (some d) prefix)) [
                    | inl f ↦ rw (source_value, e, s, p, f) h
                    | inr f ↦ rw (source_value, e, s, p, f) (ground (arith, f))
                  ]
                ]
        ]
      ]

  decode_source-IsSameFamily :
      (d : N) (context : SubContext) (body : Bytes) (r : DecodedSubTlvs N)
      → IsSameFamily d r
      → IsSameFamily d (decode_source context (some d) body r)
  unfolding decode_source IsSameFamily
  decode_source-IsSameFamily d in_hello body r h = h
  decode_source-IsSameFamily d in_ihu body r h = h
  decode_source-IsSameFamily d (in_prefix ae) body r h =
      elim (Bool-cases
        (is_some r.source_prefix || is_wildcard ae || length body == 0 || octet body 0 == 0)) [
          | inl e ↦ rw e h
          | inr e ↦ rw e (source_value-IsSameFamily d ae body r h)
        ]

  decode_sub_tlv-IsSameFamily :
      (d : N) (context : SubContext) (t : ℕ) (body : Bytes) (r : DecodedSubTlvs N)
      → IsSameFamily d r
      → IsSameFamily d (decode_sub_tlv context (some d) t body r)
  unfolding decode_sub_tlv IsSameFamily
  decode_sub_tlv-IsSameFamily d context t body r h = elim (Bool-cases (t == 1)) [
    | inl a ↦ rw a h
    | inr a ↦ elim (Bool-cases (t == 3)) [
      | inl b ↦ rw (a, b) h
      | inr b ↦ elim (Bool-cases (t == 128)) [
        | inl c ↦ rw (a, b, c) (decode_source-IsSameFamily d context body r h)
        | inr c ↦ rw (a, b, c) h
      ]
    ]
  ]

  sub_tlvs_loop-IsSameFamily :
      (d : N) (context : SubContext) (fuel : ℕ) (bytes : Bytes) (r sub : DecodedSubTlvs N)
      → IsSameFamily d r
      → sub_tlvs_loop fuel bytes context (some d) r ≡ ok sub
      → IsSameFamily d sub
  unfolding sub_tlvs_loop IsSameFamily
  sub_tlvs_loop-IsSameFamily d context zero bytes r sub h e = absurd cc
  sub_tlvs_loop-IsSameFamily d context (suc fuel) bytes r sub h e =
      by_frame (next_frame bytes) (λ rest r'. sub_tlvs_loop-IsSameFamily d context fuel rest r' sub)
        e
    where
      by_frame :
          (f : Frame)
          → ((rest : Bytes) (r' : DecodedSubTlvs N)
              → IsSameFamily d r'
              → sub_tlvs_loop fuel rest context (some d) r' ≡ ok sub
              → IsSameFamily d sub)
          → ◌≡◌ {A = Result WireError (DecodedSubTlvs N)}
              (elim f [
                | done ↦ ok r
                | pad rest ↦ sub_tlvs_loop fuel rest context (some d) (add_value r sub_pad1)
                | cut type_ ↦ err (invalid_tlv type_)
                | element type_ body rest ↦
                    sub_tlvs_loop fuel rest context
                      (some d)
                      (decode_sub_tlv context (some d) type_ body r)
              ])
              (ok sub)
          → IsSameFamily d sub
      by_frame done ih e = let same : r ≡ sub = cc in subst (IsSameFamily d) same h
      by_frame (pad rest) ih e = ih rest (add_value r sub_pad1) h e
      by_frame (cut t) ih e = absurd cc
      by_frame (element t body rest) ih e =
          ih rest (decode_sub_tlv context (some d) t body r)
            (decode_sub_tlv-IsSameFamily d context t body r h) e

  -- A route key is made of a prefix and the source prefix of its sub-TLVs.
  pub route_key_new-decode_sub_tlvs :
      (d : N) (bytes : Bytes) (context : SubContext) (sub : DecodedSubTlvs N)
      → decode_sub_tlvs bytes context (some d) ≡ ok sub
      → ¬ (route_key_new d sub.source_prefix ≡ none)
  unfolding decode_sub_tlvs route_key_new IsSameFamily
  route_key_new-decode_sub_tlvs d bytes context sub e missing =
      let same =
        sub_tlvs_loop-IsSameFamily d context (suc (length bytes)) bytes no_sub_tlvs sub refl e in
      let made : some _ ≡ none = rw same at missing in absurd cc
