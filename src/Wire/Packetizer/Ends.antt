-- ===== src/Wire/Packetizer/Ends.antt =====
-- How `encode_packets` of crates/babel-protocol/src/wire/packetizer.rs ends: its errors and its loop.
use babel_rs.Base.{
  ℕ, zero, suc, ◌≤◌, ◌<◌, ◌≡◌, Bool, true, false, List, [], ◌∷◌, if◌then◌else◌, length, arith, inl,
  inr, Bool-cases,
}
use babel_rs.Base.Results.{Result, ok, err, ◌>>=◌}
use babel_rs.Model.{IpNet}
use babel_rs.Wire.{OutboundTlv, OutboundPacket, WireError, invalid_tlv, packet_budget_too_small}
use babel_rs.Wire.Faults.{FaultsIn, fine, fault, FaultsIn->>=, FaultsIn-if, fault_of}
use babel_rs.Wire.Packetizer.{
  Packing, packing_start, close_body, break_before, place_group, Role, plain, an_ihu,
  timestamped_ihu, a_hello, role, is_ihu_role, split_group, span_ihus, pack_loop, encode_packets,
}
use babel_rs.Wire.Packetizer.Faults.{
  IsEncodeFault, finish_packet-FaultsIn, break_before-FaultsIn, place_group-FaultsIn,
}

-- A group that is split off leaves no more TLVs than stood behind its first.
data Shrinks {N : Type 0} (n : ℕ)
    : Result WireError (List (OutboundTlv N) × List (OutboundTlv N)) → Type 0 where
  shrinks : (g : List (OutboundTlv N) × List (OutboundTlv N)) → length (g.1) ≤ n → Shrinks n (ok g)
  refused : (e : WireError) → IsEncodeFault e → Shrinks n (err e)

module _ {N : Type 0} where
  Shrinks-if :
      (n : ℕ) (b : Bool) (x y : Result WireError (List (OutboundTlv N) × List (OutboundTlv N)))
      → Shrinks n x
      → Shrinks n y
      → Shrinks n (if b then x else y)
  Shrinks-if n true x y hx hy = hx
  Shrinks-if n false x y hx hy = hy

  span_ihus-shorter : (ts : List (OutboundTlv N)) → length ((span_ihus ts).1) ≤ length ts
  unfolding span_ihus
  span_ihus-shorter [] = omega arith
  span_ihus-shorter (t ∷ ts) = elim (Bool-cases (is_ihu_role (role t))) [
    | inl e ↦ rw e (omega (arith, span_ihus-shorter ts))
    | inr e ↦ rw e (omega arith)
  ]

  split_group-Shrinks :
      (t : OutboundTlv N) (ts : List (OutboundTlv N)) → Shrinks (length ts) (split_group t ts)
  unfolding split_group
  split_group-Shrinks t ts = by_role (role t)
    where
      by_role :
          (r : Role)
          → Shrinks (length ts) (elim r [
            | plain ↦ ok (t ∷ [], ts)
            | an_ihu ↦ ok (t ∷ [], ts)
            | timestamped_ihu ↦ err (invalid_tlv 5)
            | a_hello timestamped ↦
                if timestamped then ok (t ∷ (span_ihus ts).0, (span_ihus ts).1) else ok (t ∷ [], ts)
          ])
      by_role plain = shrinks (t ∷ [], ts) (omega arith)
      by_role an_ihu = shrinks (t ∷ [], ts) (omega arith)
      by_role timestamped_ihu = refused (invalid_tlv 5) tt
      by_role (a_hello timestamped) =
          Shrinks-if (length ts) timestamped _ _
            (shrinks (t ∷ (span_ihus ts).0, (span_ihus ts).1) (span_ihus-shorter ts))
            (shrinks (t ∷ [], ts) (omega arith))

module _ {N : Type 0} ⦃net : IpNet N⦄ where
  pack_loop-FaultsIn :
      (fuel budget : ℕ) (ts : List (OutboundTlv N)) (p : Packing)
      → length ts < fuel
      → FaultsIn IsEncodeFault (pack_loop fuel budget ts p)
  unfolding pack_loop
  pack_loop-FaultsIn zero budget ts p h = absurd (omega arith)
  pack_loop-FaultsIn (suc fuel) budget [] p h = fine p
  pack_loop-FaultsIn (suc fuel) budget (t ∷ ts) p h =
      by_group (split_group t ts) (split_group-Shrinks t ts)
        (λ rest next s. pack_loop-FaultsIn fuel budget rest next (omega arith))
    where
      by_next :
          (r : Result WireError Packing) (rest : List (OutboundTlv N))
          → FaultsIn IsEncodeFault r
          → ((next : Packing) → FaultsIn IsEncodeFault (pack_loop fuel budget rest next))
          → FaultsIn IsEncodeFault
              (elim r [ err e ↦ err e | ok next ↦ pack_loop fuel budget rest next ])
      by_next (ok next) rest f ih = ih next
      by_next (err e) rest (fault _ f) ih = fault e f

      by_group :
          (r : Result WireError (List (OutboundTlv N) × List (OutboundTlv N)))
          → Shrinks (length ts) r
          → ((rest : List (OutboundTlv N)) (next : Packing)
              → length rest ≤ length ts
              → FaultsIn IsEncodeFault (pack_loop fuel budget rest next))
          → FaultsIn IsEncodeFault (elim r [
            | err e ↦ err e
            | ok group ↦ elim (break_before t p >>= place_group budget t (group.0)) [
              | err e ↦ err e
              | ok next ↦ pack_loop fuel budget (group.1) next
            ]
          ])
      by_group (err e) (refused _ f) ih = fault e f
      by_group (ok group) (shrinks _ s) ih =
          by_next (break_before t p >>= place_group budget t (group.0)) (group.1)
            (FaultsIn->>= _ _ (break_before-FaultsIn t p)
              (λ broken. place_group-FaultsIn budget t (group.0) broken))
            (λ next. ih (group.1) next s)

  encode_packets-FaultsIn :
      (packet : OutboundPacket N) (max_size : ℕ)
      → FaultsIn IsEncodeFault (encode_packets packet max_size)
  unfolding encode_packets close_body
  encode_packets-FaultsIn packet max_size = FaultsIn-if _ _ _ (fault packet_budget_too_small tt) (
      FaultsIn->>= _ _
        (pack_loop-FaultsIn (suc (length packet.tlvs)) _ packet.tlvs packing_start (omega arith))
        (λ packed. search (fine, FaultsIn->>=, finish_packet-FaultsIn)))

  -- Encoding a packet ends: with datagrams, or with an error that says the budget or a body is too
  -- large or too small, an Update has no router id, or a TLV is invalid; it never runs out of rounds.
  pub encode_packets-IsEncodeFault :
      (packet : OutboundPacket N) (max_size : ℕ) (e : WireError)
      → encode_packets packet max_size ≡ err e
      → IsEncodeFault e
  encode_packets-IsEncodeFault packet max_size e h =
      fault_of (encode_packets-FaultsIn packet max_size) h
