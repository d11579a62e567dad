-- ===== src/Wire/Packetizer/Sizes.antt =====
-- The datagrams of `encode_packets` are whole packets within the budget.
use babel_rs.Base.{
  ℕ, zero, suc, ◌+◌, ◌-◌, ◌≤◌, ◌≡◌, refl, subst, min, true, not, ◌&&◌, ◌||◌, List, [], ◌∷◌, ◌++◌,
  ltb, arith, inl, inr, Bool-cases, Bytes, length, length-append, All,
}
use babel_rs.Base.Results.{Result, ok, err, ◌>>=◌, >>=-eq-ok, Result-cases}
use babel_rs.Base.Words.{be_bytes16}
use babel_rs.Model.{IpNet}
use babel_rs.Wire.{OutboundTlv, OutboundPacket, max_packet_size, WireError}
use babel_rs.Wire.Encode.{EncodeContext}
use babel_rs.Wire.Packetizer.{
  Packing, packing_start, finish_packet, close_body, encode_group, encode_within, break_before,
  place_group, append_group, is_empty, requires_fresh, is_hello_role, role, split_group, pack_loop,
  encode_packets,
}

-- A packet within `size`: the header, a length field that counts the body, and the body.
unfoldable pub IsDatagram : ℕ → Bytes → Type 0
IsDatagram size packet =
    (body : Bytes) × (packet ≡ 42 ∷ 2 ∷ (be_bytes16 (length body) ++ body))
    × (length body ≤ 0xffff)
    × (length packet ≤ size)

-- Finished packets are datagrams, and the open body is within the budget.
abbrev IsPacking : ℕ → Packing → Type 0
IsPacking budget p = All (IsDatagram (budget + 4)) p.packets × (length p.body ≤ budget)

unwrap : {A : Type 0} {a b : A} → ◌≡◌ {A = Result WireError A} (ok a) (ok b) → a ≡ b
unwrap h = cc

absurd_ok {ℓ} : {A : Type 0} {e : WireError} {a : A} {X : Type ℓ} → err e ≡ ok a → X
absurd_ok h = cc

All-snoc :
    (P : Bytes → Type 0) (xs : List Bytes) (x : Bytes) → All P xs → P x → All P (xs ++ (x ∷ []))
All-snoc P [] x hs h = (h, tt)
All-snoc P (y ∷ ys) x hs h = (hs.0, All-snoc P ys x hs.1 h)

finish_packet-IsDatagram :
    (budget : ℕ) (body : Bytes) {packet : Bytes}
    → length body ≤ budget
    → finish_packet body ≡ ok packet
    → IsDatagram (budget + 4) packet
unfolding finish_packet IsDatagram
finish_packet-IsDatagram budget body h e = (body, ground arith, ground arith, ground arith)

empty_body : (body : Bytes) → is_empty body ≡ true → length body ≡ 0
empty_body [] h = refl
empty_body (x ∷ xs) h = cc

close_body-IsPacking :
    (budget : ℕ) (p : Packing) {q : Packing}
    → IsPacking budget p
    → close_body p ≡ ok q
    → IsPacking budget q × (q.body ≡ [])
unfolding close_body
close_body-IsPacking budget p h e =
    let (packet, made, e1) = >>=-eq-ok (finish_packet p.body) _ e in
    let whole = finish_packet-IsDatagram budget p.body h.1 made in
    let all = All-snoc (IsDatagram (budget + 4)) p.packets packet h.0 whole in ground (arith, all)

module _ {N : Type 0} ⦃net : IpNet N⦄ where
  encode_within-le :
      (budget : ℕ) (group : List (OutboundTlv N)) (context : EncodeContext)
      {encoded : Bytes × EncodeContext}
      → encode_within budget group context ≡ ok encoded
      → length encoded.0 ≤ budget
  unfolding encode_within
  encode_within-le budget group context e =
      let (x, made, e1) = >>=-eq-ok (encode_group group context) _ e in ground arith

  break_before-IsPacking :
      (budget : ℕ) (t : OutboundTlv N) (p : Packing) {q : Packing}
      → IsPacking budget p
      → break_before t p ≡ ok q
      → IsPacking budget q
  unfolding break_before
  break_before-IsPacking budget t p {q} h e =
      elim (Bool-cases (
        not (is_empty p.body)
        && (requires_fresh t p.context || (is_hello_role (role t) && p.has_hello)))) [
          | inl b ↦ (close_body-IsPacking budget p h (rw b at e)).0
          | inr b ↦ let same : ok p ≡ ok q = rw b at e in ground (arith, h)
        ]

  append_group-IsPacking :
      (budget : ℕ) (t : OutboundTlv N) (p : Packing) (encoded : Bytes × EncodeContext)
      → IsPacking budget p
      → length p.body + length encoded.0 ≤ budget
      → IsPacking budget (append_group t p encoded)
  append_group-IsPacking budget t p encoded h fits =
      (h.0, omega (arith, length-append p.body encoded.0))

  place_group-IsPacking :
      (budget : ℕ) (t : OutboundTlv N) (group : List (OutboundTlv N)) (p : Packing) {q : Packing}
      → IsPacking budget p
      → place_group budget t group p ≡ ok q
      → IsPacking budget q
  unfolding place_group
  place_group-IsPacking budget t group p {q} h e =
      let (encoded, made, e1) = >>=-eq-ok (encode_within budget group p.context) _ e in
      let small = encode_within-le budget group p.context made in
      elim (Bool-cases (not (is_empty p.body) && ltb budget (length p.body + length encoded.0))) [
        | inl full ↦
            let (closed, shut, e2) = >>=-eq-ok (close_body p) _ (rw full at e1) in
            let (again, remade, e3) = >>=-eq-ok (encode_within budget group closed.context) _ e2 in
            let (whole, blank) = close_body-IsPacking budget p h shut in
            let low = encode_within-le budget group closed.context remade in
            let fits : length closed.body + length again.0 ≤ budget =
              rw blank (omega (arith, low)) in
            subst (IsPacking budget) (unwrap e3)
              (append_group-IsPacking budget t closed again whole fits)
        | inr room ↦ subst (IsPacking budget) (unwrap (rw room at e1)) (
            append_group-IsPacking budget t p encoded h
              (ground (arith, room, empty_body p.body, small)))
      ]

  pack_loop-IsPacking :
      (fuel budget : ℕ) (ts : List (OutboundTlv N)) (p : Packing) {q : Packing}
      → IsPacking budget p
      → pack_loop fuel budget ts p ≡ ok q
      → IsPacking budget q
  unfolding pack_loop
  pack_loop-IsPacking zero budget ts p h e = cc
  pack_loop-IsPacking (suc fuel) budget [] p h e = subst (IsPacking budget) (unwrap e) h
  pack_loop-IsPacking (suc fuel) budget (t ∷ ts) p h e = elim (Result-cases (split_group t ts)) [
    | inr (x, bad) ↦ absurd_ok (rw (pack_loop, bad) at e)
    | inl (group, split) ↦ elim (Result-cases (break_before t p >>= place_group budget t group.0)) [
      | inr (x, bad) ↦ absurd_ok (rw (pack_loop, split, bad) at e)
      | inl (next, placed) ↦
          let (broken, broke, e1) =
            >>=-eq-ok (break_before t p) (place_group budget t group.0) placed in
          pack_loop-IsPacking fuel budget group.1 next
            (place_group-IsPacking budget t group.0 broken
              (break_before-IsPacking budget t p h broke) e1)
            (rw (pack_loop, split, placed) at e)
    ]
  ]

  -- Every datagram that `encode_packets` returns is the header, a length field that counts the body,
  -- and the body, and is no longer than the budget it was given, nor than the largest packet.
  pub encode_packets-IsDatagram :
      (packet : OutboundPacket N) (max_size : ℕ) (packets : List Bytes)
      → encode_packets packet max_size ≡ ok packets
      → All (IsDatagram (min max_size max_packet_size)) packets
  unfolding encode_packets
  encode_packets-IsDatagram packet max_size packets e = elim (Bool-cases (ltb max_size 4)) [
    | inl small ↦ absurd_ok (rw small at e)
    | inr enough ↦
        let budget = min max_size max_packet_size - 4 in
        let (packed, looped, e1) =
          >>=-eq-ok (pack_loop (suc (length packet.tlvs)) budget packet.tlvs packing_start) _
            (rw enough at e) in
        let (closed, shut, e2) = >>=-eq-ok (close_body packed) _ e1 in
        let start : IsPacking budget packing_start = (tt, omega arith) in
        let whole =
          pack_loop-IsPacking (suc (length packet.tlvs)) budget packet.tlvs packing_start start
            looped in
        let size : budget + 4 ≡ min max_size max_packet_size = ground arith in
        subst (λ n. All (IsDatagram n) packets) size
          (subst (All (IsDatagram (budget + 4))) (unwrap e2)
            (close_body-IsPacking budget packed whole shut).0.0)
  ]
