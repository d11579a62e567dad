-- ===== src/Wire/Packetizer.antt =====
-- crates/babel-protocol/src/wire/packetizer.rs: datagrams within a budget, and timestamps at sending.
pub mod Sizes
pub mod Stamp
pub mod Faults
pub mod Ends
use babel_rs.Base.{
  ℕ, zero, suc, ◌+◌, ◌-◌, min, Bool, true, false, not, ◌&&◌, ◌||◌, Option, none, some, List, [],
  ◌∷◌, ◌++◌, ltb, ◌==◌, if◌then◌else◌, Bytes, length, any,
}
use babel_rs.Base.Map.{is_some}
use babel_rs.Base.Results.{Result, ok, err, ◌>>=◌, ◌>>◌, guard}
use babel_rs.Base.Words.{be_bytes16}
use babel_rs.Model.{IpNet, is_ipv4, infinity, RouteKey}
use babel_rs.Wire.{
  SubTlv, sub_pad1, sub_pad_n, timestamp_hello, timestamp_ihu, source_prefix, sub_unknown,
  OutboundUpdate, OutboundTlv, OutboundPacket, pad1, pad_n, ack_request, ack, hello, ihu, update,
  route_request, seqno_request, unknown, WireError, invalid_tlv, body_too_large,
  packet_budget_too_small, packet_split_required, max_packet_size, out_of_fuel,
}
use babel_rs.Wire.Encode.{EncodeContext, fresh_context, encode_outbound_tlv}

-- A packet around a body, whose length must fit its field.
unfoldable pub finish_packet : Bytes → Result WireError Bytes
finish_packet body =
    if ltb 0xffff (length body)
    then err body_too_large
    else ok (42 ∷ 2 ∷ (be_bytes16 (length body) ++ body))

module _ {N : Type 0} where
  abbrev pub is_timestamp_hello : SubTlv N → Bool
  is_timestamp_hello sub_pad1 = false
  is_timestamp_hello (sub_pad_n v) = false
  is_timestamp_hello (timestamp_hello v) = true
  is_timestamp_hello (timestamp_ihu o r) = false
  is_timestamp_hello (source_prefix n) = false
  is_timestamp_hello (sub_unknown t v) = false

  abbrev pub is_timestamp_ihu : SubTlv N → Bool
  is_timestamp_ihu sub_pad1 = false
  is_timestamp_ihu (sub_pad_n v) = false
  is_timestamp_ihu (timestamp_hello v) = false
  is_timestamp_ihu (timestamp_ihu o r) = true
  is_timestamp_ihu (source_prefix n) = false
  is_timestamp_ihu (sub_unknown t v) = false

abbrev pub is_empty : Bytes → Bool
is_empty [] = true
is_empty (x ∷ xs) = false

-- What the packetizer asks of a TLV.
pub data Role : Type 0 where
  plain timestamped_ihu an_ihu : Role
  a_hello : (timestamped : Bool) → Role

abbrev pub is_hello_role : Role → Bool
is_hello_role plain = false
is_hello_role timestamped_ihu = false
is_hello_role an_ihu = false
is_hello_role (a_hello t) = true

abbrev pub is_ihu_role : Role → Bool
is_ihu_role plain = false
is_ihu_role timestamped_ihu = true
is_ihu_role an_ihu = true
is_ihu_role (a_hello t) = false

module _ {N : Type 0} where
  abbrev pub role : OutboundTlv N → Role
  role pad1 = plain
  role (pad_n v) = plain
  role (ack_request n i) = plain
  role (ack n) = plain
  role (hello u s i subs) = a_hello (any is_timestamp_hello subs)
  role (ihu a r i subs) = if any is_timestamp_ihu subs then timestamped_ihu else an_ihu
  role (update u) = plain
  role (route_request k subs) = plain
  role (seqno_request k s h r subs) = plain
  role (unknown t v) = plain

  -- The IHUs in front of a list, and what follows them.
  unfoldable pub span_ihus : List (OutboundTlv N) → List (OutboundTlv N) × List (OutboundTlv N)
  span_ihus [] = ([], [])
  span_ihus (t ∷ ts) =
      let (ihus, others) = span_ihus ts in
      if is_ihu_role (role t) then (t ∷ ihus, others) else ([], t ∷ ts)

  -- The TLV with those that must share its datagram, and the rest.
  unfoldable pub split_group :
      OutboundTlv N
      → List (OutboundTlv N)
      → Result WireError (List (OutboundTlv N) × List (OutboundTlv N))
  split_group t ts = elim (role t) [
    | plain ↦ ok (t ∷ [], ts)
    | an_ihu ↦ ok (t ∷ [], ts)
    | timestamped_ihu ↦ err (invalid_tlv 5)
    | a_hello timestamped ↦
        let (ihus, others) = span_ihus ts in
        if timestamped then ok (t ∷ ihus, others) else ok (t ∷ [], ts)
  ]

-- What the loop carries: the packets that are finished, the open body and its context.
pub record Packing : Type 0 where
  pub packets : List Bytes
  pub body : Bytes
  pub context : EncodeContext
  pub has_hello : Bool

abbrev pub packing_start : Packing
packing_start = record { packets = []; body = []; context = fresh_context; has_hello = false }

-- The open body is finished, and the context is forgotten.
unfoldable pub close_body : Packing → Result WireError Packing
close_body p = finish_packet p.body >>= λ packet. ok (record {
  packets = p.packets ++ (packet ∷ []);
  body = [];
  context = fresh_context;
  has_hello = false;
})

module _ {N : Type 0} ⦃net : IpNet N⦄ where
  abbrev pub is_ipv6_key : Option (RouteKey N) → Bool
  is_ipv6_key none = false
  is_ipv6_key (some key) = not (is_ipv4 (net.addr key.destination))

  abbrev pub update_requires_fresh : OutboundUpdate N → EncodeContext → Bool
  update_requires_fresh u context =
      if u.metric == infinity || is_some u.next_hop
      then false
      else if u.v4_via_v6 || is_ipv6_key u.key
      then is_some context.next_hop_v6
      else is_some context.next_hop_v4

  -- `requires_fresh_next_hop_context`.
  abbrev pub requires_fresh : OutboundTlv N → EncodeContext → Bool
  requires_fresh (update u) context = update_requires_fresh u context
  requires_fresh pad1 context = false
  requires_fresh (pad_n v) context = false
  requires_fresh (ack_request n i) context = false
  requires_fresh (ack n) context = false
  requires_fresh (hello u s i subs) context = false
  requires_fresh (ihu a r i subs) context = false
  requires_fresh (route_request k subs) context = false
  requires_fresh (seqno_request k s h r subs) context = false
  requires_fresh (unknown t v) context = false

  unfoldable pub encode_group :
      List (OutboundTlv N) → EncodeContext → Result WireError (Bytes × EncodeContext)
  encode_group [] context = ok ([], context)
  encode_group (t ∷ ts) context = do
    first ← encode_outbound_tlv t context
    rest ← encode_group ts (first.1)
    ok (first.0 ++ rest.0, rest.1)

  -- A group that fits the budget, if it has a packet of its own.
  unfoldable pub encode_within :
      ℕ → List (OutboundTlv N) → EncodeContext → Result WireError (Bytes × EncodeContext)
  encode_within budget group context = do
    encoded ← encode_group group context
    guard (not (ltb budget (length (encoded.0)))) body_too_large
    ok encoded

  -- A packet boundary in front of the group for the sake of its context.
  unfoldable pub break_before : OutboundTlv N → Packing → Result WireError Packing
  break_before t p =
      if not (is_empty p.body)
        && (requires_fresh t p.context || (is_hello_role (role t) && p.has_hello))
      then close_body p
      else ok p

  abbrev pub append_group : OutboundTlv N → Packing → Bytes × EncodeContext → Packing
  append_group t p encoded = record p {
    body = p.body ++ encoded.0;
    context = encoded.1;
    has_hello = p.has_hello || is_hello_role (role t);
  }

  -- The group joins the open body if it fits, or else starts the next one.
  unfoldable pub place_group :
      ℕ → OutboundTlv N → List (OutboundTlv N) → Packing → Result WireError Packing
  place_group budget t group p = encode_within budget group p.context >>= λ encoded.
      if not (is_empty p.body) && ltb budget (length p.body + length (encoded.0))
      then (close_body p >>= λ closed.
          encode_within budget group closed.context >>= λ again. ok (append_group t closed again))
      else ok (append_group t p encoded)

  -- The loop over the groups, with a round for each TLV.
  unfoldable pub pack_loop : ℕ → ℕ → List (OutboundTlv N) → Packing → Result WireError Packing
  pack_loop zero budget ts p = err out_of_fuel
  pack_loop (suc fuel) budget [] p = ok p
  pack_loop (suc fuel) budget (t ∷ ts) p = elim (split_group t ts) [
    | err e ↦ err e
    | ok group ↦ elim (break_before t p >>= place_group budget t (group.0)) [
      | err e ↦ err e
      | ok next ↦ pack_loop fuel budget (group.1) next
    ]
  ]

  unfoldable pub encode_packets : OutboundPacket N → ℕ → Result WireError (List Bytes)
  encode_packets packet max_size = if ltb max_size 4 then err packet_budget_too_small else (do
    packed ←
        pack_loop (suc (length packet.tlvs)) (min max_size max_packet_size - 4) packet.tlvs
          packing_start
    closed ← close_body packed
    ok closed.packets)

  -- `encode_packet`.
  unfoldable pub encode_packet : OutboundPacket N → Result WireError Bytes
  encode_packet packet = encode_packets packet max_packet_size >>= λ packets. elim packets [
    | [] ↦ err packet_split_required
    | one ∷ more ↦ elim more [ [] ↦ ok one | _ ∷ _ ↦ err packet_split_required ]
  ]
