-- ===== src/Examples/Packets.antt =====
-- Packets that are encoded, stamped and decoded.
use babel_rs.Base.{◌≡◌, refl, some, [], ◌∷◌, ◌++◌, arith, Bytes, All, length, drop}
use babel_rs.Base.Results.{ok, err}
use babel_rs.Model.{IpAddr, v4}
use babel_rs.Wire.{OutboundPacket, ack, ipv4, unsupported_version, body_too_large}
use babel_rs.Wire.Frame.{put_tlv, next_frame}
use babel_rs.Wire.Prefix.{decode_prefix, prefix_wire_bytes, prefix_encoded_len}
use babel_rs.Wire.Prefix.Canonical.{IsCanonical, decode_prefix-prefix_wire_bytes}
use babel_rs.Wire.Decode.Tlvs.{decode_packet}
use babel_rs.Wire.Decode.Ends.{IsFaultOf, decode_packet-IsFaultOf}
use babel_rs.Wire.Encode.{encode_outbound_tlv}
use babel_rs.Wire.Packetizer.{
  encode_packets, pack_loop, split_group, place_group, break_before, close_body, finish_packet,
  encode_group, encode_within,
}
use babel_rs.Wire.Packetizer.Sizes.{IsDatagram, encode_packets-IsDatagram}
use babel_rs.Wire.Packetizer.Faults.{IsEncodeFault}
use babel_rs.Wire.Packetizer.Ends.{encode_packets-IsEncodeFault}
use babel_rs.Wire.Packetizer.Stamp.{stamp_hello_timestamps, stamp_body, stamp_tlv, stamp_subs}
use babel_rs.Wire.Packetizer.Stamp.Datagram.{IsStampedDatagram, stamp_hello_timestamps_lem}
use babel_rs.Examples.Prefixes.{Prefix, prefix_net, network_prefix}

network_prefix-IsCanonical : IsCanonical network_prefix
network_prefix-IsCanonical = record {
  counted = refl;
  small = (omega arith, (omega arith, (omega arith, (omega arith, tt))));
  in_range = omega arith;
  no_host_bits = refl;
}

network_octets : prefix_wire_bytes network_prefix ipv4 ≡ 10 ∷ 1 ∷ []
unfolding prefix_wire_bytes prefix_encoded_len
network_octets = refl

-- The first octet is taken from the default prefix 10.99.0.0, and the octet behind is left.
decode_prefix-prefix_wire_bytes_example :
    decode_prefix ipv4 16 1
      (drop 1 (prefix_wire_bytes network_prefix ipv4) ++ (7 ∷ []))
      (some (10 ∷ 99 ∷ 0 ∷ 0 ∷ []))
    ≡ some network_prefix
unfolding prefix_wire_bytes prefix_encoded_len
decode_prefix-prefix_wire_bytes_example =
    decode_prefix-prefix_wire_bytes ipv4 network_prefix 1 (10 ∷ 99 ∷ 0 ∷ 0 ∷ []) (7 ∷ [])
      network_prefix-IsCanonical tt (omega arith) (omega arith) refl

abbrev version_three : Bytes
version_three = 42 ∷ 3 ∷ 0 ∷ 0 ∷ []

abbrev sender : IpAddr
sender = v4 (10 ∷ 0 ∷ 0 ∷ 1 ∷ [])

version_refused : decode_packet {N = Prefix} version_three sender ≡ err (unsupported_version 3)
unfolding decode_packet
version_refused = refl

decode_packet-IsFaultOf_example : IsFaultOf Prefix version_three (unsupported_version 3)
decode_packet-IsFaultOf_example =
    decode_packet-IsFaultOf {N = Prefix} version_three sender (unsupported_version 3)
      version_refused

abbrev two_acks : OutboundPacket Prefix
two_acks = record { tlvs = ack 1 ∷ ack 2 ∷ [] }

-- Eight octets are a header and one acknowledgment.
acks_split :
    encode_packets two_acks 8
    ≡ ok ((42 ∷ 2 ∷ 0 ∷ 4 ∷ 3 ∷ 2 ∷ 0 ∷ 1 ∷ []) ∷ (42 ∷ 2 ∷ 0 ∷ 4 ∷ 3 ∷ 2 ∷ 0 ∷ 2 ∷ []) ∷ [])
unfolding encode_packets pack_loop split_group place_group break_before close_body finish_packet
    encode_group encode_within encode_outbound_tlv put_tlv
acks_split = refl

encode_packets-IsDatagram_example :
    All
      (IsDatagram 8)
      ((42 ∷ 2 ∷ 0 ∷ 4 ∷ 3 ∷ 2 ∷ 0 ∷ 1 ∷ []) ∷ (42 ∷ 2 ∷ 0 ∷ 4 ∷ 3 ∷ 2 ∷ 0 ∷ 2 ∷ []) ∷ [])
encode_packets-IsDatagram_example = encode_packets-IsDatagram two_acks 8 _ acks_split

acks_refused : encode_packets two_acks 7 ≡ err body_too_large
unfolding encode_packets pack_loop split_group place_group break_before close_body finish_packet
    encode_group encode_within encode_outbound_tlv put_tlv
acks_refused = refl

encode_packets-IsEncodeFault_example : IsEncodeFault body_too_large
encode_packets-IsEncodeFault_example =
    encode_packets-IsEncodeFault two_acks 7 body_too_large acks_refused

-- A Hello with a timestamp.
abbrev stamped_hello : Bytes
stamped_hello = 42 ∷ 2 ∷ 0 ∷ 14 ∷ 4 ∷ 12 ∷ 0 ∷ 0 ∷ 0 ∷ 1 ∷ 1 ∷ 144 ∷ 3 ∷ 4 ∷ 0 ∷ 0 ∷ 0 ∷ 0 ∷ []

hello_stamped :
    (stamp_hello_timestamps stamped_hello 0x01020304).1
    ≡ 42 ∷ 2 ∷ 0 ∷ 14 ∷ 4 ∷ 12 ∷ 0 ∷ 0 ∷ 0 ∷ 1 ∷ 1 ∷ 144 ∷ 3 ∷ 4 ∷ 1 ∷ 2 ∷ 3 ∷ 4 ∷ []
unfolding stamp_hello_timestamps stamp_body stamp_tlv stamp_subs next_frame
hello_stamped = refl

stamp_hello_timestamps_lem_example :
    IsStampedDatagram 7 stamped_hello (stamp_hello_timestamps stamped_hello 7)
    × (length ((stamp_hello_timestamps stamped_hello 7).1) ≡ length stamped_hello)
    × (stamp_hello_timestamps ((stamp_hello_timestamps stamped_hello 7).1) 0x01020304
        ≡ stamp_hello_timestamps stamped_hello 0x01020304)
stamp_hello_timestamps_lem_example = stamp_hello_timestamps_lem stamped_hello 7 0x01020304
