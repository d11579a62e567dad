-- ===== src/Wire/Decode.antt =====
-- crates/babel-protocol/src/wire/decode.rs: `decode_packet`. A TLV that is ignored gives `none`.
pub mod SubTlvs
pub mod Update
pub mod Tlvs
pub mod Faults
pub mod SourceFamily
pub mod Invalid
pub mod Faulty
pub mod FaultyUpdate
pub mod Ends
