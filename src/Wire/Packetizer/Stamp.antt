-- ===== src/Wire/Packetizer/Stamp.antt =====
-- `stamp_hello_timestamps` of crates/babel-protocol/src/wire/packetizer.rs: what it returns, and the
-- octets behind the call, which are also written where it fails later.
pub mod Values
pub mod Overwrite
pub mod Written
pub mod Datagram
use babel_rs.Base.{
  ℕ, zero, suc, ◌+◌, Bool, true, false, not, ◌&&◌, List, [], ◌∷◌, ◌++◌, ltb, leb, ◌==◌,
  if◌then◌else◌, Bytes, length, take, drop,
}
use babel_rs.Base.Results.{Result, ok, err}
use babel_rs.Base.Words.{from_be16, be_bytes32}
use babel_rs.Wire.{
  WireError, invalid_tlv, truncated_tlv, short_header, bad_magic, unsupported_version,
  truncated_body, out_of_fuel,
}
use babel_rs.Wire.Frame.{Frame, done, pad, cut, element, next_frame}

abbrev pub Stamped : Type 0
Stamped = Result WireError (Unit {0}) × Bytes

abbrev pub behind : Bytes → Stamped → Stamped
behind front s = (s.0, front ++ s.1)

abbrev pub stamp_value : ℕ → ℕ → Bytes → Bytes
stamp_value timestamp sub_type value =
    if sub_type == 3 && leb 4 (length value) then be_bytes32 timestamp ++ drop 4 value else value

-- A round of the loop over sub-TLVs, by the frame at its front and the rounds behind it.
abbrev pub subs_step : ℕ → (Bytes → Stamped) → Bytes → Frame → Stamped
subs_step timestamp later bytes done = (ok tt, [])
subs_step timestamp later bytes (pad rest) = behind (0 ∷ []) (later rest)
subs_step timestamp later bytes (cut type_) = (err (invalid_tlv 4), bytes)
subs_step timestamp later bytes (element type_ value rest) =
    behind (type_ ∷ length value ∷ stamp_value timestamp type_ value) (later rest)

unfoldable pub stamp_subs : ℕ → ℕ → Bytes → Stamped
stamp_subs zero timestamp bytes = (err out_of_fuel, bytes)
stamp_subs (suc fuel) timestamp bytes =
    subs_step timestamp (stamp_subs fuel timestamp) bytes (next_frame bytes)

unfoldable pub stamp_tlv : ℕ → ℕ → Bytes → Stamped
stamp_tlv timestamp type_ value =
    if type_ == 4 && leb 6 (length value)
    then behind (take 6 value) (stamp_subs (suc (length value)) timestamp (drop 6 value))
    else (ok tt, value)

abbrev pub stamp_next : ℕ → Bytes → Stamped → Bytes → Stamped → Stamped
stamp_next type_ value stamped rest later = elim (stamped.0) [
  | err e ↦ (err e, type_ ∷ length value ∷ stamped.1 ++ rest)
  | ok _ ↦ behind (type_ ∷ length value ∷ stamped.1) later
]

abbrev pub body_step : ℕ → (Bytes → Stamped) → Bytes → Frame → Stamped
body_step timestamp later bytes done = (ok tt, [])
body_step timestamp later bytes (pad rest) = behind (0 ∷ []) (later rest)
body_step timestamp later bytes (cut type_) = (err (truncated_tlv type_), bytes)
body_step timestamp later bytes (element type_ value rest) =
    stamp_next type_ value (stamp_tlv timestamp type_ value) rest (later rest)

unfoldable pub stamp_body : ℕ → ℕ → Bytes → Stamped
stamp_body zero timestamp bytes = (err out_of_fuel, bytes)
stamp_body (suc fuel) timestamp bytes =
    body_step timestamp (stamp_body fuel timestamp) bytes (next_frame bytes)

unfoldable pub stamp_hello_timestamps : Bytes → ℕ → Stamped
stamp_hello_timestamps (magic ∷ version ∷ high ∷ low ∷ rest) timestamp =
    let body_len = from_be16 high low in
    let whole = magic ∷ version ∷ high ∷ low ∷ rest in
    let stamped = stamp_body (suc body_len) timestamp (take body_len rest) in
    if not (magic == 42)
    then (err bad_magic, whole)
    else if not (version == 2)
    then (err (unsupported_version version), whole)
    else if ltb (length rest) body_len
    then (err truncated_body, whole)
    else (stamped.0, magic ∷ version ∷ high ∷ low ∷ stamped.1 ++ drop body_len rest)
stamp_hello_timestamps short timestamp = (err short_header, short)
