-- ===== src/Wire/Frame.antt =====
-- Framing that TLVs and sub-TLVs share: type, length, value, with a lone octet for Pad1.
use babel_rs.Base.{ℕ, ◌+◌, [], ◌∷◌, ltb, ◌==◌, if◌then◌else◌, Bytes, length, take, drop, get_or}
use babel_rs.Base.Results.{Result, ok, err}
use babel_rs.Base.Words.{from_be16, from_be32}
use babel_rs.Wire.{WireError, body_too_large}

-- What stands at the front of a body that is not read yet.
pub data Frame : Type 0 where
  done : Frame
  pad : Bytes → Frame
  cut : ℕ → Frame
  element : (type_ : ℕ) (value rest : Bytes) → Frame

abbrev pub framed : ℕ → Bytes → Frame
framed t [] = cut t
framed t (len ∷ rest) =
    if ltb (length rest) len then cut t else element t (take len rest) (drop len rest)

unfoldable pub next_frame : Bytes → Frame
next_frame [] = done
next_frame (t ∷ rest) = if t == 0 then pad rest else framed t rest

-- `put_tlv`, by the octets that it appends.
unfoldable pub put_tlv : ℕ → Bytes → Result WireError Bytes
put_tlv type_ value =
    if ltb 0xff (length value) then err body_too_large else ok (type_ ∷ (length value) ∷ value)

-- The octet at a place, and `be16` and `be32` of a slice that starts there.
abbrev pub octet : Bytes → ℕ → ℕ
octet xs i = get_or xs i 0

abbrev pub be16 : Bytes → ℕ → ℕ
be16 xs i = from_be16 (octet xs i) (octet xs (i + 1))

abbrev pub be32 : Bytes → ℕ → ℕ
be32 xs i = from_be32 (octet xs i) (octet xs (i + 1)) (octet xs (i + 2)) (octet xs (i + 3))
