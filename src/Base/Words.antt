-- ===== src/Base/Words.antt =====
-- Machine integers as numbers below a power of two: wrapping and saturating operations.
use Prim.Native.Nat.{ℕ, ◌+◌, ◌-◌, ◌*◌, ◌/◌, ◌%◌, min}
use mathlib.Core.List.{List, [], ◌∷◌}

abbrev pub u16_mod : ℕ
u16_mod = 0x10000

abbrev pub u32_mod : ℕ
u32_mod = 0x1_0000_0000

abbrev pub u64_max : ℕ
u64_max = 0xffff_ffff_ffff_ffff

-- `u16::wrapping_add` and `u16::wrapping_sub`.
abbrev pub wrapping_add16 : ℕ → ℕ → ℕ
wrapping_add16 a b = (a + b) % u16_mod

abbrev pub wrapping_sub16 : ℕ → ℕ → ℕ
wrapping_sub16 a b = (a + u16_mod - b) % u16_mod

-- `u8::saturating_add`, `u64::saturating_add` and `u64::saturating_mul`; on ℕ `-` saturates already.
abbrev pub saturating_add8 : ℕ → ℕ → ℕ
saturating_add8 a b = min (a + b) 0xff

abbrev pub saturating_add64 : ℕ → ℕ → ℕ
saturating_add64 a b = min (a + b) u64_max

abbrev pub saturating_mul64 : ℕ → ℕ → ℕ
saturating_mul64 a b = min (a * b) u64_max

-- `u16::to_be_bytes` and `u32::to_be_bytes`, and back.
abbrev pub be_bytes16 : ℕ → List ℕ
be_bytes16 n = (n / 0x100 % 0x100) ∷ (n % 0x100) ∷ []

abbrev pub be_bytes32 : ℕ → List ℕ
be_bytes32 n =
    (n / 0x100_0000 % 0x100) ∷ (n / 0x1_0000 % 0x100) ∷ (n / 0x100 % 0x100) ∷ (n % 0x100) ∷ []

abbrev pub from_be16 : ℕ → ℕ → ℕ
from_be16 a b = a * 0x100 + b

abbrev pub from_be32 : ℕ → ℕ → ℕ → ℕ → ℕ
from_be32 a b c d = ((a * 0x100 + b) * 0x100 + c) * 0x100 + d
