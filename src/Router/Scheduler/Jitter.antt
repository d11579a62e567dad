-- ===== src/Router/Scheduler/Jitter.antt =====
-- `JitterRandom` of crates/babel-router/src/output.rs: xorshift64* on the state.
use babel_rs.Base.{ℕ, ◌*◌, ◌/◌, ◌%◌, ◌^◌, if◌then◌else◌, ◌==◌}
use Prim.Native.Nat.{bit_xor}
use babel_rs.Base.Words.{saturating_add64}

abbrev pub random_new : ℕ → ℕ
random_new seed = if seed == 0 then 0x9e3779b97f4a7c15 else seed

abbrev u64_mod : ℕ
u64_mod = 2 ^ 64

-- The state behind a draw: three shifts of 64-bit values.
unfoldable pub xorshift : ℕ → ℕ
xorshift a =
    let b = bit_xor a (a / 2 ^ 12) in
    let c = bit_xor b (b * 2 ^ 25 % u64_mod) in bit_xor c (c / 2 ^ 27)

unfoldable pub bounded : ℕ → ℕ → ℕ × ℕ
bounded random inclusive_max =
    let value = xorshift random in
    if inclusive_max == 0
    then (0, random)
    else (value * 0x2545f4914f6cdd1d % u64_mod % saturating_add64 inclusive_max 1, value)
