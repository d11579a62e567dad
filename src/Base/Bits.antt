-- ===== src/Base/Bits.antt =====
-- `&` with a mask of low bits, `| 1`, and powers of two at every exponent.
use Prim.Native.Nat.{
  ℕ, zero, suc, ◌+◌, ◌-◌, ◌*◌, ◌/◌, ◌%◌, ◌^◌, ◌≤◌, ◌<◌, min, max, bit_and, bit_or, bitwise, digits,
  bit_and-bitwise, bit_or-bitwise,
}
use native.Mathlib.Nat.{pow-suc, one-le-pow, add-zero, add-suc, pow-le-pow_right}
use mathlib.Core.Path.{◌≡◌, refl, ap}
use native.Mathlib.Omega.{arith}

-- The definition of the native operations recurs on binary digits with fuel; one digit of it.
module _ (low : ℕ → ℕ) (op : ℕ → ℕ → ℕ) where
  digits_enough : (n m x y : ℕ) → x ≤ n → x ≤ m → digits low op n x y ≡ digits low op m x y
  digits_enough zero zero x y le_n le_m = refl
  digits_enough zero (suc m) zero y le_n le_m = refl
  digits_enough zero (suc m) (suc x) y le_n le_m = absurd (omega arith)
  digits_enough (suc n) zero zero y le_n le_m = refl
  digits_enough (suc n) zero (suc x) y le_n le_m = absurd (omega arith)
  digits_enough (suc n) (suc m) zero y le_n le_m = refl
  digits_enough (suc n) (suc m) (suc x) y le_n le_m =
      rw (digits_enough n m (suc x / 2) (y / 2) (omega arith) (omega arith))

  bitwise-digit :
      (x : ℕ) (y : ℕ)
      → bitwise low op (suc x) y ≡ bitwise low op (suc x / 2) (y / 2) * 2 + op (suc x % 2) (y % 2)
  bitwise-digit x y =
      omega (arith, digits_enough x (suc x / 2) (suc x / 2) (y / 2) (omega arith) (omega arith))

bit_or-digit : (x y : ℕ) → bit_or x y ≡ bit_or (x / 2) (y / 2) * 2 + max (x % 2) (y % 2)
bit_or-digit zero y = simp bit_or-bitwise (omega arith)
bit_or-digit (suc x) y = simp bit_or-bitwise (bitwise-digit (λ d. d) max x y)

bit_and-digit : (x y : ℕ) → bit_and x y ≡ bit_and (x / 2) (y / 2) * 2 + min (x % 2) (y % 2)
bit_and-digit zero y = simp bit_and-bitwise (omega arith)
bit_and-digit (suc x) y = simp bit_and-bitwise (bitwise-digit (λ d. 0) min x y)

bit_or-zero_below : (n x : ℕ) → x ≤ n → bit_or x 0 ≡ x
bit_or-zero_below n zero h = refl
bit_or-zero_below zero (suc x) h = absurd (omega arith)
bit_or-zero_below (suc n) (suc x) h =
    omega (arith, bit_or-digit (suc x) 0, bit_or-zero_below n (suc x / 2) (omega arith))

bit_and-zero_below : (n x : ℕ) → x ≤ n → bit_and x 0 ≡ 0
bit_and-zero_below n zero h = refl
bit_and-zero_below zero (suc x) h = absurd (omega arith)
bit_and-zero_below (suc n) (suc x) h =
    omega (arith, bit_and-digit (suc x) 0, bit_and-zero_below n (suc x / 2) (omega arith))

-- `x << 1 | 1` adds one to an even number.
pub bit_or-one : (a : ℕ) → bit_or (a * 2) 1 ≡ a * 2 + 1
bit_or-one a =
    omega (arith, bit_or-digit (a * 2) 1, bit_or-zero_below (a * 2 / 2) (a * 2 / 2) (omega arith))

-- The mask keeps a low field `r` under any high field `q`.
bit_and-field : (k q r : ℕ) → r < 2 ^ k → bit_and (q * 2 ^ k + r) (2 ^ k - 1) ≡ r
bit_and-field zero q r h = omega (arith, bit_and-zero_below (q * 1 + r) (q * 1 + r) (omega arith))
bit_and-field (suc k) q r h = ground (
  arith,
  bit_and-digit (q * 2 ^ suc k + r) (2 ^ suc k - 1),
  ap (λ (t : ℕ). q * t) (pow-suc 2 k),
  pow-suc 2 k,
  one-le-pow k 2,
  bit_and-field k q (r / 2) (omega (arith, pow-suc 2 k)),
)

-- A mask of `k` low bits is the remainder by `2 ^ k`.
pub bit_and-mask : (k a : ℕ) → bit_and a (2 ^ k - 1) ≡ a % 2 ^ k
bit_and-mask k a = ground (arith, one-le-pow k 2, bit_and-field k (a / 2 ^ k) (a % 2 ^ k))

pub pow-add : (a b : ℕ) → 2 ^ (a + b) ≡ 2 ^ a * 2 ^ b
pow-add a zero = rw add-zero (omega arith)
pow-add a (suc b) = rw (add-suc a b, pow-suc 2 (a + b), pow-suc 2 b, pow-add a b) (omega arith)

pub pow_mono : (a b : ℕ) → a ≤ b → 2 ^ a ≤ 2 ^ b
pow_mono a b h = pow-le-pow_right (omega arith) h

pub pow-pos : (k : ℕ) → 1 ≤ 2 ^ k
pow-pos k = one-le-pow k 2 (omega arith)
