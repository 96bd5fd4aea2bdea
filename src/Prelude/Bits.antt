-- ===== src/Prelude/Bits.antt =====
-- `&` with the masks that the program uses, as arithmetic at every operand.
use Prim.Native.Nat.{ℕ, zero, suc, ◌+◌, ◌*◌, ◌/◌, ◌%◌, ◌≤◌, min, bit_and, digits}
use Prim.Native.Nat.{bit_and-bitwise}
use mathlib.Core.Path.{◌≡◌, refl}
use native.Mathlib.Omega.{arith}

-- The digit recursion gives the same for all bounds on the left operand.
and_digits-eq :
    (n m a b : ℕ) → a ≤ n → a ≤ m → digits (λ c. zero) min n a b ≡ digits (λ c. zero) min m a b
and_digits-eq zero zero a b p q = refl
and_digits-eq zero (suc m) zero b p q = refl
and_digits-eq zero (suc m) (suc a) b p q = absurd (omega arith)
and_digits-eq (suc n) zero zero b p q = refl
and_digits-eq (suc n) zero (suc a) b p q = absurd (omega arith)
and_digits-eq (suc n) (suc m) zero b p q = refl
and_digits-eq (suc n) (suc m) (suc a) b p q =
    omega (arith, and_digits-eq n m (suc a / 2) (b / 2) (omega arith) (omega arith))

-- The lowest digit of `a & b`.
pub bit_and-half : (a b : ℕ) → bit_and a b ≡ min (a % 2) (b % 2) + 2 * bit_and (a / 2) (b / 2)
bit_and-half zero b = omega (arith, bit_and-bitwise 0 b, bit_and-bitwise 0 (b / 2))
bit_and-half (suc a) b = omega (
  arith,
  bit_and-bitwise (suc a) b,
  bit_and-bitwise (suc a / 2) (b / 2),
  and_digits-eq a (suc a / 2) (suc a / 2) (b / 2) (omega arith) (omega arith),
)

below-bit_and-zero : (n a : ℕ) → a ≤ n → bit_and a 0 ≡ 0
below-bit_and-zero n zero h = refl
below-bit_and-zero zero (suc a) h = absurd (omega arith)
below-bit_and-zero (suc n) (suc a) h =
    omega (arith, bit_and-half (suc a) 0, below-bit_and-zero n (suc a / 2) (omega arith))

pub bit_and-zero : (a : ℕ) → bit_and a 0 ≡ 0
bit_and-zero a = below-bit_and-zero a a (omega arith)

pub bit_and-one : (a : ℕ) → bit_and a 1 ≡ a % 2
bit_and-one a = omega (arith, bit_and-half a 1, bit_and-zero (a / 2))

pub bit_and-two : (a : ℕ) → bit_and a 2 ≡ 2 * (a / 2 % 2)
bit_and-two a = omega (arith, bit_and-half a 2, bit_and-one (a / 2))

-- A mask with `k` more ones at its end.
bit_and-three : (a : ℕ) → bit_and a 3 ≡ a % 4
bit_and-three a = omega (arith, bit_and-half a 3, bit_and-one (a / 2))

bit_and-fifteen : (a : ℕ) → bit_and a 15 ≡ a % 16
bit_and-fifteen a =
    omega (arith, bit_and-half a 15, bit_and-half (a / 2) 7, bit_and-three (a / 2 / 2))

pub bit_and-byte : (a : ℕ) → bit_and a 0xff ≡ a % 256
bit_and-byte a = omega (
  arith,
  bit_and-half a 0xff,
  bit_and-half (a / 2) 0x7f,
  bit_and-half (a / 2 / 2) 0x3f,
  bit_and-half (a / 2 / 2 / 2) 0x1f,
  bit_and-fifteen (a / 2 / 2 / 2 / 2),
)
