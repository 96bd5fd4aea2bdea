-- ===== src/Bitmask.antt =====
-- util/bitmask_operators.hpp: the operators of an enum whose underlying type is an `int`, on its bit
-- pattern. The casts between the enum and the int change nothing of the pattern. An assigning
-- operator gives the new value of its left operand, which is also what it returns.
pub mod Laws
pub mod Class
mod Tests
use fnc.Prelude.{ℕ, ◌-◌, ◌^◌, bit_and, bit_or, bit_xor}

-- operator|
unfoldable pub mask_or : ℕ → ℕ → ℕ
mask_or lhs rhs = bit_or lhs rhs

-- operator&
unfoldable pub mask_and : ℕ → ℕ → ℕ
mask_and lhs rhs = bit_and lhs rhs

-- operator^
unfoldable pub mask_xor : ℕ → ℕ → ℕ
mask_xor lhs rhs = bit_xor lhs rhs

-- operator~: every one of the 32 bits is inverted.
unfoldable pub mask_not : ℕ → ℕ
mask_not lhs = 2 ^ 32 - 1 - lhs

-- operator|=
unfoldable pub assign_or : ℕ → ℕ → ℕ
assign_or lhs rhs = bit_or lhs rhs

-- operator&=
unfoldable pub assign_and : ℕ → ℕ → ℕ
assign_and lhs rhs = bit_and lhs rhs

-- operator^=
unfoldable pub assign_xor : ℕ → ℕ → ℕ
assign_xor lhs rhs = bit_xor lhs rhs
