-- ===== src/Bitmask/Class.antt =====
-- util/bitmask_operators.hpp: the trait that makes the operators of an enum class visible, and the
-- operators that it makes visible, with their laws.
use fnc.Prelude.{ℕ, ◌^◌, ◌<◌, ◌≡◌, refl, Bool, true, false, Option, none, some}
use fnc.Bitmask.{mask_or, mask_and, mask_xor, mask_not, assign_or, assign_and, assign_xor}
use fnc.Bitmask.Laws.{mask_and-mask_not}

-- enable_bitmask_operators<E>, which is false unless ENABLE_BITMASK_OPERATORS(E) specialises it.
pub record EnableBitmaskOperators : Type 0 where
  pub enable : Bool

abbrev pub not_enabled : EnableBitmaskOperators
not_enabled = record { enable = false }

-- ENABLE_BITMASK_OPERATORS(x)
abbrev pub enabled : EnableBitmaskOperators
enabled = record { enable = true }

-- What an expression over values of an enum class may use, on their bit patterns.
pub record BitmaskOperators : Type 0 where
  pub bit_or : ℕ → ℕ → ℕ
  pub bit_and : ℕ → ℕ → ℕ
  pub bit_xor : ℕ → ℕ → ℕ
  pub bit_not : ℕ → ℕ
  pub or_eq : ℕ → ℕ → ℕ
  pub and_eq : ℕ → ℕ → ℕ
  pub xor_eq : ℕ → ℕ → ℕ
  pub or_eq_lem : (a b : ℕ) → or_eq a b ≡ bit_or a b
  pub and_eq_lem : (a b : ℕ) → and_eq a b ≡ bit_and a b
  pub xor_eq_lem : (a b : ℕ) → xor_eq a b ≡ bit_xor a b
  pub clears : (a b : ℕ) → b < 2 ^ 32 → bit_and (bit_and a (bit_not b)) b ≡ 0
  pub bit_not_twice : (b : ℕ) → b < 2 ^ 32 → bit_not (bit_not b) ≡ b

pub assign_or-mask_or : (a b : ℕ) → assign_or a b ≡ mask_or a b
unfolding assign_or mask_or
assign_or-mask_or a b = refl

pub assign_and-mask_and : (a b : ℕ) → assign_and a b ≡ mask_and a b
unfolding assign_and mask_and
assign_and-mask_and a b = refl

pub assign_xor-mask_xor : (a b : ℕ) → assign_xor a b ≡ mask_xor a b
unfolding assign_xor mask_xor
assign_xor-mask_xor a b = refl

-- The operators themselves are templates for the enums that are enabled, by std::enable_if.
operators_if : Bool → Option BitmaskOperators
operators_if false = none
operators_if true = some (record {
  bit_or = mask_or;
  bit_and = mask_and;
  bit_xor = mask_xor;
  bit_not = mask_not;
  or_eq = assign_or;
  and_eq = assign_and;
  xor_eq = assign_xor;
  or_eq_lem = assign_or-mask_or;
  and_eq_lem = assign_and-mask_and;
  xor_eq_lem = assign_xor-mask_xor;
  clears = λ a b h. (mask_and-mask_not a b h).0;
  bit_not_twice = λ b h. (mask_and-mask_not 0 b h).1;
})

unfoldable pub bitmask_operators : EnableBitmaskOperators → Option BitmaskOperators
unfolding operators_if
bitmask_operators e = operators_if e.enable
