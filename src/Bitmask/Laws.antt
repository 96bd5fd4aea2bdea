-- ===== src/Bitmask/Laws.antt =====
-- Clearing flags with `&` and `~`.
use fnc.Prelude.{ℕ, zero, suc, ◌-◌, ◌*◌, ◌/◌, ◌^◌, ◌<◌, ◌≡◌, ap, arith, bit_and}
use fnc.Prelude.Bits.{bit_and-half, bit_and-zero}
use fnc.Bitmask.{mask_and, mask_not}
use native.Mathlib.Nat.{pow-suc}

clear_digits : (k a b : ℕ) → b < 2 ^ k → bit_and (bit_and a (2 ^ k - 1 - b)) b ≡ 0
clear_digits zero a b h = let none_left : b ≡ 0 = omega arith in rw none_left (bit_and-zero _)
clear_digits (suc k) a b h =
    let c : ℕ = 2 ^ suc k - 1 - b in
    let p : 2 ^ suc k ≡ 2 * 2 ^ k = omega (arith, pow-suc 2 k) in
    let c_half : c / 2 ≡ 2 ^ k - 1 - b / 2 = omega arith in
    let half : bit_and a c / 2 ≡ bit_and (a / 2) (2 ^ k - 1 - b / 2) =
      omega (arith, bit_and-half a c, ap (λ t. bit_and (a / 2) t) c_half) in
    let rest : bit_and (bit_and a c / 2) (b / 2) ≡ 0 =
      rw half (clear_digits k (a / 2) (b / 2) (omega arith)) in
    omega (arith, bit_and-half (bit_and a c) b, bit_and-half a c)

-- The flags of `b` are gone from `a & ~b`, and `a &= ~b` clears them once for all.
pub mask_and-mask_not :
    (a b : ℕ)
    → b < 2 ^ 32
    → (mask_and (mask_and a (mask_not b)) b ≡ 0) × (mask_not (mask_not b) ≡ b)
unfolding mask_and mask_not
mask_and-mask_not a b h = (clear_digits 32 a b h, omega arith)
