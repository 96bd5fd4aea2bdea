-- ===== src/MacAddress/Print.antt =====
-- What `to_string` writes.
use fnc.Prelude.{ℕ, ◌/◌, ◌%◌, ◌^◌, ◌<◌, ◌≡◌, refl, ◌∙◌, arith, true, [], ◌∷◌}
use fnc.Prelude.{Text}
use fnc.MacAddress.{
  MacAddress, get_bytes, to_string, print_from, put_hex, hex_digit, is_xdigit, digit_value,
}
use fnc.MacAddress.Bytes.{IsByte, get_bytes_digits}

-- The two digits of a byte.
abbrev pub high : ℕ → ℕ
high b = hex_digit (b / 16)

abbrev pub low : ℕ → ℕ
low b = hex_digit (b % 16)

pub put_hex_digits : (b : ℕ) → IsByte b → put_hex b ≡ high b ∷ low b ∷ []
unfolding put_hex
put_hex_digits b h = ground arith

-- A digit that is written is a hexadecimal digit, no small letter, and has the value that it stands for.
pub hex_digit_lem :
    (d : ℕ)
    → d < 16
    → (is_xdigit (hex_digit d) ≡ true) × (digit_value (hex_digit d) ≡ d) × (hex_digit d < b'a')
unfolding hex_digit is_xdigit digit_value
hex_digit_lem d h = ground arith

-- The text of six bytes.
abbrev pub spelled : ℕ → ℕ → ℕ → ℕ → ℕ → ℕ → Text
spelled a b c d e f =
    high a
    ∷ low a
    ∷ b':'
    ∷ high b
    ∷ low b
    ∷ b':'
    ∷ high c
    ∷ low c
    ∷ b':'
    ∷ high d
    ∷ low d
    ∷ b':'
    ∷ high e
    ∷ low e
    ∷ b':'
    ∷ high f
    ∷ low f
    ∷ []

pub print_from_six :
    (a b c d e f : ℕ)
    → IsByte a × IsByte b × IsByte c × IsByte d × IsByte e × IsByte f
    → print_from 0 (a ∷ b ∷ c ∷ d ∷ e ∷ f ∷ []) ≡ spelled a b c d e f
unfolding print_from
print_from_six a b c d e f (ha, hb, hc, hd, he, hf) =
    rw
      (
        put_hex_digits a ha,
        put_hex_digits b hb,
        put_hex_digits c hc,
        put_hex_digits d hd,
        put_hex_digits e he,
        put_hex_digits f hf,
      )
      refl

to_string-eq : (m : MacAddress) → to_string m ≡ print_from 0 (get_bytes m)
unfolding to_string
to_string-eq m = refl

-- `to_string` writes the six bytes of the address, the highest first, each as two digits.
pub to_string-spelled :
    (m : MacAddress)
    → to_string m
      ≡ spelled
          (m.address / 2 ^ 40 % 256)
          (m.address / 2 ^ 32 % 256)
          (m.address / 2 ^ 24 % 256)
          (m.address / 2 ^ 16 % 256)
          (m.address / 2 ^ 8 % 256)
          (m.address % 256)
to_string-spelled m =
    to_string-eq m ∙ rw get_bytes_digits (print_from_six _ _ _ _ _ _ (omega arith))
