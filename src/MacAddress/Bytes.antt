-- ===== src/MacAddress/Bytes.antt =====
-- The bytes of an address and the constructor from bytes are inverse to one another.
use fnc.Prelude.{
  ℕ, ◌+◌, ◌*◌, ◌/◌, ◌%◌, ◌^◌, ◌<◌, ◌≤◌, ◌≡◌, ap, ◌∙◌, arith, Option, none, some, List, [], ◌∷◌,
}
use fnc.Prelude.{length, take, All}
use fnc.Prelude.Bits.{bit_and-byte}
use fnc.MacAddress.{MacAddress, from_bytes, get_bytes}

-- A uint8_t.
abbrev pub IsByte : ℕ → Type 0
IsByte b = b < 256

-- The address of six bytes, the first one highest.
abbrev pub big_endian : ℕ → ℕ → ℕ → ℕ → ℕ → ℕ → ℕ
big_endian a b c d e f = a * 2 ^ 40 + b * 2 ^ 32 + c * 2 ^ 24 + d * 2 ^ 16 + e * 2 ^ 8 + f

-- The constructor reads exactly six bytes, in network order, and no carry is lost.
pub from_bytes_six :
    (a b c d e f : ℕ) (more : List ℕ)
    → IsByte a × IsByte b × IsByte c × IsByte d × IsByte e × IsByte f
    → from_bytes (a ∷ b ∷ c ∷ d ∷ e ∷ f ∷ more) ≡ some (record { address = big_endian a b c d e f })
unfolding from_bytes
from_bytes_six a b c d e f more h = ap (λ n. some (record { address = n })) (omega arith)

-- The bytes are the six base-256 digits of the address, the highest one first.
pub get_bytes_digits :
    (m : MacAddress)
    → get_bytes m
      ≡ (m.address / 2 ^ 40 % 256)
        ∷ (m.address / 2 ^ 32 % 256)
        ∷ (m.address / 2 ^ 24 % 256)
        ∷ (m.address / 2 ^ 16 % 256)
        ∷ (m.address / 2 ^ 8 % 256)
        ∷ (m.address % 256)
        ∷ []
unfolding get_bytes
get_bytes_digits m = simp bit_and-byte (ground arith)

-- An address of 48 bits is rebuilt from its bytes.
pub from_bytes-get_bytes : (m : MacAddress) → m.address < 2 ^ 48 → from_bytes (get_bytes m) ≡ some m
from_bytes-get_bytes m h = rw (get_bytes_digits m) (
    from_bytes_six _ _ _ _ _ _ [] (omega arith)
    ∙ ap (λ n. some (record { address = n })) (omega arith))

-- What the constructor promises of any buffer: it reads behind the end of one that holds fewer than
-- six bytes, and of any other it takes the first six, into an address of 48 bits.
abbrev pub Reads : List ℕ → Option MacAddress → Type 0
Reads addr none = length addr < 6
Reads addr (some m) = (6 ≤ length addr) × (get_bytes m ≡ take 6 addr) × (m.address < 2 ^ 48)

-- The constructor from bytes gives none exactly if it is passed fewer than six bytes. Otherwise
-- `get_bytes` gives back the first six, and the address has 48 bits.
pub get_bytes-from_bytes : (addr : List ℕ) → All IsByte addr → Reads addr (from_bytes addr)
get_bytes-from_bytes [] h = unfold from_bytes in omega arith
get_bytes-from_bytes (a ∷ []) h = unfold from_bytes in omega arith
get_bytes-from_bytes (a ∷ b ∷ []) h = unfold from_bytes in omega arith
get_bytes-from_bytes (a ∷ b ∷ c ∷ []) h = unfold from_bytes in omega arith
get_bytes-from_bytes (a ∷ b ∷ c ∷ d ∷ []) h = unfold from_bytes in omega arith
get_bytes-from_bytes (a ∷ b ∷ c ∷ d ∷ e ∷ []) h = unfold from_bytes in omega arith
get_bytes-from_bytes (a ∷ b ∷ c ∷ d ∷ e ∷ f ∷ more) h =
    rw (from_bytes_six a b c d e f more (omega arith))
      (omega arith, rw get_bytes_digits (ground arith), omega arith)
