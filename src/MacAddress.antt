-- ===== src/MacAddress.antt =====
-- mac_address.cpp, mac_address.hpp: a MAC address in a uint64_t, its bytes and its text.
pub mod Bytes
pub mod Print
pub mod Digits
pub mod Parse
pub mod Compare
pub mod Class
mod Tests
use fnc.Prelude.{ℕ, zero, suc, ◌+◌, ◌-◌, ◌*◌, ◌/◌, ◌%◌, ◌^◌, ◌<◌, bit_and, Bool, true, false, not}
use fnc.Prelude.{
  Option, none, some, List, [], ◌∷◌, ◌++◌, ◌&&◌, ◌||◌, leb, ltb, ◌==◌, length, get_elem?,
}
use fnc.Prelude.{if◌then◌else◌, Text, text_eq}
use fnc.Exceptions.{Outcome, ok, throw, stuck, netex, then_do}

-- `address_` is a uint64_t.
pub record MacAddress : Type 0 where
  pub address : ℕ

-- mac_address()
unfoldable pub default_mac : MacAddress
default_mac = record { address = 0 }

-- IFHWADDRLEN
abbrev pub ifhwaddrlen : ℕ
ifhwaddrlen = 6

-- The loop of mac_address(uint8_t*), with `rounds` rounds left. `none` is a read behind the bytes
-- that the pointer has. After the last round the source's shift is -8, which is not used.
add_bytes : ℕ → ℕ → ℕ → List ℕ → ℕ → Option ℕ
add_bytes zero i shift addr address = some address
add_bytes (suc rounds) i shift addr address = elim (get_elem? addr i) [
  | none ↦ none
  | some b ↦ add_bytes rounds (i + 1) (shift - 8) addr ((address + b * 2 ^ shift % 2 ^ 64) % 2 ^ 64)
]

-- mac_address(uint8_t*)
unfoldable pub from_bytes : List ℕ → Option MacAddress
unfolding add_bytes
from_bytes addr = elim (add_bytes ifhwaddrlen 0 40 addr 0) [
  | none ↦ none
  | some a ↦ some (record { address = a })
]

-- What the source takes from boost: erase_all_copy, and `all` of `is_xdigit`.
pub record Boost : Type 0 where
  pub erase_all_copy : Text → Text → Text
  pub all_is_xdigit : Text → Bool

is_digit : ℕ → Bool
is_digit c = leb b'0' c && leb c b'9'

-- isxdigit in the C locale.
unfoldable pub is_xdigit : ℕ → Bool
unfolding is_digit
is_xdigit c = is_digit c || (leb b'A' c && leb c b'F' || leb b'a' c && leb c b'f')

-- The value of a hexadecimal digit.
unfoldable pub digit_value : ℕ → ℕ
digit_value c = if leb c b'9' then c - b'0' else if leb c b'F' then c - b'A' + 10 else c - b'a' + 10

-- std::strtoul(s, NULL, 16) of a text that is all hexadecimal digits: the digits' value, ULONG_MAX
-- if that does not fit 64 bits.
strtoul_from : ℕ → Text → ℕ
strtoul_from value [] = value
strtoul_from value (c ∷ s) = strtoul_from (value * 16 + digit_value c) s

unfoldable pub strtoul : Text → ℕ
unfolding strtoul_from
strtoul s = let v = strtoul_from 0 s in if ltb v (2 ^ 64) then v else 2 ^ 64 - 1

-- mac_address(const std::string&)
unfoldable pub from_string : Boost → Text → Outcome MacAddress
unfolding strtoul
from_string boost addr =
    let mac = boost.erase_all_copy addr (b':' ∷ []) in
    if not (length mac == 12) || not (boost.all_is_xdigit mac)
    then throw (netex "Invalid MAC address={}")
    else ok (record { address = strtoul mac })

-- The loop of `get_bytes`, from index `i` on. The value is stored in a uint8_t.
bytes_from : ℕ → ℕ → ℕ → List ℕ
bytes_from zero i address = []
bytes_from (suc rounds) i address =
    (bit_and (address / 2 ^ (8 * (ifhwaddrlen - i - 1))) 0xff % 256)
    ∷ bytes_from rounds (i + 1) address

unfoldable pub get_bytes : MacAddress → List ℕ
unfolding bytes_from
get_bytes m = bytes_from ifhwaddrlen 0 m.address

-- to_uint64
abbrev pub to_uint64 : MacAddress → ℕ
to_uint64 m = m.address

-- A digit under std::hex and std::uppercase.
unfoldable pub hex_digit : ℕ → ℕ
hex_digit d = if ltb d 10 then b'0' + d else b'A' + d - 10

-- `os << std::setw(2) << n` under setfill('0'), hex and uppercase, for a number below 256.
unfoldable pub put_hex : ℕ → Text
unfolding hex_digit
put_hex n =
    if ltb n 16 then b'0' ∷ hex_digit n ∷ [] else hex_digit (n / 16) ∷ hex_digit (n % 16) ∷ []

-- The loop of `to_string` over the bytes from index `i` on.
pub print_from : ℕ → List ℕ → Text
print_from i [] = []
print_from i (b ∷ bytes) =
    put_hex b ++ ((if ltb i (ifhwaddrlen - 1) then b':' ∷ [] else []) ++ print_from (i + 1) bytes)

unfoldable pub to_string : MacAddress → Text
unfolding print_from put_hex
to_string m = print_from 0 (get_bytes m)

-- operator<<, for the text that the stream has.
abbrev pub put_mac : Text → MacAddress → Text
put_mac os obj = os ++ to_string obj

-- operator==(const mac_address&)
unfoldable pub mac_eq : MacAddress → MacAddress → Bool
mac_eq m other = m.address == other.address

-- operator==(const std::string&), and operator==(const char*) of the same text.
unfoldable pub mac_eq_string : MacAddress → Text → Bool
mac_eq_string m other = text_eq (to_string m) other

-- operator!=(const mac_address&) and operator!=(const std::string&), on fuel: both bodies are
-- `return ! operator!=(other)`, a call of the operator itself on the same operands.
unfoldable pub mac_ne : ℕ → MacAddress → MacAddress → Outcome Bool
mac_ne zero m other = stuck
mac_ne (suc fuel) m other = then_do (mac_ne fuel m other) (λ b. ok (not b))

unfoldable pub mac_ne_string : ℕ → MacAddress → Text → Outcome Bool
mac_ne_string zero m other = stuck
mac_ne_string (suc fuel) m other = then_do (mac_ne_string fuel m other) (λ b. ok (not b))
