-- ===== src/MacAddress/Tests.antt =====
-- Addresses of the kind that the kernel reports, and the theorems at them.
use fnc.Prelude.{ℕ, ◌≡◌, refl, false, arith, List, [], ◌∷◌, codes, Text}
use fnc.Exceptions.{ok, throw, stuck, netex}
use fnc.MacAddress.{
  MacAddress, get_bytes, from_string, to_string, mac_eq_string, mac_ne, mac_ne_string, digit_value,
  is_xdigit,
}
use fnc.MacAddress.Parse.{
  plain_boost, plain_boost-IsBoost, Accepts, from_string-Accepts, from_string-to_string,
}
use fnc.MacAddress.Compare.{mac_ne_never}

abbrev nic : MacAddress
nic = record { address = 0x02_42_ac_11_00_0b }

abbrev wire : List ℕ
wire = 0x02 ∷ 0x42 ∷ 0xac ∷ 0x11 ∷ 0x00 ∷ 0x0b ∷ 0xff ∷ []

abbrev text : Text
text = codes "02:42:ac:11:00:0b"

printed : to_string nic ≡ codes "02:42:AC:11:00:0B"
unfolding to_string get_bytes
printed = refl

read_text : from_string plain_boost text ≡ ok nic
unfolding from_string is_xdigit digit_value
read_text = refl

refused :
    from_string plain_boost (codes "02:42:ac:11:00:0") ≡ throw (netex "Invalid MAC address={}")
unfolding from_string
refused = refl

-- `==` with a text in small letters fails, though the text names the same address.
small_letters : mac_eq_string nic text ≡ false
unfolding mac_eq_string to_string get_bytes
small_letters = refl

from_string-Accepts_example : Accepts text (from_string plain_boost text)
from_string-Accepts_example = from_string-Accepts plain_boost plain_boost-IsBoost text

from_string-to_string_example : from_string plain_boost (to_string nic) ≡ ok nic
from_string-to_string_example =
    from_string-to_string plain_boost plain_boost-IsBoost nic (omega arith)

mac_ne_never_example : (mac_ne 9 nic nic ≡ stuck) × (mac_ne_string 9 nic text ≡ stuck)
mac_ne_never_example = mac_ne_never 9 nic nic text
