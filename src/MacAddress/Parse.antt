-- ===== src/MacAddress/Parse.antt =====
-- The constructor from a string, over what boost documents of the two functions that it uses.
use fnc.Prelude.{
  ℕ, ◌/◌, ◌%◌, ◌^◌, ◌<◌, ◌≡◌, refl, ap, arith, true, false, not, ◌&&◌, ◌||◌, [], ◌∷◌, map, length,
  Text, ◌==◌, if◌then◌else◌, Bool-cases, inl, inr,
}
use fnc.Exceptions.{Outcome, ok, throw, stuck, netex}
use fnc.MacAddress.{MacAddress, Boost, from_string, strtoul, to_string}
use fnc.MacAddress.Print.{to_string-spelled}
use fnc.MacAddress.Digits.{remove, all_xdigit, to_upper, remove-spelled, accept_digits, read_twelve}

-- boost::erase_all_copy removes every occurrence, boost::all tests every character.
pub record IsBoost (boost : Boost) : Type 0 where
  pub erases : (c : ℕ) (s : Text) → boost.erase_all_copy s (c ∷ []) ≡ remove c s
  pub tests : (s : Text) → boost.all_is_xdigit s ≡ all_xdigit s

-- Two functions that do this.
abbrev pub plain_boost : Boost
plain_boost = record {
  erase_all_copy = λ s p. elim p [ [] ↦ s | c ∷ _ ↦ remove c s ];
  all_is_xdigit = all_xdigit;
}

pub plain_boost-IsBoost : IsBoost plain_boost
plain_boost-IsBoost = record { erases = λ c s. refl; tests = λ s. refl }

-- What an accepted text holds beside colons, and the address that it gives: twelve hexadecimal
-- digits, which `to_string` writes again as capitals.
abbrev pub Accepts : Text → Outcome MacAddress → Type 0
Accepts s (ok m) =
    (length (remove b':' s) ≡ 12)
    × (all_xdigit (remove b':' s) ≡ true)
    × (m.address < 2 ^ 48)
    × (remove b':' (to_string m) ≡ map to_upper (remove b':' s))
Accepts s (throw e) =
    (e ≡ netex "Invalid MAC address={}")
    × ((length (remove b':' s) == 12) && all_xdigit (remove b':' s) ≡ false)
Accepts s stuck = ⊥

-- The constructor, with boost's two functions replaced by what they do.
from_string-eq :
    (boost : Boost)
    → IsBoost boost
    → (s : Text)
    → let mac = remove b':' s in
      from_string boost s ≡ (
        if not (length mac == 12) || not (all_xdigit mac)
        then throw (netex "Invalid MAC address={}")
        else ok (record { address = strtoul mac }))
unfolding from_string
from_string-eq boost law s = rw (law.erases, law.tests)

-- Where boost's algorithms are as documented, the constructor from a string accepts exactly twelve
-- hexadecimal digits with any colons among them, and gives the 48-bit address that `to_string`
-- writes as the same digits in capitals.
pub from_string-Accepts :
    (boost : Boost) → IsBoost boost → (s : Text) → Accepts s (from_string boost s)
from_string-Accepts boost law s =
    let mac = remove b':' s in
    rw (from_string-eq boost law s) (elim (Bool-cases (length mac == 12)) [
      | inr other ↦ rw other (refl, rw other)
      | inl twelve_long ↦ elim (Bool-cases (all_xdigit mac)) [
        | inr other ↦ rw (twelve_long, other) (refl, rw (twelve_long, other))
        | inl hex ↦
            let len : length mac ≡ 12 = ground arith in
            let (fits, same) = accept_digits mac len hex in
            rw (twelve_long, hex) (len, hex, fits, same)
      ]
    ])

-- Where boost's algorithms are as documented, an address of 48 bits is read back from what
-- `to_string` writes.
pub from_string-to_string :
    (boost : Boost)
    → IsBoost boost
    → (m : MacAddress) → m.address < 2 ^ 48
    → from_string boost (to_string m) ≡ ok m
from_string-to_string boost law m h =
    let six =
      remove-spelled (m.address / 2 ^ 40 % 256) (m.address / 2 ^ 32 % 256)
        (m.address / 2 ^ 24 % 256) (m.address / 2 ^ 16 % 256) (m.address / 2 ^ 8 % 256)
        (m.address % 256) (omega arith) in
    let (hex, value) =
      read_twelve (m.address / 2 ^ 40 % 256) (m.address / 2 ^ 32 % 256) (m.address / 2 ^ 24 % 256)
        (m.address / 2 ^ 16 % 256) (m.address / 2 ^ 8 % 256) (m.address % 256) (omega arith) in
    rw (from_string-eq boost law (to_string m), to_string-spelled m, six, hex, value)
      (ap (λ n. ok (record { address = n })) (omega arith))
