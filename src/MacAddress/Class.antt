-- ===== src/MacAddress/Class.antt =====
-- mac_address.hpp: the operations of `class mac_address` as its clients take them, with what they
-- promise of addresses of 48 bits, and mac_address.cpp, which keeps the promises.
use fnc.Prelude.{ℕ, ◌^◌, ◌<◌, ◌≡◌, ◌↔◌, Bool, true, List, Text, Option, some}
use fnc.Exceptions.{Outcome, ok}
use fnc.MacAddress
use fnc.MacAddress.{MacAddress, Boost}
use fnc.MacAddress.Bytes.{from_bytes-get_bytes}
use fnc.MacAddress.Compare.{mac_eq_string-to_string}
use fnc.MacAddress.Parse.{IsBoost, from_string-to_string}

-- The operators != are on fuel.
pub record MacAddressClass (Mac : Type 0) (bits : Mac → ℕ) : Type 0 where
  pub default_mac : Mac
  pub from_bytes : List ℕ → Option Mac
  pub from_string : Text → Outcome Mac
  pub to_string : Mac → Text
  pub to_uint64 : Mac → ℕ
  pub get_bytes : Mac → List ℕ
  pub put : Text → Mac → Text
  pub eq : Mac → Mac → Bool
  pub ne : ℕ → Mac → Mac → Outcome Bool
  pub eq_string : Mac → Text → Bool
  pub ne_string : ℕ → Mac → Text → Outcome Bool
  pub reads_bytes : (m : Mac) → bits m < 2 ^ 48 → from_bytes (get_bytes m) ≡ some m
  pub reads_string : (m : Mac) → bits m < 2 ^ 48 → from_string (to_string m) ≡ ok m
  pub eq_by_string :
      (m other : Mac)
      → bits m < 2 ^ 48
      → bits other < 2 ^ 48
      → (eq m other ≡ true) ↔ (eq_string m (to_string other) ≡ true)

unfoldable pub mac_address :
    (boost : Boost) → IsBoost boost → MacAddressClass MacAddress (λ m. m.address)
mac_address boost law = record {
  default_mac = MacAddress.default_mac;
  from_bytes = MacAddress.from_bytes;
  from_string = MacAddress.from_string boost;
  to_string = MacAddress.to_string;
  to_uint64 = MacAddress.to_uint64;
  get_bytes = MacAddress.get_bytes;
  put = MacAddress.put_mac;
  eq = MacAddress.mac_eq;
  ne = MacAddress.mac_ne;
  eq_string = MacAddress.mac_eq_string;
  ne_string = MacAddress.mac_ne_string;
  reads_bytes = from_bytes-get_bytes;
  reads_string = from_string-to_string boost law;
  eq_by_string = mac_eq_string-to_string;
}
