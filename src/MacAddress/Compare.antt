-- ===== src/MacAddress/Compare.antt =====
-- The operators `==` and `!=`.
use fnc.Prelude.{
  ℕ, zero, suc, ◌^◌, ◌<◌, ◌≡◌, refl, sym, ap, ◌∙◌, ◌↔◌, true, Text, text_eq_iff, ==_iff,
}
use fnc.Exceptions.{ok, stuck}
use fnc.MacAddress.{MacAddress, to_string, mac_eq, mac_eq_string, mac_ne, mac_ne_string}
use fnc.MacAddress.Parse.{plain_boost, plain_boost-IsBoost, from_string-to_string}

ok-injective : (a b : MacAddress) → ok a ≡ ok b → a ≡ b
ok-injective a b h = cc

-- Two addresses of 48 bits are equal exactly when one equals the other's text.
pub mac_eq_string-to_string :
    (m other : MacAddress)
    → m.address < 2 ^ 48
    → other.address < 2 ^ 48
    → (mac_eq m other ≡ true) ↔ (mac_eq_string m (to_string other) ≡ true)
unfolding mac_eq mac_eq_string
mac_eq_string-to_string m other hm ho = (
  λ h. (text_eq_iff _ _).1 (ap (λ n. to_string (record { address = n })) ((==_iff _ _).0 h)),
  λ h.
      let same : m ≡ other = ok-injective m other (
        sym (from_string-to_string plain_boost plain_boost-IsBoost m hm)
        ∙ rw ((text_eq_iff (to_string m) (to_string other)).0 h)
            (from_string-to_string plain_boost plain_boost-IsBoost other ho)) in
      (==_iff _ _).1 (ap (λ (x : MacAddress). x.address) same),
)

-- Neither overload of `operator!=` ever returns: whatever number of its calls is allowed, the last
-- one makes another.
pub mac_ne_never :
    (fuel : ℕ) (m other : MacAddress) (text : Text)
    → (mac_ne fuel m other ≡ stuck) × (mac_ne_string fuel m text ≡ stuck)
unfolding mac_ne mac_ne_string
mac_ne_never zero m other text = (refl, refl)
mac_ne_never (suc fuel) m other text = let (p, q) = mac_ne_never fuel m other text in (rw p, rw q)
