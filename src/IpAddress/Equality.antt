-- ===== src/IpAddress/Equality.antt =====
-- `operator==`, `operator!=`, and the constants of the class.
use fnc.Prelude.{
  ◌≡◌, refl, sym, ap, ◌∙◌, subst, ◌↔◌, arith, ℤ, pos, negsuc, is_neg, int_eq, int_eq_iff, Bool,
  true, false, ◌&&◌, Text, Bool-cases, inl, inr,
}
use fnc.Exceptions.{ok}
use fnc.IpAddress.{Asio, IpAddress, Scope, inherited, build, from_string, ip_eq, ip_ne, scope_eq}
use fnc.IpAddress.Build.{IsAsio, Builds, from_string-Builds}

scope_eq_iff : (a b : Scope) → (scope_eq a b ≡ true) ↔ (a ≡ b)
scope_eq_iff a b = ground arith

and_true : (x y : Bool) → (x && y) ≡ true → (x ≡ true) × (y ≡ true)
and_true x y h = ground arith

int_eq-minus_one : (n : ℤ) → is_neg n ≡ false → int_eq n (negsuc 0) ≡ false
int_eq-minus_one (pos n) h = refl
int_eq-minus_one (negsuc n) h = cc

module _ {Address : Type 0} (asio : Asio Address) (law : IsAsio asio) where
  ip_eq→eq : (a b : IpAddress Address) → ip_eq asio a b ≡ true → a ≡ b
  unfolding ip_eq
  ip_eq→eq a b h =
      let (same_address, rest) = and_true _ _ h in
      let (same_prefix, same_scope) = and_true _ _ rest in
      let p : a.address ≡ b.address = (law.equal_iff _ _).0 same_address in
      let q : a.prefix ≡ b.prefix = (int_eq_iff _ _).0 same_prefix in
      let r : a.scope ≡ b.scope = (scope_eq_iff _ _).0 same_scope in
      λ i. record { address = p i; prefix = q i; scope = r i }

  ip_eq_refl : (a : IpAddress Address) → ip_eq asio a a ≡ true
  unfolding ip_eq
  ip_eq_refl a = rw (
    (law.equal_iff a.address a.address).1 refl,
    (int_eq_iff a.prefix a.prefix).1 refl,
    (scope_eq_iff a.scope a.scope).1 refl,
  )

  eq→ip_eq : (a b : IpAddress Address) → a ≡ b → ip_eq asio a b ≡ true
  eq→ip_eq a b h = rw h (ip_eq_refl b)

  -- Where boost's `==` is equality, `==` is equality of the address, the prefix and the scope
  -- together, and `!=` its negation.
  pub ip_eq_iff :
      (a b : IpAddress Address)
      → ((ip_eq asio a b ≡ true) ↔ (a ≡ b)) × ((ip_ne asio a b ≡ false) ↔ (a ≡ b))
  unfolding ip_ne
  ip_eq_iff a b =
      ((ip_eq→eq a b, eq→ip_eq a b), (λ h. ip_eq→eq a b (ground arith), λ h. rw (eq→ip_eq a b h)))

  -- An address that is made from a text equals none that is made by an inherited constructor, such
  -- as the constants LOOPBACK and ANY: its prefix is not negative.
  pub from_string-ne-inherited :
      (text : Text) (prefix : ℤ) (ip : IpAddress Address) (a : Address)
      → from_string asio text prefix ≡ ok ip
      → ip_eq asio ip (inherited asio a) ≡ false
  unfolding ip_eq inherited
  from_string-ne-inherited text prefix ip a h =
      let (_, built, _, _) =
        subst (Builds asio text prefix) h (from_string-Builds asio text prefix) in
      rw (int_eq-minus_one ip.prefix built.has_prefix) (ground arith)

  -- Two addresses that a constructor has built without a prefix are equal when boost's are.
  pub ip_eq-build :
      (a b : Address)
      → ip_eq asio (build asio a (negsuc 0)) (build asio b (negsuc 0)) ≡ asio.equal a b
  ip_eq-build a b = elim (Bool-cases (asio.equal a b)) [
    | inl e ↦ eq→ip_eq _ _ (ap (λ x. build asio x (negsuc 0)) ((law.equal_iff a b).0 e)) ∙ sym e
    | inr e ↦ unfold ip_eq build in rw e
  ]
