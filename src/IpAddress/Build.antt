-- ===== src/IpAddress/Build.antt =====
-- What boost documents of its addresses, what the constructors build, and `without_prefix`.
use fnc.Prelude.{
  ◌≡◌, refl, sym, ap, ◌∙◌, ◌↔◌, arith, ℤ, pos, negsuc, is_neg, true, false, not, none, some, Text,
  if◌then◌else◌, append-nil, Option-cases, inl, inr,
}
use fnc.Exceptions.{Outcome, ok, throw, stuck, illegal}
use fnc.IpAddress.{Asio, IpAddress, global, host, build, from_string, without_prefix, to_string}

pub record IsAsio {Address : Type 0} (asio : Asio Address) : Type 0 where
  -- `operator==` is equality.
  pub equal_iff : (a b : Address) → (asio.equal a b ≡ true) ↔ (a ≡ b)
  -- An address is of one of the two versions.
  pub is_v6_iff : (a : Address) → asio.is_v6 a ≡ not (asio.is_v4 a)
  -- The text that the library writes for an address is read as that address.
  pub reads : (a : Address) → asio.from_string (asio.print a) ≡ some a

module _ {Address : Type 0} (asio : Asio Address) where
  -- A prefix length, and the scope of a host for the loopback addresses.
  pub record IsBuilt (ip : IpAddress Address) : Type 0 where
    pub has_prefix : is_neg ip.prefix ≡ false
    pub has_scope : ip.scope ≡ (if asio.is_loopback ip.address then host else global)

  -- An unstated prefix length.
  abbrev pub default_prefix : Address → ℤ
  default_prefix a = if asio.is_v4 a then pos 32 else pos 64

  -- The constructor throws exactly on a text that boost refuses. Otherwise it keeps boost's address
  -- and a prefix that is not negative, and puts 32 or 64 for a negative one.
  abbrev pub Builds : Text → ℤ → Outcome (IpAddress Address) → Type 0
  Builds text prefix (ok ip) =
      (asio.from_string text ≡ some ip.address)
      × IsBuilt ip
      × (is_neg prefix ≡ false → ip.prefix ≡ prefix)
      × (is_neg prefix ≡ true → ip.prefix ≡ default_prefix ip.address)
  Builds text prefix (throw e) = (asio.from_string text ≡ none) × (e ≡ illegal "Invalid IP address")
  Builds text prefix stuck = ⊥

  pub build-IsBuilt : (a : Address) (prefix : ℤ) → IsBuilt (build asio a prefix)
  unfolding build
  build-IsBuilt a (pos n) = record { has_prefix = refl; has_scope = refl }
  build-IsBuilt a (negsuc n) = record { has_prefix = ground arith; has_scope = refl }

  pub from_string_refused :
      (text : Text) (prefix : ℤ)
      → asio.from_string text ≡ none
      → from_string asio text prefix ≡ throw (illegal "Invalid IP address")
  unfolding from_string
  from_string_refused text prefix e = rw (e, from_string)

  pub from_string_read :
      (text : Text) (prefix : ℤ) (a : Address)
      → asio.from_string text ≡ some a
      → from_string asio text prefix ≡ ok (build asio a prefix)
  unfolding from_string
  from_string_read text prefix a e = rw (e, from_string)

  build_prefix :
      (a : Address) (prefix : ℤ)
      → (is_neg prefix ≡ false → (build asio a prefix).prefix ≡ prefix)
        × (is_neg prefix ≡ true → (build asio a prefix).prefix ≡ default_prefix a)
  unfolding build
  build_prefix a (pos n) = (λ h. refl, λ h. cc)
  build_prefix a (negsuc n) = (λ h. cc, λ h. refl)

  build-address : (a : Address) (prefix : ℤ) → (build asio a prefix).address ≡ a
  unfolding build
  build-address a prefix = refl

  -- On every text and prefix: the constructor throws exactly on a text that boost refuses.
  -- Otherwise it keeps boost's address and a prefix that is not negative, puts 32 or 64 for a
  -- negative one, and the scope of a host exactly for a loopback address.
  pub from_string-Builds :
      (text : Text) (prefix : ℤ) → Builds text prefix (from_string asio text prefix)
  from_string-Builds text prefix = elim (Option-cases (asio.from_string text)) [
    | inl refused ↦ rw (from_string_refused text prefix refused) (refused, refl)
    | inr (a, e) ↦
        let (stated, unstated) = build_prefix a prefix in
        rw (from_string_read text prefix a e) (
          e ∙ ap some (sym (build-address a prefix)),
          build-IsBuilt a prefix,
          stated,
          λ h. unstated h ∙ ap default_prefix (sym (build-address a prefix)),
        )
  ]

  -- `to_string` without the prefix is boost's text.
  pub to_string_bare : (ip : IpAddress Address) → to_string asio ip false ≡ asio.print ip.address
  unfolding to_string
  to_string_bare ip = append-nil _

  without_prefix-eq :
      (ip : IpAddress Address)
      → without_prefix asio ip ≡ from_string asio (to_string asio ip false) (negsuc 0)
  unfolding without_prefix
  without_prefix-eq ip = refl

  build-injective : (a b : Address) → build asio a (negsuc 0) ≡ build asio b (negsuc 0) → a ≡ b
  unfolding build
  build-injective a b h = ap (λ (x : IpAddress Address). x.address) h

  ok-injective : (a b : IpAddress Address) → ok a ≡ ok b → a ≡ b
  ok-injective a b h = cc

  module _ (law : IsAsio asio) where
    -- `without_prefix` never throws. It keeps the address, and gives it the prefix of its version and
    -- the scope that its address has, whatever the two were.
    pub without_prefix_lem :
        (ip : IpAddress Address) → without_prefix asio ip ≡ ok (build asio ip.address (negsuc 0))
    without_prefix_lem ip =
        without_prefix-eq ip
        ∙ rw to_string_bare (from_string_read _ (negsuc 0) ip.address (law.reads ip.address))

    -- Where boost's addresses are as documented, two addresses have the same `without_prefix`
    -- exactly when boost's addresses are equal.
    pub without_prefix_iff :
        (a b : IpAddress Address)
        → (without_prefix asio a ≡ without_prefix asio b) ↔ (a.address ≡ b.address)
    without_prefix_iff a b = (
      λ h.
          build-injective _ _
            (ok-injective _ _ (sym (without_prefix_lem a) ∙ h ∙ without_prefix_lem b)),
      λ h.
          without_prefix_lem a
          ∙ ap (λ x. ok (build asio x (negsuc 0))) h
          ∙ sym (without_prefix_lem b),
    )
