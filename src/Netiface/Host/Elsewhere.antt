-- ===== src/Netiface/Host/Elsewhere.antt =====
-- Which addresses of a host stay when the operations change an interface.
use fnc.Prelude.{
  ℕ, ◌≡◌, ◌⊎◌, sym, ap, ◌∙◌, ◌&&◌, arith, Bool, Bool-cases, true, false, inl, inr, List, [], ◌∷◌,
  ◌++◌, ◌==◌,
}
use fnc.IpAddress.Build.{IsAsio}
use fnc.Netiface.{Env}
use fnc.Netiface.Addresses.{Assigned}
use fnc.Netiface.Callbacks.{to_u32}
use fnc.Netiface.Host.{Link, Host, Fewer, OnLink6, Secondary, holds}
use fnc.Netiface.Host.Assigning.{assigned_to}
use fnc.Netiface.Host.Fewer.{Fewer-holds, Fewer-stays}
use fnc.Netiface.Host.Untouched.{is_one, Untouched, holds-insert_other}

module _ {World Address : Type 0} (env : Env World Address) (law : IsAsio env.asio)
    (same_network : ℕ → Address → Address → Bool) (deleted : Address) (l : Link) where
  open env use {asio}

  -- An address of another link, or an IPv4 address that is not in the network of the deleted one.
  abbrev pub Safe : ℕ → ℕ → Address → Type 0
  Safe index n x =
      ((to_u32 l.index == index) ≡ false)
      ⊎ ((asio.is_v4 x ≡ true) × (same_network n deleted x ≡ false))

  -- Beside these addresses of the link nothing is added, and of the others every safe one stays, with
  -- the same prefix lengths.
  pub record Elsewhere (ips : List Address) (h h' : Host Address) : Type 0 where
    pub stays :
        (index n : ℕ) (x : Address)
        → is_one env l ips index x ≡ false
        → Safe index n x
        → holds asio h'.assigned index n x ≡ holds asio h.assigned index n x
    pub none_new :
        (index n : ℕ) (x : Address)
        → is_one env l ips index x ≡ false
        → holds asio h.assigned index n x ≡ false
        → holds asio h'.assigned index n x ≡ false

  pub Untouched-Elsewhere :
      (ips : List Address) (h h' : Host Address) → Untouched env l ips h h' → Elsewhere ips h h'
  Untouched-Elsewhere ips h h' same = record {
    stays = λ index n x other safe. same index n x other;
    none_new = λ index n x other none. same index n x other ∙ none;
  }

  pub same-Elsewhere : (ips : List Address) (h h' : Host Address) → h' ≡ h → Elsewhere ips h h'
  same-Elsewhere ips h h' same =
      Untouched-Elsewhere ips h h'
        λ index n x other. ap (λ (y : Host Address). holds asio y.assigned index n x) same

  pub trans-Elsewhere :
      (ips : List Address) (h h1 h2 : Host Address)
      → Elsewhere ips h h1
      → Elsewhere ips h1 h2
      → Elsewhere ips h h2
  trans-Elsewhere ips h h1 h2 a b = record {
    stays = λ index n x other safe. b.stays index n x other safe ∙ a.stays index n x other safe;
    none_new = λ index n x other none. b.none_new index n x other (a.none_new index n x other none);
  }

  pub wider-Elsewhere :
      (ips wide : List Address) (h h' : Host Address)
      → ((index : ℕ) (x : Address)
          → is_one env l wide index x ≡ false
          → is_one env l ips index x ≡ false)
      → Elsewhere ips h h'
      → Elsewhere wide h h'
  wider-Elsewhere ips wide h h' narrow a = record {
    stays = λ index n x other safe. a.stays index n x (narrow index x other) safe;
    none_new = λ index n x other none. a.none_new index n x (narrow index x other) none;
  }

  -- A link is taken down.
  pub down-Elsewhere :
      (h h' : Host Address)
      → Fewer (OnLink6 asio (to_u32 l.index)) h.assigned h'.assigned
      → Elsewhere [] h h'
  down-Elsewhere h h' fewer = record {
    stays = λ index n x other safe.
        Fewer-stays asio _ h.assigned h'.assigned index n x fewer λ a y q.
          elim (Bool-cases (asio.equal y x)) [
            | inl e ↦ apart a y x index n safe q e
            | inr e ↦ ground (arith, e)
          ];
    none_new =
        λ index n x other none. Fewer-holds asio _ h.assigned h'.assigned index n x fewer none;
  }
    where
      apart :
          (a : Assigned) (y x : Address) (index n : ℕ)
          → Safe index n x
          → OnLink6 asio (to_u32 l.index) (a, y)
          → asio.equal y x ≡ true
          → (a.index == index && (a.prefixlen == n && asio.equal y x)) ≡ false
      apart a y x index n (inl far) (on, six) e =
          let here : (a.index == index) ≡ false = ap (λ i. i == index) on ∙ far in
          ground (arith, here)
      apart a y x index n (inr (four, _)) (on, six) e =
          let same : asio.is_v4 y ≡ asio.is_v4 x = ap asio.is_v4 ((law.equal_iff y x).0 e) in cc

  -- The address is deleted.
  pub removed-Elsewhere :
      (h h' : Host Address) (m : ℕ) (before after : List (Assigned × Address))
      → h.assigned ≡ before ++ ((assigned_to env l m deleted, deleted) ∷ after)
      → Fewer
          (Secondary asio same_network (assigned_to env l m deleted) deleted)
          (before ++ after)
          h'.assigned
      → Elsewhere (deleted ∷ []) h h'
  removed-Elsewhere h h' m before after old fewer = record {
    stays = λ index n x other safe.
        Fewer-stays asio _ (before ++ after) h'.assigned index n x fewer (λ b y q.
          elim (Bool-cases (b.prefixlen == n && asio.equal y x)) [
            | inl e ↦ apart b y x index n safe q e
            | inr e ↦ ground (arith, e)
          ])
        ∙ without index n x other;
    none_new = λ index n x other none.
        Fewer-holds asio _ (before ++ after) h'.assigned index n x fewer
          (without index n x other ∙ none);
  }
    where
      without :
          (index n : ℕ) (x : Address)
          → is_one env l (deleted ∷ []) index x ≡ false
          → holds asio (before ++ after) index n x ≡ holds asio h.assigned index n x
      without index n x other =
          sym (
            holds-insert_other asio before after (assigned_to env l m deleted) deleted index n x
              (ground (arith, other)))
          ∙ ap (λ es. holds asio es index n x) (sym old)

      apart :
          (b : Assigned) (y x : Address) (index n : ℕ)
          → Safe index n x
          → Secondary asio same_network (assigned_to env l m deleted) deleted (b, y)
          → (b.prefixlen == n && asio.equal y x) ≡ true
          → (b.index == index && (b.prefixlen == n && asio.equal y x)) ≡ false
      apart b y x index n (inl far) (_, _, on, _, _) e =
          let here : (b.index == index) ≡ false = ap (λ i. i == index) on ∙ far in
          ground (arith, here)
      apart b y x index n (inr (_, other)) (_, _, _, long, near) e =
          let is_n : b.prefixlen ≡ n = ground (arith, e) in
          let is_x : y ≡ x = (law.equal_iff y x).0 (ground (arith, e)) in
          let near' : same_network n deleted x ≡ true =
            ap (λ p. same_network p deleted x) (sym is_n ∙ long)
            ∙ ap (same_network m deleted) (sym is_x)
            ∙ near in
          cc

module _ {World Address : Type 0} (env : Env World Address) (law : IsAsio env.asio)
    (same_network : ℕ → Address → Address → Bool) (deleted : Address) where
  -- It is the same for a link that has got another MTU, and been taken down.
  pub relink-Elsewhere :
      (l : Link) (mtu : ℕ) (up : Bool) (ips : List Address) (h h' : Host Address)
      → Elsewhere env law same_network deleted (record l { mtu = mtu; up = up }) ips h h'
      → Elsewhere env law same_network deleted l ips h h'
  relink-Elsewhere l mtu up ips h h' e = record {
    stays = λ index n x other safe. e.stays index n x other safe;
    none_new = λ index n x other none. e.none_new index n x other none;
  }
