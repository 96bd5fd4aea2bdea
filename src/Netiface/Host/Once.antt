-- ===== src/Netiface/Host/Once.antt =====
-- An address that an interface has exactly once, with whatever prefix length: how it comes to be so,
-- how it stays so, and del_ip_address of such an address.
use fnc.Prelude.{
  ℕ, ◌≤◌, ◌≡◌, ◌⊎◌, ap, ◌∙◌, ◌&&◌, arith, pos, Bool, true, false, inl, inr, refl, List, [], ◌∷◌,
  ◌++◌, ◌==◌,
}
use fnc.Exceptions.{ok}
use fnc.IpAddress.{build}
use fnc.IpAddress.Build.{IsAsio}
use fnc.IpAddress.Sockets.{IsInet}
use fnc.Netlink.Kernel.{State}
use fnc.Netiface.{Env}
use fnc.Netiface.Addresses.{Assigned}
use fnc.Netiface.Callbacks.{to_u32}
use fnc.Netiface.Change.{del_ip_address}
use fnc.Netiface.Host.{Link, Host, At, width, has}
use fnc.Netiface.Host.Kernel.{Rtnetlink}
use fnc.Netiface.Host.Assigning.{assigned_to}
use fnc.Netiface.Host.Fewer.{Fewer-has}
use fnc.Netiface.Host.Elsewhere.{Elsewhere, same-Elsewhere, removed-Elsewhere}
use fnc.Netiface.Host.Deleting.{found_on, del_ip_address_absent}
use fnc.Netiface.Host.Deleted.{del_ip_address_At}
use fnc.Netiface.Host.Holds.{has-append}

module _ {World Address : Type 0} (env : Env World Address) (l : Link) (ip : Address) where
  open env use {asio}

  -- The link has the address exactly once.
  abbrev pub Once : List (Assigned × Address) → Type 0
  Once [] = ⊥
  Once ((a, x) ∷ es) =
      (((m : ℕ) × (a ≡ assigned_to env l m ip) × (x ≡ ip))
        × (has asio es (to_u32 l.index) ip ≡ false))
      ⊎ (((a.index == to_u32 l.index && asio.equal x ip) ≡ false) × Once es)

  abbrev pub AtMostOnce : List (Assigned × Address) → Type 0
  AtMostOnce es = (has asio es (to_u32 l.index) ip ≡ false) ⊎ Once es

  pub none-insert :
      (before after : List (Assigned × Address)) (a : Assigned) (x : Address)
      → asio.equal x ip ≡ false
      → has asio (before ++ after) (to_u32 l.index) ip ≡ false
      → has asio (before ++ ((a, x) ∷ after)) (to_u32 l.index) ip ≡ false
  none-insert [] after a x other none = ground (arith, other, none)
  none-insert ((b, y) ∷ before) after a x other none =
      ground (arith, none, none-insert before after a x other)

  -- It stays so when another address is assigned,
  pub Once-insert :
      (before after : List (Assigned × Address)) (a : Assigned) (x : Address)
      → asio.equal x ip ≡ false
      → Once (before ++ after)
      → Once (before ++ ((a, x) ∷ after))
  Once-insert [] after a x other once = inr (ground (arith, other), once)
  Once-insert ((b, y) ∷ before) after a x other (inl (is, none)) =
      inl (is, none-insert before after a x other none)
  Once-insert ((b, y) ∷ before) after a x other (inr (apart, once)) =
      inr (apart, Once-insert before after a x other once)

  -- and becomes so when an address is assigned that was not there.
  pub Once-assigned :
      (before after : List (Assigned × Address)) (m : ℕ)
      → has asio (before ++ after) (to_u32 l.index) ip ≡ false
      → Once (before ++ ((assigned_to env l m ip, ip) ∷ after))
  Once-assigned [] after m none = inl ((m, refl, refl), none)
  Once-assigned ((b, y) ∷ before) after m none =
      inr (ground (arith, none), Once-assigned before after m (ground (arith, none)))

  -- Where it stands, and that it stands nowhere else.
  pub Once-split :
      (es : List (Assigned × Address))
      → Once es
      → (m : ℕ) × (before : List (Assigned × Address)) × (after : List (Assigned × Address)) × (es
          ≡ before ++ ((assigned_to env l m ip, ip) ∷ after))
        × (has asio before (to_u32 l.index) ip ≡ false)
        × (has asio after (to_u32 l.index) ip ≡ false)
  Once-split [] once = absurd once
  Once-split ((a, x) ∷ es) (inl ((m, is_a, is_x), none)) =
      (m, [], es, λ i. (is_a i, is_x i) ∷ es, refl, none)
  Once-split ((a, x) ∷ es) (inr (apart, once)) =
      let (m, before, after, split, none_before, none_after) = Once-split es once in
      (
        m,
        (a, x) ∷ before,
        after,
        ap (λ r. (a, x) ∷ r) split,
        ground (arith, apart, none_before),
        none_after,
      )

module _ {World Address : Type 0} (env : Env World Address) (k : Rtnetlink env)
    (law : IsAsio env.asio) (scoped : Address → Bool) (net : IsInet env.asio env.inet scoped) where
  open env use {asio}

  -- An IPv4 address that the interface has at most once is gone behind del_ip_address.
  pub del_ip_address_rare :
      (s : State World) (l : Link) (ip : Address) (n : ℕ)
      → At l (k.host s.world).links
      → scoped ip ≡ false
      → n ≤ width asio ip
      → asio.is_v4 ip ≡ true
      → AtMostOnce env l ip (k.host s.world).assigned
      → (s' : State World) × (del_ip_address env l.name (build asio ip (pos n)) s ≡ (ok tt, s'))
        × ((k.host s'.world).links ≡ (k.host s.world).links)
        × (has asio (k.host s'.world).assigned (to_u32 l.index) ip ≡ false)
        × Elsewhere env law k.same_network ip l (ip ∷ []) (k.host s.world) (k.host s'.world)
  del_ip_address_rare s l ip n at_l bare fits is4 (inl none) =
      let missing : found_on env (k.host s.world) l ip n ≡ false = rw is4 none in
      let (s', run, kept) = del_ip_address_absent env k.reporting law s l ip n at_l missing in
      (
        s',
        run,
        ap (λ (h : Host Address). h.links) kept,
        ap (λ (h : Host Address). has asio h.assigned (to_u32 l.index) ip) kept ∙ none,
        same-Elsewhere env law k.same_network ip l (ip ∷ []) (k.host s.world) (k.host s'.world)
            kept,
      )
  del_ip_address_rare s l ip n at_l bare fits is4 (inr once) =
      let (m, before, after, split, none_before, none_after) =
        Once-split env l ip (k.host s.world).assigned once in
      let (s', run, links, assigned) =
        del_ip_address_At env k law scoped net s l ip n m before after at_l bare fits (inl is4)
          split none_before none_after in
      (
        s',
        run,
        links,
        Fewer-has asio _ (before ++ after) (k.host s'.world).assigned (to_u32 l.index) ip assigned
            (has-append asio before after (to_u32 l.index) ip ∙ rw (none_before, none_after) refl),
        removed-Elsewhere env law k.same_network ip l (k.host s.world) (k.host s'.world) m before
            after split assigned,
      )
