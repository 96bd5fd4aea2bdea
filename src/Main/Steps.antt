-- ===== src/Main/Steps.antt =====
-- What the calls of `main` do to a host.
use fnc.Prelude.{
  ℕ, ◌≤◌, ◌≡◌, ◌⊎◌, refl, sym, ap, subst, ◌∙◌, arith, pos, negsuc, Bool, true, false, Bool-cases,
  inl, inr, some, List, [], ◌∷◌, ◌++◌, map, Text, text_eq, text_eq_iff, if◌then◌else◌,
}
use fnc.Exceptions.{ok, lift}
use fnc.Exceptions.Laws.{>>=-ok}
use fnc.ContainerUtil.{contains}
use fnc.IpAddress
use fnc.IpAddress.{Asio, build}
use fnc.IpAddress.Build.{IsAsio, from_string_read}
use fnc.IpAddress.Sockets.{IsInet}
use fnc.Netlink.Kernel.{State}
use fnc.Netiface.{Env, get_iface_names, construct_netiface, get_ip_addresses}
use fnc.Netiface.Class.{netiface}
use fnc.Netiface.Callbacks.{to_u32}
use fnc.Netiface.Host.{Link, Host, At, width, holds, has, conflicts}
use fnc.Netiface.Host.Elsewhere.{Elsewhere}
use fnc.Netiface.Host.Once.{AtMostOnce, del_ip_address_rare}
use fnc.Netiface.Host.Kernel.{Reporting, Rtnetlink}
use fnc.Netiface.Host.Assigning.{WithAddress, assigned_to, set_ip_address_At}
use fnc.Netiface.Host.Deleting.{found_on, del_ip_address_absent}
use fnc.Netiface.Host.Reads.{get_iface_names-host, get_ip_addresses_impl_At}
use fnc.Main.{set_literal, del_literal}

module _ {World Address : Type 0} (env : Env World Address) (k : Reporting env) where
  open env use {asio, inet}

  pub carried : (l : Link) (h h' : Host Address) → h' ≡ h → At l h.links → At l h'.links
  carried l h h' e at = subst (λ x. At l x.links) (sym e) at

  contains_At :
      (l : Link) (links : List Link)
      → At l links
      → contains text_eq (map (λ l. l.name) links) l.name ≡ true
  contains_At l links at =
      ap (λ t. contains text_eq (map (λ l. l.name) t) l.name) at.split ∙ go at.before
    where
      go :
          (before : List Link)
          → contains text_eq (map (λ l. l.name) (before ++ (l ∷ at.after))) l.name ≡ true
      go [] = rw ((text_eq_iff l.name l.name).1 refl) refl
      go (x ∷ before) = ground (arith, go before)

  -- The constructor accepts the name of a link.
  pub construct_At :
      (s : State World) (l : Link)
      → At l (k.host s.world).links
      → (s' : State World) × (get_iface_names env s
          ≡ (ok (map (λ l. l.name) (k.host s.world).links), s'))
        × (construct_netiface env l.name s ≡ (ok l.name, s'))
        × (k.host s'.world ≡ k.host s.world)
  construct_At s l at =
      let (s', names, construct, kept) = get_iface_names-host env k s in
      (s', names, construct l.name ∙ rw (contains_At l (k.host s.world).links at) refl, kept)

  pub get_ip_addresses_At :
      (s : State World) (l : Link) (ip_family : ℕ)
      → At l (k.host s.world).links
      → (ips : List (IpAddress.IpAddress Address)) × (s' : State World) × (get_ip_addresses env
            l.name ip_family s
          ≡ (ok ips, s'))
        × (k.host s'.world ≡ k.host s.world)
  unfolding get_ip_addresses
  get_ip_addresses_At s l ip_family at =
      let (s', read, kept) = get_ip_addresses_impl_At env k s l ip_family true at in
      (_, s', read, kept)

  -- boost reads the literal as this address, which gets this prefix length.
  pub record Reads (literal : Text) (ip : Address) (n : ℕ) : Type 0 where
    pub reads : asio.from_string literal ≡ some ip
    pub prefix_length : (if asio.is_v4 ip then 32 else 64) ≡ n

  pub literal_built :
      (literal : Text) (ip : Address) (n : ℕ)
      → Reads literal ip n
      → IpAddress.from_string asio literal (negsuc 0) ≡ ok (build asio ip (pos n))
  unfolding build
  literal_built literal ip n r =
      from_string_read asio literal (negsuc 0) ip r.reads ∙ elim (Bool-cases (asio.is_v4 ip)) [
        | inl e ↦ rw (e, sym (rw e at r.prefix_length)) refl
        | inr e ↦ rw (e, sym (rw e at r.prefix_length)) refl
      ]

  pub literal-width :
      (literal : Text) (ip : Address) (n : ℕ) → Reads literal ip n → n ≤ width asio ip
  literal-width literal ip n r = ground (arith, r.prefix_length)

  module _ (law : IsAsio asio) where
    pub del_literal_absent :
        (s : State World) (l : Link) (literal : Text) (ip : Address) (n : ℕ)
        → At l (k.host s.world).links
        → Reads literal ip n
        → found_on env (k.host s.world) l ip n ≡ false
        → (s' : State World) × (del_literal (netiface env) asio l.name literal s ≡ (ok tt, s'))
          × (k.host s'.world ≡ k.host s.world)
    del_literal_absent s l literal ip n at r absent =
        let (s', run, kept) = del_ip_address_absent env k law s l ip n at absent in
        (
          s',
          >>=-ok (lift (IpAddress.from_string asio literal (negsuc 0))) _ _ s s (ok tt, s')
              (ap (λ x. (x, s)) (literal_built literal ip n r)) run,
          kept,
        )

module _ {World Address : Type 0} (env : Env World Address) (k : Rtnetlink env)
    (law : IsAsio env.asio) where
  open env use {asio, inet}

  pub set_literal_At :
      (scoped : Address → Bool) (net : IsInet asio inet scoped) (s : State World) (l : Link)
      (literal : Text) (ip : Address) (n : ℕ)
      → At l (k.host s.world).links
      → Reads env k.reporting literal ip n
      → scoped ip ≡ false
      → k.takes ip n ≡ true
      → (holds asio (k.host s.world).assigned (to_u32 l.index) n ip ≡ true)
        ⊎ (conflicts asio (k.host s.world).assigned (to_u32 l.index) n ip ≡ false)
      → (s' : State World) × (set_literal (netiface env) asio l.name literal s ≡ (ok tt, s'))
        × WithAddress env (k.host s.world) (assigned_to env l n ip) ip (k.host s'.world)
  set_literal_At scoped net s l literal ip n at r bare taken free =
      let (s', run, change) =
        set_ip_address_At env k law scoped net s l ip n at bare
          (literal-width env k.reporting literal ip n r) taken free in
      (
        s',
        >>=-ok (lift (IpAddress.from_string asio literal (negsuc 0))) _ _ s s (ok tt, s')
            (ap (λ x. (x, s)) (literal_built env k.reporting literal ip n r)) run,
        change,
      )

  -- The literal that `main` deletes, where the interface has its address at most once.
  pub del_literal_rare :
      (scoped : Address → Bool) (net : IsInet asio inet scoped) (s : State World) (l : Link)
      (literal : Text) (ip : Address)
      → At l (k.host s.world).links
      → Reads env k.reporting literal ip 32
      → scoped ip ≡ false
      → AtMostOnce env l ip (k.host s.world).assigned
      → (s' : State World) × (del_literal (netiface env) asio l.name literal s ≡ (ok tt, s'))
        × ((k.host s'.world).links ≡ (k.host s.world).links)
        × (has asio (k.host s'.world).assigned (to_u32 l.index) ip ≡ false)
        × Elsewhere env law k.same_network ip l (ip ∷ []) (k.host s.world) (k.host s'.world)
  del_literal_rare scoped net s l literal ip at r bare rare =
      let (s', run, links, none, elsewhere) =
        del_ip_address_rare env k law scoped net s l ip 32 at bare
          (literal-width env k.reporting literal ip 32 r) (ground (arith, r.prefix_length)) rare in
      (
        s',
        >>=-ok (lift (IpAddress.from_string asio literal (negsuc 0))) _ _ s s (ok tt, s')
            (ap (λ x. (x, s)) (literal_built env k.reporting literal ip 32 r)) run,
        links,
        none,
        elsewhere,
      )
