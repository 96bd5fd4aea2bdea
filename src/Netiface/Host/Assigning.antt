-- ===== src/Netiface/Host/Assigning.antt =====
-- set_ip_address on a host: it is there once, however often it is set.
use fnc.Prelude.{
  ℕ, ◌≤◌, ◌≡◌, refl, sym, ap, subst, ◌∙◌, ℤ, pos, Bool, true, false, Bool-cases, inl, inr, ◌⊎◌,
  if◌then◌else◌, length,
}
use fnc.Exceptions.{ok}
use fnc.IpAddress.{build}
use fnc.IpAddress.Build.{IsAsio}
use fnc.IpAddress.Sockets.{IsInet}
use fnc.Netlink.Kernel.{State, NlReq}
use fnc.Netlink.{destroy}
use fnc.Netlink.Requests.{init_message-known}
use fnc.Netiface.{Env, clock}
use fnc.Netiface.Addresses.{Assigned}
use fnc.Netiface.Callbacks.{to_u32}
use fnc.Netiface.Change.{fill_address, has_address, add_address, set_ip_address}
use fnc.Netiface.Host.{
  Link, Host, At, Acknowledged, Inserted, width, holds, conflicts, HasAttribute,
}
use fnc.Netiface.Host.Kernel.{Rtnetlink}
use fnc.Netiface.Host.Changes.{exchange_then-Acknowledged, wait_for_at_once}
use fnc.Netiface.Host.Dumped.{construct-Opens}
use fnc.Netiface.Host.Holds.{holds-Inserted}
use fnc.Netiface.Host.Present.{has_address_At, present}
use fnc.Netiface.Host.Requested.{known_newaddr, below_256, requested}
use fnc.Netiface.Host.Reads.{get_index_At}

module _ {World Address : Type 0} (env : Env World Address) where
  open env use {asio, inet}

  -- The host `h'` is `h` with the address, which is assigned at some place among the others if it is not
  -- there already.
  abbrev pub WithAddress : Host Address → Assigned → Address → Host Address → Type 0
  WithAddress h a ip h' =
      ((holds asio h.assigned a.index a.prefixlen ip ≡ true) × (h' ≡ h))
      ⊎ ((holds asio h.assigned a.index a.prefixlen ip ≡ false)
          × (h'.links ≡ h.links)
          × Inserted (a, ip) h.assigned h'.assigned)

  -- The address of a link, as the host keeps it.
  abbrev pub assigned_to : Link → ℕ → Address → Assigned
  assigned_to l prefixlen ip = record {
    index = to_u32 l.index;
    family = if asio.is_v4 ip then inet.af_inet else inet.af_inet6;
    prefixlen = prefixlen;
  }

module _ {World Address : Type 0} (env : Env World Address) (k : Rtnetlink env)
    (law : IsAsio env.asio) where
  open env use {sys, headers, asio, inet, rounds, tries}

  adds_address_of :
      (fd : ℤ) (w : World) (req : NlReq) (n : ℕ) (h : Host Address) (a : Assigned) (ip : Address)
      → k.host w ≡ h
      → req.hdr.nlmsg_type ≡ headers.rtm_newaddr
      → req.hdr.nlmsg_flags ≡ headers.request_create_excl_ack
      → req.ifaddr.ifa_index ≡ a.index
      → req.ifaddr.ifa_family ≡ a.family
      → req.ifaddr.ifa_prefixlen ≡ a.prefixlen
      → HasAttribute headers req n headers.sizeof_ifaddrmsg headers.ifa_local
          (length (asio.bytes ip))
          (asio.bytes ip)
      → a.family ≡ (if asio.is_v4 ip then inet.af_inet else inet.af_inet6)
      → a.prefixlen ≤ width asio ip
      → k.takes ip a.prefixlen ≡ true
      → req.ifaddr.ifa_scope ≡ (if asio.is_loopback ip then 254 else 0)
      → conflicts asio h.assigned a.index a.prefixlen ip ≡ false
      → (x : Acknowledged env fd w req n) × ((k.host x.after).links ≡ h.links)
        × Inserted (a, ip) h.assigned (k.host x.after).assigned
  adds_address_of fd w req n h a ip same t f i g p attribute family fits taken scope =
      subst
        (λ y.
          conflicts asio y.assigned a.index a.prefixlen ip ≡ false
          → (x : Acknowledged env fd w req n) × ((k.host x.after).links ≡ y.links)
            × Inserted (a, ip) y.assigned (k.host x.after).assigned)
        same (k.adds_address fd w req n a ip t f i g p family fits taken scope attribute)

  module _ (scoped : Address → Bool) (net : IsInet asio inet scoped) where
    added :
        (s s1 : State World) (l : Link) (ip : Address) (n : ℕ)
        → At l (k.host s.world).links
        → scoped ip ≡ false
        → n ≤ width asio ip
        → k.takes ip n ≡ true
        → has_address env l.name (build asio ip (pos n)) s ≡ (ok false, s1)
        → k.host s1.world ≡ k.host s.world
        → conflicts asio (k.host s.world).assigned (to_u32 l.index) n ip ≡ false
        → (s' : State World) × (add_address env l.name (build asio ip (pos n)) s ≡ (ok tt, s'))
          × ((k.host s'.world).links ≡ (k.host s.world).links)
          × Inserted
              (assigned_to env l n ip, ip)
              (k.host s.world).assigned
              (k.host s'.world).assigned
    unfolding add_address build
    added s s1 l ip n at_l bare fits taken asked kept1 absent =
        let (s2, i, kept2) =
          get_index_At env k.reporting s1 l (subst (λ h. At l h.links) (sym kept1) at_l) in
        let o = construct-Opens env k.reporting s2 in
        let (blank_msg, made, blank) =
          init_message-known headers o.nl headers.rtm_newaddr headers.request_create_excl_ack
            (known_newaddr env) in
        let (msg, fills, same_type, same_flags, index, family, prefixlen, attribute, scope) =
          requested env law scoped net l ip n n blank_msg bare (below_256 env ip n fits)
            blank.no_attributes in
        let (a, same_links, inserted) =
          adds_address_of o.nl.nl_sock o.opened.world msg.req msg.req.hdr.nlmsg_len (k.host s.world)
            (assigned_to env l n ip) ip (o.kept ∙ kept2 ∙ kept1) (same_type ∙ blank.same_type)
            (same_flags ∙ blank.same_flags) index family prefixlen
            (attribute (blank.address_length k.newaddr_apart)) refl fits taken scope absent in
        let (before, after, old, new) = inserted in
        let t : State World = record (o.opened) { world = a.after } in
        let (u, read, kept) =
          has_address_At env k.reporting law t l ip n (subst (At l) (sym same_links) at_l) in
        let passes : has_address env l.name (build asio ip (pos n)) t ≡ (ok true, u) =
          read
          ∙ ap (λ b. (ok b, u))
              (ap (λ es. holds asio es (to_u32 l.index) n ip) new
                ∙ holds-Inserted asio law before after (assigned_to env l n ip) ip) in
        (
          destroy sys o.nl u,
          rw asked (
              rw i (
                exchange_then-Acknowledged env k s2 headers.rtm_newaddr
                  headers.request_create_excl_ack
                  (fill_address env l.index (build asio ip (pos n)) (pos n)) _ o msg (rw made fills)
                  a u
                  (wait_for_at_once (clock env) tries 500 50 _
                    (has_address env l.name (build asio ip (pos n))) t u k.some_tries passes))),
          ap (λ (h : Host Address). h.links) (k.close_keeps o.nl.nl_sock u.world ∙ kept)
              ∙ same_links,
          (
            before,
            after,
            old,
            ap (λ (h : Host Address). h.assigned) (k.close_keeps o.nl.nl_sock u.world ∙ kept) ∙ new,
          ),
        )

    -- Where the kernel keeps its promises, set_ip_address returns for an address that is built with a
    -- prefix length of at most its width, that has no scope id and that the kernel takes for a host, if
    -- the interface does not have it as an IPv6 address with another prefix length only. If the host
    -- had the address on this interface, with this prefix length, nothing is changed; otherwise
    -- exactly this address is assigned, and nothing else of the host is changed.
    pub set_ip_address_At :
        (s : State World) (l : Link) (ip : Address) (n : ℕ)
        → At l (k.host s.world).links
        → scoped ip ≡ false
        → n ≤ width asio ip
        → k.takes ip n ≡ true
        → (holds asio (k.host s.world).assigned (to_u32 l.index) n ip ≡ true)
          ⊎ (conflicts asio (k.host s.world).assigned (to_u32 l.index) n ip ≡ false)
        → (s' : State World) × (set_ip_address env l.name (build asio ip (pos n)) s ≡ (ok tt, s'))
          × WithAddress env (k.host s.world) (assigned_to env l n ip) ip (k.host s'.world)
    unfolding set_ip_address build
    set_ip_address_At s l ip n at_l bare fits taken free =
        let (s1, asked, kept) = has_address_At env k.reporting law s l ip n at_l in
        elim (Bool-cases (holds asio (k.host s.world).assigned (to_u32 l.index) n ip)) [
          | inl e ↦ (
            s1,
            present env k.reporting law s s1 l ip n (asked ∙ ap (λ b. (ok b, s1)) e),
            inl (e, kept),
          )
          | inr e ↦
              let (s', done, links, changed) =
                added s s1 l ip n at_l bare fits taken (asked ∙ ap (λ b. (ok b, s1)) e) kept
                  (free_of free e) in
              (s', done, inr (e, links, changed))
        ]
      where
        free_of : {a b : Bool} → (a ≡ true) ⊎ (b ≡ false) → a ≡ false → b ≡ false
        free_of (inl there) e = cc
        free_of (inr free) e = free
