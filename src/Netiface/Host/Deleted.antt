-- ===== src/Netiface/Host/Deleted.antt =====
-- del_ip_address on a host that has the address.
use fnc.Prelude.{
  ℤ, ℕ, ◌≤◌, ◌≡◌, refl, sym, ap, subst, ◌∙◌, ◌⊎◌, pos, Bool, true, false, not, Bool-cases, inl, inr,
  List, length, ◌∷◌, ◌++◌,
}
use fnc.Exceptions.{ok}
use fnc.IpAddress.{build}
use fnc.IpAddress.Build.{IsAsio}
use fnc.IpAddress.Sockets.{IsInet}
use fnc.Netlink.Kernel.{NlReq, State}
use fnc.Netlink.{destroy}
use fnc.Netlink.Requests.{init_message-known}
use fnc.Netiface.{Env, clock}
use fnc.Netiface.Addresses.{Assigned}
use fnc.Netiface.Callbacks.{to_u32}
use fnc.Netiface.Change.{fill_address, is_gone, delete_prefix, remove_address, del_ip_address}
use fnc.Netiface.Host.{
  Acknowledged, HasAttribute, Fewer, Secondary, Link, Host, At, width, holds, has,
}
use fnc.Netiface.Host.Kernel.{Rtnetlink}
use fnc.Netiface.Host.Assigning.{assigned_to}
use fnc.Netiface.Host.Changes.{exchange_then-Acknowledged, wait_for_at_once}
use fnc.Netiface.Host.Dumped.{construct-Opens}
use fnc.Netiface.Host.Holds.{holds-Inserted, has-append, has-Inserted}
use fnc.Netiface.Host.Fewer.{Fewer-has}
use fnc.Netiface.Host.Reads.{get_index_At}
use fnc.Netiface.Host.Requested.{known_deladdr, below_256, requested}
use fnc.Netiface.Host.Deleting.{
  found_on, is_gone_At, sent_prefix, sent_prefix-256, delete_prefix_eq, prefix_matches, tested,
}

module _ {World Address : Type 0} (env : Env World Address) (k : Rtnetlink env) where
  open env use {sys, headers, asio, inet}

  deletes_address_of :
      (fd : ℤ) (w : World) (req : NlReq) (n : ℕ) (h : Host Address) (a : Assigned) (ip : Address)
      (before after : List (Assigned × Address))
      → k.host w ≡ h
      → req.hdr.nlmsg_type ≡ headers.rtm_deladdr
      → req.hdr.nlmsg_flags ≡ headers.request_ack
      → req.ifaddr.ifa_index ≡ a.index
      → req.ifaddr.ifa_family ≡ a.family
      → (asio.is_v4 ip ≡ true) ⊎ (req.ifaddr.ifa_prefixlen ≡ a.prefixlen)
      → HasAttribute headers req n headers.sizeof_ifaddrmsg headers.ifa_local
          (length (asio.bytes ip))
          (asio.bytes ip)
      → h.assigned ≡ before ++ ((a, ip) ∷ after)
      → has asio before a.index ip ≡ false
      → has asio after a.index ip ≡ false
      → (x : Acknowledged env fd w req n) × ((k.host x.after).links ≡ h.links)
        × Fewer (Secondary asio k.same_network a ip) (before ++ after) (k.host x.after).assigned
  deletes_address_of fd w req n h a ip before after same t f i g p attribute e b c =
      let (x, links, assigned) =
        k.deletes_address fd w req n a ip before after t f i g p attribute
          (ap (λ (y : Host Address). y.assigned) same ∙ e) b c in
      (x, links ∙ ap (λ (y : Host Address). y.links) same, assigned)

module _ {World Address : Type 0} (env : Env World Address) (k : Rtnetlink env)
    (law : IsAsio env.asio) where
  open env use {sys, headers, asio, inet, rounds, tries}

  module _ (scoped : Address → Bool) (net : IsInet asio inet scoped) where
    removed :
        (s : State World) (l : Link) (ip : Address) (n m : ℕ)
        (before after : List (Assigned × Address))
        → At l (k.host s.world).links
        → scoped ip ≡ false
        → n ≤ width asio ip
        → (asio.is_v4 ip ≡ true) ⊎ (n ≡ m)
        → (k.host s.world).assigned ≡ before ++ ((assigned_to env l m ip, ip) ∷ after)
        → has asio before (to_u32 l.index) ip ≡ false
        → has asio after (to_u32 l.index) ip ≡ false
        → (s' : State World) × (remove_address env l.name (build asio ip (pos n)) s ≡ (ok tt, s'))
          × ((k.host s'.world).links ≡ (k.host s.world).links)
          × Fewer
              (Secondary asio k.same_network (assigned_to env l m ip) ip)
              (before ++ after)
              (k.host s'.world).assigned
    unfolding remove_address
    removed s l ip n m before after at_l bare fits matches split none_before none_after =
        let (s1, i, kept1) = get_index_At env k.reporting s l at_l in
        let o = construct-Opens env k.reporting s1 in
        let (blank_msg, made, blank) =
          init_message-known headers o.nl headers.rtm_deladdr headers.request_ack
            (known_deladdr env) in
        let (msg, fills, same_type, same_flags, index, family, prefixlen, attribute, scope) =
          requested env law scoped net l ip n (sent_prefix env ip n) blank_msg bare
            (sent_prefix-256 env ip n (below_256 env ip n fits)) blank.no_attributes in
        let (a, same_links, assigned) =
          deletes_address_of env k o.nl.nl_sock o.opened.world msg.req msg.req.hdr.nlmsg_len
            (k.host s.world) (assigned_to env l m ip) ip before after (o.kept ∙ kept1)
            (same_type ∙ blank.same_type) (same_flags ∙ blank.same_flags) index family
            (subst (λ p. (asio.is_v4 ip ≡ true) ⊎ (p ≡ m)) (sym prefixlen)
              (prefix_matches env ip n m matches))
            (attribute (blank.address_length k.deladdr_apart)) split none_before none_after in
        let t : State World = record (o.opened) { world = a.after } in
        let (u, read, kept) =
          is_gone_At env k.reporting law t l ip n (subst (At l) (sym same_links) at_l) in
        let gone : not (has asio (k.host a.after).assigned (to_u32 l.index) ip) ≡ true =
          rw
            (Fewer-has asio _ (before ++ after) (k.host a.after).assigned (to_u32 l.index) ip
              assigned
              (has-append asio before after (to_u32 l.index) ip
                ∙ rw (none_before, none_after) refl))
            refl in
        let fill : fill_address env l.index (build asio ip (pos n))
              (delete_prefix env (build asio ip (pos n))) blank_msg
            ≡ ok msg =
          ap (λ p. fill_address env l.index (build asio ip (pos n)) p blank_msg)
            (delete_prefix_eq env ip n)
          ∙ fills in
        (
          destroy sys o.nl u,
          rw i (
              exchange_then-Acknowledged env k s1 headers.rtm_deladdr headers.request_ack
                (fill_address env l.index (build asio ip (pos n))
                  (delete_prefix env (build asio ip (pos n))))
                _ o msg (rw made fill) a u
                (wait_for_at_once (clock env) tries 500 50 _
                  (is_gone env l.name (build asio ip (pos n))) t u k.some_tries
                  (read ∙ ap (λ b. (ok b, u)) gone))),
          ap (λ (h : Host Address). h.links) (k.close_keeps o.nl.nl_sock u.world ∙ kept)
              ∙ same_links,
          subst
              (λ (h : Host Address).
                Fewer (Secondary asio k.same_network (assigned_to env l m ip) ip) (before ++ after)
                  h.assigned)
              (sym (k.close_keeps o.nl.nl_sock u.world ∙ kept)) assigned,
        )

    found :
        (h : Host Address) (l : Link) (ip : Address) (n m : ℕ)
        (before after : List (Assigned × Address))
        → (asio.is_v4 ip ≡ true) ⊎ (n ≡ m)
        → h.assigned ≡ before ++ ((assigned_to env l m ip, ip) ∷ after)
        → found_on env h l ip n ≡ true
    found h l ip n m before after matches split = elim (Bool-cases (asio.is_v4 ip)) [
      | inl is4 ↦ rw is4 (
          ap (λ es. has asio es (to_u32 l.index) ip) split
          ∙ has-Inserted asio law before after (assigned_to env l m ip) ip)
      | inr is6 ↦ rw is6 (
          ap (λ es. holds asio es (to_u32 l.index) n ip) split
          ∙ ap
              (λ p.
                holds asio (before ++ ((assigned_to env l m ip, ip) ∷ after)) (to_u32 l.index) p ip)
              (same matches is6)
          ∙ holds-Inserted asio law before after (assigned_to env l m ip) ip)
    ]
      where
        same : (asio.is_v4 ip ≡ true) ⊎ (n ≡ m) → asio.is_v4 ip ≡ false → n ≡ m
        same (inl e) f = cc
        same (inr e) f = e

    -- Where the kernel keeps its promises, del_ip_address returns for an address that is built with a prefix
    -- length `n` of at most its width and that has no scope id, if the interface has this address exactly
    -- once, with a prefix length `m` that is `n` or, for an IPv4 address, any other: the address is
    -- gone, no link is changed, and every other address stays, except that with an IPv4 address other
    -- IPv4 addresses of the interface with its prefix length, in its network, can go too.
    pub del_ip_address_At :
        (s : State World) (l : Link) (ip : Address) (n m : ℕ)
        (before after : List (Assigned × Address))
        → At l (k.host s.world).links
        → scoped ip ≡ false
        → n ≤ width asio ip
        → (asio.is_v4 ip ≡ true) ⊎ (n ≡ m)
        → (k.host s.world).assigned ≡ before ++ ((assigned_to env l m ip, ip) ∷ after)
        → has asio before (to_u32 l.index) ip ≡ false
        → has asio after (to_u32 l.index) ip ≡ false
        → (s' : State World) × (del_ip_address env l.name (build asio ip (pos n)) s ≡ (ok tt, s'))
          × ((k.host s'.world).links ≡ (k.host s.world).links)
          × Fewer
              (Secondary asio k.same_network (assigned_to env l m ip) ip)
              (before ++ after)
              (k.host s'.world).assigned
    del_ip_address_At s l ip n m before after at_l bare fits matches split none_before none_after =
        let (s2, run, kept) = tested env k.reporting law s l ip n at_l in
        let (s', returns, links, assigned) =
          removed s2 l ip n m before after (subst (λ h. At l h.links) (sym kept) at_l) bare fits
            matches (ap (λ (h : Host Address). h.assigned) kept ∙ split) none_before none_after in
        (
          s',
          run ∙ rw (found (k.host s.world) l ip n m before after matches split) returns,
          links ∙ ap (λ (h : Host Address). h.links) kept,
          assigned,
        )
