-- ===== src/Netiface/Host/Denied/Deletion.antt =====
-- del_ip_address on a host whose kernel refuses every change.
use fnc.Prelude.{
  ℕ, ◌≤◌, ◌≡◌, refl, sym, ap, subst, ◌∙◌, ℤ, pos, Bool, false, Bool-cases, inl, inr, if◌then◌else◌,
}
use fnc.Exceptions.{ok, throw}
use fnc.IpAddress.{build}
use fnc.IpAddress.Build.{IsAsio}
use fnc.IpAddress.Sockets.{IsInet}
use fnc.Netlink.Kernel.{State}
use fnc.Netlink.{error_of}
use fnc.Netlink.Requests.{init_message-known}
use fnc.Netiface.{Env}
use fnc.Netiface.Change.{fill_address, delete_prefix, remove_address, del_ip_address}
use fnc.Netiface.Host.{Link, At, width}
use fnc.Netiface.Host.Kernel.{Refusing}
use fnc.Netiface.Host.Dumped.{construct-Opens}
use fnc.Netiface.Host.Reads.{get_index_At}
use fnc.Netiface.Host.Requested.{below_256, requested, known_deladdr}
use fnc.Netiface.Host.Deleting.{found_on, sent_prefix, sent_prefix-256, delete_prefix_eq, tested}
use fnc.Netiface.Host.Denied.{exchange_then-Refused}

module _ {World Address : Type 0} (env : Env World Address) (error : ℤ) (k : Refusing env error)
    (law : IsAsio env.asio) (scoped : Address → Bool) (net : IsInet env.asio env.inet scoped) where
  open env use {sys, headers, asio, inet}

  remove_refused :
      (s : State World) (l : Link) (ip : Address) (n : ℕ)
      → At l (k.host s.world).links
      → scoped ip ≡ false
      → n ≤ width asio ip
      → (s' : State World) × (remove_address env l.name (build asio ip (pos n)) s
          ≡ (throw (error_of error), s'))
        × (k.host s'.world ≡ k.host s.world)
  unfolding remove_address
  remove_refused s l ip n at_l bare fits =
      let (s1, i, kept1) = get_index_At env k.reporting s l at_l in
      let o = construct-Opens env k.reporting s1 in
      let (blank_msg, made, blank) =
        init_message-known headers o.nl headers.rtm_deladdr headers.request_ack
          (known_deladdr env) in
      let (msg, fills, same_type, flags, index, family, prefixlen, attribute, scope) =
        requested env law scoped net l ip n (sent_prefix env ip n) blank_msg bare
          (sent_prefix-256 env ip n (below_256 env ip n fits)) blank.no_attributes in
      let address = build asio ip (pos n) in
      let fill : fill_address env l.index address (delete_prefix env address) blank_msg ≡ ok msg =
        ap (λ p. fill_address env l.index address p blank_msg) (delete_prefix_eq env ip n)
        ∙ fills in
      let (s', thrown, kept) =
        exchange_then-Refused env error k s1 headers.rtm_deladdr headers.request_ack
          (fill_address env l.index address (delete_prefix env address)) o msg (rw made fill)
          (inr (inr (same_type ∙ blank.same_type))) in
      (s', rw i (thrown _), kept ∙ kept1)

  -- Where the kernel reports its host and refuses every change with the same error, for an interface of
  -- the host and an address that is built with a prefix length of at most its width and has no scope id:
  -- del_ip_address returns if the interface does not have the address, an IPv4 address with any prefix
  -- length or an IPv6 address with this one, and throws the exception for the error otherwise. The host is
  -- as before.
  pub del_ip_address_refused :
      (s : State World) (l : Link) (ip : Address) (n : ℕ)
      → At l (k.host s.world).links
      → scoped ip ≡ false
      → n ≤ width asio ip
      → (s' : State World) × (del_ip_address env l.name (build asio ip (pos n)) s
          ≡ ((if found_on env (k.host s.world) l ip n then throw (error_of error) else ok tt), s'))
        × (k.host s'.world ≡ k.host s.world)
  del_ip_address_refused s l ip n at_l bare fits =
      let (s1, run, kept1) = tested env k.reporting law s l ip n at_l in
      elim (Bool-cases (found_on env (k.host s.world) l ip n)) [
        | inl e ↦
            let (s', thrown, kept) =
              remove_refused s1 l ip n (subst (λ h. At l h.links) (sym kept1) at_l) bare fits in
            (s', run ∙ rw e thrown, kept ∙ kept1)
        | inr e ↦ (s1, run ∙ rw e refl, kept1)
      ]
