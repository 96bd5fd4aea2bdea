-- ===== src/Netiface/Host/Denied.antt =====
-- The operations on a host whose kernel refuses every change.
pub mod Deletion
mod Tests
use fnc.Prelude.{
  ℕ, ◌<◌, ◌≤◌, ◌≡◌, refl, sym, ap, subst, ◌∙◌, ◌⊎◌, arith, ℤ, pos, int_eq, Bool, true, false,
  Bool-cases, inl, inr, none, List, [], ◌∷◌, ◌++◌, Text, if◌then◌else◌,
}
use fnc.Exceptions.{Outcome, ok, throw, then_do, M, pure, continue, ◌>>=◌, ◌>>◌}
use fnc.IpAddress.{IpAddress, build}
use fnc.IpAddress.Build.{IsAsio}
use fnc.IpAddress.Sockets.{IsInet}
use fnc.Netlink.Kernel.{State, NlMsg}
use fnc.Netlink.{
  Netlink, destroy, with_netlink, init_message, error_of, send_message_async, send_message_sync,
}
use fnc.Netlink.Requests.{init_message-Makes, init_message-known}
use fnc.Netlink.Response.Endings.{Incoming, handle_response_async-error}
use fnc.Netiface.{Env, exchange_then}
use fnc.Netiface.Callbacks.{to_u32}
use fnc.Netiface.Change.{
  has_address, fill_mtu, set_mtu, fill_address, add_address, set_ip_address, delete_prefix,
  remove_address, del_ip_address,
}
use fnc.Netiface.Host.{Link, Host, At, width, holds, Refused, IsChange}
use fnc.Netiface.Host.Kernel.{Reporting, Refusing}
use fnc.Netiface.Host.Dumped.{Opens, construct-Opens}
use fnc.Netiface.Host.Reads.{get_index_At}
use fnc.Netiface.Host.Requested.{
  below_256, requested, known_newlink, known_newaddr, known_deladdr, fill_mtu-HasAttribute,
}
use fnc.Netiface.Host.Present.{has_address_At, present}
use fnc.Netiface.Host.Deleting.{found_on, sent_prefix, sent_prefix-256, delete_prefix_eq, tested}

module _ {World Address : Type 0} (env : Env World Address) (error : ℤ)
    (k : Refusing env error) where
  open env use {sys, headers, asio, inet, rounds}

  abbrev at : State World → World → State World
  at s w = record s { world = w }

  sync-Refused :
      (nl : Netlink) (msg : NlMsg) (s : State World)
      (a : Refused env nl.nl_sock s.world msg.req msg.req.hdr.nlmsg_len error)
      → send_message_sync sys headers none rounds nl msg tt s
        ≡ (throw (error_of error), at s a.after)
  unfolding send_message_sync send_message_async
  sync-Refused nl msg s a =
      let i : Incoming sys headers none nl (at s a.sent) tt = record {
        front = [];
        last = a.reply ∷ [];
        between = a.sent;
        after = a.after;
        value = tt;
        fed = refl;
        arrives = a.arrives;
        no_control = tt;
        called = refl;
      } in
      let refused : int_eq a.reply.error (pos 0) ≡ false =
        ap (λ e. int_eq e (pos 0)) a.same_error ∙ k.is_no_ack in
      rw a.sends (
        handle_response_async-error sys headers none rounds nl (at s a.sent) tt tt i [] [] a.reply
          k.some_rounds k.error_apart refl tt a.is_error refl
        ∙ rw refused (ap (λ e. (throw (error_of e), at s a.after)) a.same_error))

  -- A request that is refused ends the operation, and closes its socket.
  pub exchange_then-Refused :
      (s : State World) (ty flags : ℕ) (fill : NlMsg → Outcome NlMsg) (o : Opens env k.reporting s)
      (msg : NlMsg)
      → then_do (init_message headers o.nl ty flags).0 fill ≡ ok msg
      → IsChange headers msg.req.hdr.nlmsg_type
      → (s' : State World) × ((rest : M (State World) (Unit {0}))
          → exchange_then env ty flags fill rest s ≡ (throw (error_of error), s'))
        × (k.host s'.world ≡ k.host s.world)
  unfolding exchange_then with_netlink
  exchange_then-Refused s ty flags fill o msg filled change =
      let nl' : Netlink = (init_message headers o.nl ty flags).1 in
      let same : nl'.nl_sock ≡ o.nl.nl_sock =
        ap (λ (x : Netlink). x.nl_sock) (init_message-Makes headers o.nl ty flags).1 in
      let (a, kept) = k.refuses nl'.nl_sock o.opened.world msg.req msg.req.hdr.nlmsg_len change in
      let sent = sync-Refused nl' msg o.opened a in
      (
        destroy sys o.nl (at o.opened a.after),
        (λ rest. rw o.opens (rw filled (rw sent refl))),
        k.close_keeps o.nl.nl_sock a.after ∙ kept ∙ o.kept,
      )

  -- Where the kernel reports its host and refuses every change with the same error, set_mtu of an
  -- interface of the host throws the exception for that error, and the host is as before.
  pub set_mtu_refused :
      (s : State World) (l : Link) (mtu : ℕ)
      → At l (k.host s.world).links
      → (s' : State World) × (set_mtu env l.name mtu s ≡ (throw (error_of error), s'))
        × (k.host s'.world ≡ k.host s.world)
  unfolding set_mtu
  set_mtu_refused s l mtu at_l =
      let (s1, i, kept1) = get_index_At env k.reporting s l at_l in
      let o = construct-Opens env k.reporting s1 in
      let (blank_msg, made, blank) =
        init_message-known headers o.nl headers.rtm_newlink headers.request_ack
          (known_newlink env) in
      let (msg, fills, same_type, same_flags, index, attribute, flags, mask) =
        fill_mtu-HasAttribute env l.index mtu blank_msg blank.no_attributes in
      let (s', thrown, kept) =
        exchange_then-Refused s1 headers.rtm_newlink headers.request_ack (fill_mtu env l.index mtu)
          o msg (rw made fills) (inl (same_type ∙ blank.same_type)) in
      (s', rw i (thrown _), kept ∙ kept1)

  module _ (law : IsAsio asio) (scoped : Address → Bool) (net : IsInet asio inet scoped) where
    add_refused :
        (s s1 : State World) (l : Link) (ip : Address) (n : ℕ)
        → At l (k.host s.world).links
        → scoped ip ≡ false
        → n ≤ width asio ip
        → has_address env l.name (build asio ip (pos n)) s ≡ (ok false, s1)
        → k.host s1.world ≡ k.host s.world
        → (s' : State World) × (add_address env l.name (build asio ip (pos n)) s
            ≡ (throw (error_of error), s'))
          × (k.host s'.world ≡ k.host s.world)
    unfolding add_address build
    add_refused s s1 l ip n at_l bare fits asked kept1 =
        let (s2, i, kept2) =
          get_index_At env k.reporting s1 l (subst (λ h. At l h.links) (sym kept1) at_l) in
        let o = construct-Opens env k.reporting s2 in
        let (blank_msg, made, blank) =
          init_message-known headers o.nl headers.rtm_newaddr headers.request_create_excl_ack
            (known_newaddr env) in
        let (msg, fills, same_type, flags, index, family, prefixlen, attribute, scope) =
          requested env law scoped net l ip n n blank_msg bare (below_256 env ip n fits)
            blank.no_attributes in
        let (s', thrown, kept) =
          exchange_then-Refused s2 headers.rtm_newaddr headers.request_create_excl_ack
            (fill_address env l.index (build asio ip (pos n)) (pos n)) o msg (rw made fills)
            (inr (inl (same_type ∙ blank.same_type))) in
        (s', rw asked (rw i (thrown _)), kept ∙ kept2 ∙ kept1)

    -- Where the kernel reports its host and refuses every change with the same error, for an interface
    -- of the host and an address that is built with a prefix length of at most its width and has no scope
    -- id: set_ip_address returns if the interface has the address with this prefix length, and throws the
    -- exception for the error otherwise. The host is as before.
    pub set_ip_address_refused :
        (s : State World) (l : Link) (ip : Address) (n : ℕ)
        → At l (k.host s.world).links
        → scoped ip ≡ false
        → n ≤ width asio ip
        → (s' : State World) × (set_ip_address env l.name (build asio ip (pos n)) s ≡ (
          (if holds asio (k.host s.world).assigned (to_u32 l.index) n ip
              then ok tt
              else throw (error_of error)),
          s',
        ))
          × (k.host s'.world ≡ k.host s.world)
    unfolding set_ip_address build
    set_ip_address_refused s l ip n at_l bare fits =
        let (s1, asked, kept) = has_address_At env k.reporting law s l ip n at_l in
        elim (Bool-cases (holds asio (k.host s.world).assigned (to_u32 l.index) n ip)) [
          | inl e ↦ (
            s1,
            rw e (present env k.reporting law s s1 l ip n (asked ∙ ap (λ b. (ok b, s1)) e)),
            kept,
          )
          | inr e ↦
              let (s', thrown, same) =
                add_refused s s1 l ip n at_l bare fits (asked ∙ ap (λ b. (ok b, s1)) e) kept in
              (s', rw e thrown, same)
        ]
