-- ===== src/Netiface/Host/Dumped.antt =====
-- What the kernel's promises make of an exchange.
use fnc.Prelude.{ℕ, ◌+◌, ◌%◌, ◌^◌, ◌≡◌, refl, subst, ◌∙◌, arith, ℤ, true, List, map, Bool}
use fnc.Exceptions.{Outcome, ok, then_do}
use fnc.Netlink.Kernel.{State, Reply, NlMsg}
use fnc.Netlink.{Netlink, construct, init_message}
use fnc.Netlink.Requests.{knows, init_message-known}
use fnc.Netiface.{Env, set_ifaddr}
use fnc.Netiface.Addresses.{ReportsAll}
use fnc.Netiface.Answer.{Dumps}
use fnc.Netiface.Callbacks.{to_u32}
use fnc.Netiface.Host.{Answered}
use fnc.Netiface.Host.Kernel.{Reporting}

module _ {World Address : Type 0} (env : Env World Address) (k : Reporting env) where
  open env use {sys, headers, asio, inet}

  -- The constructor of `netlink` returns, and the host is as before.
  pub record Opens (s : State World) : Type 0 where
    pub nl : Netlink
    pub opened : State World
    pub opens : construct sys s ≡ (ok nl, opened)
    pub kept : k.host opened.world ≡ k.host s.world

  pub construct-Opens : (s : State World) → Opens s
  unfolding construct
  construct-Opens s =
      let (fd, w1) = sys.socket s.world in
      let pid = (sys.gettid s.world + s.session) % 2 ^ 32 in
      let w2 = (sys.set_rcvtimeo fd 2 w1).1 in
      record {
        nl = record { pid = pid; nl_sock = fd; seq = 0 };
        opened = record { session = (s.session + 1) % 2 ^ 32; world = (sys.bind fd pid w2).1 };
        opens = rw (k.set_rcvtimeo_works fd 2 w1, k.bind_works fd pid w2) refl;
        kept = k.bind_keeps fd pid w2 ∙ k.set_rcvtimeo_keeps fd 2 w1 ∙ k.socket_keeps s.world;
      }

  knows_getlink : knows headers headers.rtm_getlink ≡ true
  knows_getlink = ground arith

  knows_getaddr : knows headers headers.rtm_getaddr ≡ true
  knows_getaddr = ground arith

  -- A request that is answered is a dump.
  dumps :
      (s : State World) (ty flags : ℕ) (fill : NlMsg → Outcome NlMsg) (o : Opens s) (msg : NlMsg)
      (ms : List Reply)
      → then_do (init_message headers o.nl ty flags).0 fill ≡ ok msg
      → (a : Answered env o.nl.nl_sock o.opened.world msg.req msg.req.hdr.nlmsg_len ms)
      → k.host a.after ≡ k.host o.opened.world
      → (s' : State World) × Dumps env s ty flags fill ms s' × (k.host s'.world ≡ k.host s.world)
  dumps s ty flags fill o msg ms filled a kept = (
    record { session = o.opened.session; world = sys.close o.nl.nl_sock a.after },
    record {
      nl = o.nl;
      opened = o.opened;
      opens = o.opens;
      msg = msg;
      filled = filled;
      rc = a.rc;
      sent = a.sent;
      sends = a.sends;
      front = a.front;
      pre = a.pre;
      done = a.done;
      post = a.post;
      between = a.between;
      after = a.after;
      fed = a.fed;
      arrives = a.arrives;
      front_data = a.front_data;
      pre_data = a.pre_data;
      post_data = a.post_data;
      is_done = a.is_done;
      content = a.content;
      enough = a.enough;
      closes = refl;
    },
    k.close_keeps o.nl.nl_sock a.after ∙ kept ∙ o.kept,
  )

  -- A dump of links reports the host's links.
  pub links-Dumps :
      (s : State World)
      → (s' : State World) × Dumps env s headers.rtm_getlink headers.request_dump ok
          (map k.describe (k.host s.world).links)
          s'
        × (k.host s'.world ≡ k.host s.world)
  links-Dumps s =
      let o = construct-Opens s in
      let (msg, made, blank) =
        init_message-known headers o.nl headers.rtm_getlink headers.request_dump knows_getlink in
      let (a, kept) =
        k.lists_links o.nl.nl_sock o.opened.world msg.req msg.req.hdr.nlmsg_len blank.same_type
          blank.same_flags in
      subst
        (λ h.
          (s' : State World) × Dumps env s headers.rtm_getlink headers.request_dump ok
            (map k.describe h.links) s'
          × (k.host s'.world ≡ k.host s.world))
        o.kept (dumps s headers.rtm_getlink headers.request_dump ok o msg _ (rw made refl) a kept)

  -- A dump of addresses reports the host's addresses.
  pub addresses-Dumps :
      (s : State World) (idx : ℤ)
      → (s' : State World) × (ms : List Reply) × Dumps env s headers.rtm_getaddr
          headers.request_match
          (λ msg. ok (set_ifaddr (record (msg.req.ifaddr) { ifa_index = to_u32 idx }) msg))
          ms
          s'
        × (k.host s'.world ≡ k.host s.world)
        × ((ip_family : ℕ) (include_prefix : Bool)
            → ReportsAll headers asio inet ip_family include_prefix ms (k.host s.world).assigned)
  addresses-Dumps s idx =
      let o = construct-Opens s in
      let (blank_msg, made, blank) =
        init_message-known headers o.nl headers.rtm_getaddr headers.request_match knows_getaddr in
      let msg : NlMsg =
        set_ifaddr (record (blank_msg.req.ifaddr) { ifa_index = to_u32 idx }) blank_msg in
      let (ms, a, kept, reports) =
        k.lists_addresses o.nl.nl_sock o.opened.world msg.req msg.req.hdr.nlmsg_len blank.same_type
          blank.same_flags in
      let (s', d, same) =
        dumps s headers.rtm_getaddr headers.request_match _ o msg ms (rw made refl) a kept in
      (
        s',
        ms,
        d,
        same,
        λ ip_family include_prefix.
            subst (λ h. ReportsAll headers asio inet ip_family include_prefix ms h.assigned) o.kept
              (reports ip_family include_prefix),
      )
