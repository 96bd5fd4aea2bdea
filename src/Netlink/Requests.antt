-- ===== src/Netlink/Requests.antt =====
-- What init_message makes.
use fnc.Prelude.{
  ℕ, ◌+◌, ◌%◌, ◌^◌, ◌≤◌, ◌≡◌, refl, ap, sym, subst, ◌∙◌, arith, Bool, true, false, ◌||◌, none, some,
  Option-cases, inl, inr, [], ◌==◌,
}
use fnc.Exceptions.{Outcome, ok, throw, stuck, netex}
use fnc.Netlink.Kernel.{Headers, NlMsg, IsLayout}
use fnc.Netlink.{Netlink, init_message, initial_length, blank_ifaddr, blank_ifinfo}

module _ (h : Headers) where
  -- The message types that the source knows.
  abbrev pub knows : ℕ → Bool
  knows t =
      t == h.rtm_newlink
      || (t == h.rtm_dellink
          || (t == h.rtm_getlink
              || (t == h.rtm_newaddr || (t == h.rtm_deladdr || t == h.rtm_getaddr))))

  -- A message with nothing behind its header but a blank structure of its type.
  pub record IsBlank (nl : Netlink) (nlmsg_type nlmsg_flags : ℕ) (msg : NlMsg) : Type 0 where
    pub same_type : msg.req.hdr.nlmsg_type ≡ nlmsg_type
    pub same_flags : msg.req.hdr.nlmsg_flags ≡ nlmsg_flags
    pub next_seq : msg.req.hdr.nlmsg_seq ≡ (nl.seq + 1) % 2 ^ 32
    pub same_pid : msg.req.hdr.nlmsg_pid ≡ nl.pid
    pub measured : msg.iov_len ≡ msg.req.hdr.nlmsg_len
    pub to_netlink : msg.nl_family ≡ h.af_netlink
    pub no_attributes : msg.req.attrs ≡ []
    -- The header and the structure of the type: ifinfomsg, rtgenmsg or ifaddrmsg.
    pub link_length :
        (nlmsg_type == h.rtm_newlink || nlmsg_type == h.rtm_dellink) ≡ true
        → msg.req.hdr.nlmsg_len ≡ h.nlmsg_length h.sizeof_ifinfomsg
    pub dump_length :
        (nlmsg_type == h.rtm_newlink || nlmsg_type == h.rtm_dellink) ≡ false
        → (nlmsg_type == h.rtm_getlink) ≡ true
        → msg.req.hdr.nlmsg_len ≡ h.nlmsg_length h.sizeof_rtgenmsg
    pub address_length :
        (nlmsg_type == h.rtm_newlink
            || (nlmsg_type == h.rtm_dellink || nlmsg_type == h.rtm_getlink))
          ≡ false
        → msg.req.hdr.nlmsg_len ≡ h.nlmsg_length h.sizeof_ifaddrmsg

  abbrev pub Makes : Netlink → ℕ → ℕ → Outcome NlMsg → Type 0
  Makes nl t flags (ok msg) = (knows t ≡ true) × IsBlank nl t flags msg
  Makes nl t flags (throw e) = (knows t ≡ false) × (e ≡ netex "Unknown netlink message type={}")
  Makes nl t flags stuck = ⊥

  unknown : (t : ℕ) → initial_length h t ≡ none → knows t ≡ false
  unfolding initial_length
  unknown t e = ground arith

  known : (t len : ℕ) → initial_length h t ≡ some len → knows t ≡ true
  unfolding initial_length
  known t len e = ground arith

  link_len :
      (t len : ℕ)
      → initial_length h t ≡ some len
      → (t == h.rtm_newlink || t == h.rtm_dellink) ≡ true
      → len ≡ h.nlmsg_length h.sizeof_ifinfomsg
  unfolding initial_length
  link_len t len e is = ground (arith, e, is)

  dump_len :
      (t len : ℕ)
      → initial_length h t ≡ some len
      → (t == h.rtm_newlink || t == h.rtm_dellink) ≡ false
      → (t == h.rtm_getlink) ≡ true
      → len ≡ h.nlmsg_length h.sizeof_rtgenmsg
  unfolding initial_length
  dump_len t len e other is = ground (arith, e, other, is)

  address_len :
      (t len : ℕ)
      → initial_length h t ≡ some len
      → (t == h.rtm_newlink || (t == h.rtm_dellink || t == h.rtm_getlink)) ≡ false
      → len ≡ h.nlmsg_length h.sizeof_ifaddrmsg
  unfolding initial_length
  address_len t len e other = ground (arith, e, other)

  initial_length-le : IsLayout h → (t len : ℕ) → initial_length h t ≡ some len → len ≤ 32
  unfolding initial_length
  initial_length-le law t len e = ground (
    arith,
    law.length_eq h.sizeof_ifinfomsg,
    law.length_eq h.sizeof_rtgenmsg,
    law.length_eq h.sizeof_ifaddrmsg,
    law.ifinfomsg_size,
    law.rtgenmsg_size,
    law.ifaddrmsg_size,
  )

  abbrev next : Netlink → Netlink
  next nl = record nl { seq = (nl.seq + 1) % 2 ^ 32 }

  abbrev blank : Netlink → ℕ → ℕ → ℕ → NlMsg
  blank nl t flags len = record {
    req = record {
      hdr = record {
        nlmsg_len = len;
        nlmsg_type = t;
        nlmsg_flags = flags;
        nlmsg_seq = (nl.seq + 1) % 2 ^ 32;
        nlmsg_pid = nl.pid;
      };
      ifaddr = blank_ifaddr;
      ifinfo = blank_ifinfo;
      attrs = [];
    };
    nl_family = h.af_netlink;
    iov_len = len;
  }

  made_none :
      (nl : Netlink) (t flags : ℕ)
      → initial_length h t ≡ none
      → init_message h nl t flags ≡ (throw (netex "Unknown netlink message type={}"), next nl)
  unfolding init_message
  made_none nl t flags e = rw (e, init_message)

  made_some :
      (nl : Netlink) (t flags len : ℕ)
      → initial_length h t ≡ some len
      → init_message h nl t flags ≡ (ok (blank nl t flags len), next nl)
  unfolding init_message
  made_some nl t flags len e = rw (e, init_message)

  -- init_message makes a message exactly for the types that it knows, and throws for the others: the
  -- message has the type and the flags, the next sequence number and the socket's port id, as many bytes
  -- to send as its header says, which are a header and an ifinfomsg for RTM_NEWLINK and RTM_DELLINK, a
  -- header and an rtgenmsg for RTM_GETLINK, and a header and an ifaddrmsg for the types of addresses; and
  -- it has no attribute. In both cases the socket has used up one sequence
  -- number, modulo 2 ^ 32, and nothing else of it is changed.
  pub init_message-Makes :
      (nl : Netlink) (nlmsg_type nlmsg_flags : ℕ)
      → Makes nl nlmsg_type nlmsg_flags (init_message h nl nlmsg_type nlmsg_flags).0
        × ((init_message h nl nlmsg_type nlmsg_flags).1 ≡ record nl { seq = (nl.seq + 1) % 2 ^ 32 })
  init_message-Makes nl t flags = elim (Option-cases (initial_length h t)) [
    | inl e ↦ rw (made_none nl t flags e) ((unknown t e, refl), refl)
    | inr (len, e) ↦ rw (made_some nl t flags len e) (
      (
        known t len e,
        record {
          same_type = refl;
          same_flags = refl;
          next_seq = refl;
          same_pid = refl;
          measured = refl;
          to_netlink = refl;
          no_attributes = refl;
          link_length = λ is. link_len t len e is;
          dump_length = λ other is. dump_len t len e other is;
          address_length = λ other. address_len t len e other;
        },
      ),
      refl,
    )
  ]

  -- A message of a type that is known is made.
  pub init_message-known :
      (nl : Netlink) (t flags : ℕ)
      → knows t ≡ true
      → (msg : NlMsg) × ((init_message h nl t flags).0 ≡ ok msg) × IsBlank nl t flags msg
  init_message-known nl t flags k =
      go (init_message h nl t flags).0 refl (init_message-Makes nl t flags).0
    where
      go :
          (r : Outcome NlMsg)
          → (init_message h nl t flags).0 ≡ r
          → Makes nl t flags r
          → (msg : NlMsg) × ((init_message h nl t flags).0 ≡ ok msg) × IsBlank nl t flags msg
      go (ok msg) e m = (msg, e, m.1)
      go (throw x) e m = absurd (neither (sym k ∙ m.0))
        where
          neither : true ≡ false → ⊥
          neither p = cc
      go stuck e m = absurd m

  -- It has no attribute, and is no longer than a header with the largest structure of the union.
  pub init_message-Room :
      (law : IsLayout h) (nl : Netlink) (t flags : ℕ) (msg : NlMsg)
      → (init_message h nl t flags).0 ≡ ok msg
      → (msg.req.hdr.nlmsg_len ≤ 32) × (msg.req.attrs ≡ [])
  init_message-Room law nl t flags msg made = elim (Option-cases (initial_length h t)) [
    | inl e ↦ absurd (refused (sym (ap (λ p. p.0) (made_none nl t flags e)) ∙ made))
    | inr (len, e) ↦
        let same : ok (blank nl t flags len) ≡ ok msg =
          sym (ap (λ p. p.0) (made_some nl t flags len e)) ∙ made in
        let is : blank nl t flags len ≡ msg = cc in
        (
          subst (λ (m : NlMsg). m.req.hdr.nlmsg_len ≤ 32) is (initial_length-le law t len e),
          ap (λ (m : NlMsg). m.req.attrs) (sym is),
        )
  ]
    where
      refused : throw (netex "Unknown netlink message type={}") ≡ ok msg → ⊥
      refused q = cc
