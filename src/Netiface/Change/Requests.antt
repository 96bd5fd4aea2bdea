-- ===== src/Netiface/Change/Requests.antt =====
-- The message with which an address is added or deleted.
use fnc.Prelude.{
  ℕ, ◌+◌, ◌<◌, ◌≡◌, refl, ap, sym, ◌∙◌, arith, ℤ, pos, Bool, true, false, Bool-cases, inl, inr,
  some, [], ◌∷◌, ◌++◌, length, if◌then◌else◌,
}
use fnc.Exceptions.{ok}
use fnc.IpAddress.{IpAddress, scope_value}
use fnc.IpAddress.Build.{IsAsio}
use fnc.IpAddress.Sockets.{IsInet, in_read, in6_read}
use fnc.Netlink.Kernel.{NlMsg, RtAttr}
use fnc.Netiface.{Env, add_attribute, set_ifaddr, to_u8}
use fnc.Netiface.Callbacks.{to_u32}
use fnc.Netiface.Change.{fill_address}

module _ {World Address : Type 0} (env : Env World Address) where
  open env use {headers, inet, asio}

  -- `out` is `msg` with the description of the address and one more attribute, which holds the bytes of
  -- the address, starts behind what `msg` has, and ends where the message ends.
  pub record DescribesAddress (iface_idx : ℤ) (address : IpAddress Address) (prefixlen : ℕ)
      (msg out : NlMsg) : Type 0 where
    pub same_type : out.req.hdr.nlmsg_type ≡ msg.req.hdr.nlmsg_type
    pub same_flags : out.req.hdr.nlmsg_flags ≡ msg.req.hdr.nlmsg_flags
    pub family :
        out.req.ifaddr.ifa_family
        ≡ (if asio.is_v4 address.address then inet.af_inet else inet.af_inet6)
    pub same_prefixlen : out.req.ifaddr.ifa_prefixlen ≡ prefixlen
    pub scope : out.req.ifaddr.ifa_scope ≡ scope_value address.scope
    pub interface : out.req.ifaddr.ifa_index ≡ to_u32 iface_idx
    pub attribute : RtAttr
    pub appended : out.req.attrs ≡ msg.req.attrs ++ (attribute ∷ [])
    pub is_local : attribute.rta_type ≡ headers.ifa_local
    pub holds : attribute.payload ≡ asio.bytes address.address
    pub behind : attribute.offset ≡ headers.nlmsg_align msg.req.hdr.nlmsg_len
    pub measured : attribute.rta_len ≡ headers.rta_length (length attribute.payload)
    pub ends : out.req.hdr.nlmsg_len ≡ attribute.offset + attribute.rta_len

  -- The message for a family and an address of `size` bytes.
  abbrev filled : ℤ → IpAddress Address → ℤ → NlMsg → ℕ → ℕ → NlMsg
  filled iface_idx address prefixlen msg family size =
      add_attribute headers headers.ifa_local size (asio.bytes address.address) (
        set_ifaddr
          (record {
            ifa_family = family;
            ifa_prefixlen = to_u8 prefixlen;
            ifa_scope = scope_value address.scope;
            ifa_index = to_u32 iface_idx;
          })
          msg)

  filled-DescribesAddress :
      (iface_idx : ℤ) (address : IpAddress Address) (prefixlen : ℕ) (msg : NlMsg) (family size : ℕ)
      → prefixlen < 256
      → family ≡ (if asio.is_v4 address.address then inet.af_inet else inet.af_inet6)
      → length (asio.bytes address.address) ≡ size
      → DescribesAddress iface_idx address prefixlen msg
          (filled iface_idx address (pos prefixlen) msg family size)
  unfolding add_attribute
  filled-DescribesAddress iface_idx address prefixlen msg family size k is_family sized = record {
    same_type = refl;
    same_flags = refl;
    family = is_family;
    same_prefixlen = omega arith;
    scope = refl;
    interface = refl;
    attribute = record {
      offset = headers.nlmsg_align msg.req.hdr.nlmsg_len;
      rta_type = headers.ifa_local;
      rta_len = headers.rta_length size;
      payload = asio.bytes address.address;
    };
    appended = refl;
    is_local = refl;
    holds = refl;
    behind = refl;
    measured = ap headers.rta_length (sym sized);
    ends = refl;
  }

  module _ (law : IsAsio asio) (scoped : Address → Bool) (net : IsInet asio inet scoped) where
    -- For an address with no scope id and a prefix length below 256, where boost and inet_pton are
    -- as documented, set_ip_address and del_ip_address fill a message with the address's family,
    -- scope, prefix length and interface index, and append one IFA_LOCAL attribute that holds the
    -- address's bytes, starts at the aligned end of the message, and ends where the message then
    -- ends.
    pub fill_address-DescribesAddress :
        (iface_idx : ℤ) (address : IpAddress Address) (prefixlen : ℕ) (msg : NlMsg)
        → scoped address.address ≡ false
        → prefixlen < 256
        → (out : NlMsg) × (fill_address env iface_idx address (pos prefixlen) msg ≡ ok out)
          × DescribesAddress iface_idx address prefixlen msg out
    unfolding fill_address add_attribute
    fill_address-DescribesAddress iface_idx address prefixlen msg bare k =
        let data_bytes = asio.bytes address.address in
        elim (Bool-cases (asio.is_v4 address.address)) [
          | inl is4 ↦
              let e : inet.inet_pton inet.af_inet (asio.print address.address) ≡ some data_bytes =
                net.pton_v4 address.address bare ∙ rw is4 in
              (
                filled iface_idx address (pos prefixlen) msg inet.af_inet 4,
                rw (is4, in_read asio inet scoped net address data_bytes e),
                filled-DescribesAddress iface_idx address prefixlen msg inet.af_inet 4 k (rw is4)
                    (net.bytes_length address.address ∙ rw is4),
              )
          | inr is6 ↦
              let e : inet.inet_pton inet.af_inet6 (asio.print address.address) ≡ some data_bytes =
                net.pton_v6 address.address bare ∙ rw is6 in
              let six : asio.is_v6 address.address ≡ true =
                law.is_v6_iff address.address ∙ rw is6 in
              (
                filled iface_idx address (pos prefixlen) msg inet.af_inet6 16,
                rw (is6, six, in6_read asio inet scoped net address data_bytes e),
                filled-DescribesAddress iface_idx address prefixlen msg inet.af_inet6 16 k (rw is6)
                    (net.bytes_length address.address ∙ rw is6),
              )
        ]
