-- ===== src/Netiface/Host/Requested.antt =====
-- The messages of set_ip_address and del_ip_address.
use fnc.Prelude.{
  ℤ, true, refl, Bool-cases, inl, inr, length, ℕ, ◌<◌, ◌≤◌, ◌≡◌, ap, ◌∙◌, arith, pos, Bool, false,
  [], ◌∷◌, ◌++◌, if◌then◌else◌,
}
use fnc.Exceptions.{ok}
use fnc.IpAddress.{build, scope_value, host, global}
use fnc.IpAddress.Build.{IsAsio}
use fnc.IpAddress.Sockets.{IsInet}
use fnc.Netlink.Kernel.{NlMsg}
use fnc.Netiface.{Env}
use fnc.Netiface.Callbacks.{to_u32}
use fnc.Netlink.Requests.{knows}
use fnc.Netlink.Kernel.{RtAttr}
use fnc.Netiface.{add_attribute, set_ifinfo}
use fnc.Netiface.Change.{fill_address, fill_mtu}
use fnc.Netiface.Change.Requests.{fill_address-DescribesAddress}
use fnc.Netiface.Host.{Link, width, HasAttribute}

module _ {World Address : Type 0} (env : Env World Address) where
  open env use {headers, asio, inet}

  scope_of :
      (ip : Address)
      → scope_value (if asio.is_loopback ip then host else global)
        ≡ (if asio.is_loopback ip then 254 else 0)
  scope_of ip = elim (Bool-cases (asio.is_loopback ip)) [ inl e ↦ rw e refl | inr e ↦ rw e refl ]

  pub below_256 : (ip : Address) (n : ℕ) → n ≤ width asio ip → n < 256
  below_256 ip n fits = ground (arith, fits)

  module _ (law : IsAsio asio) (scoped : Address → Bool) (net : IsInet asio inet scoped) where
    -- The message for an address that is built, with a prefix length.
    pub requested :
        (l : Link) (ip : Address) (n m : ℕ) (blank : NlMsg)
        → scoped ip ≡ false
        → m < 256
        → blank.req.attrs ≡ []
        → (msg : NlMsg) × (fill_address env l.index (build asio ip (pos n)) (pos m) blank ≡ ok msg)
          × (msg.req.hdr.nlmsg_type ≡ blank.req.hdr.nlmsg_type)
          × (msg.req.hdr.nlmsg_flags ≡ blank.req.hdr.nlmsg_flags)
          × (msg.req.ifaddr.ifa_index ≡ to_u32 l.index)
          × (msg.req.ifaddr.ifa_family ≡ (if asio.is_v4 ip then inet.af_inet else inet.af_inet6))
          × (msg.req.ifaddr.ifa_prefixlen ≡ m)
          × (blank.req.hdr.nlmsg_len ≡ headers.nlmsg_length headers.sizeof_ifaddrmsg
              → HasAttribute headers msg.req msg.req.hdr.nlmsg_len headers.sizeof_ifaddrmsg
                  headers.ifa_local
                  (length (asio.bytes ip))
                  (asio.bytes ip))
          × (msg.req.ifaddr.ifa_scope ≡ (if asio.is_loopback ip then 254 else 0))
    unfolding build
    requested l ip n m blank bare small none_yet =
        let (msg, fills, d) =
          fill_address-DescribesAddress env law scoped net l.index (build asio ip (pos n)) m blank
            bare small in
        (
          msg,
          fills,
          d.same_type,
          d.same_flags,
          d.interface,
          d.family,
          d.same_prefixlen,
          λ sized. (
            d.attribute,
            d.appended ∙ ap (λ t. t ++ (d.attribute ∷ [])) none_yet,
            d.is_local,
            d.holds,
            d.behind ∙ ap headers.nlmsg_align sized,
            d.measured ∙ ap (λ b. headers.rta_length (length b)) d.holds,
            d.ends,
            refl,
          ),
          d.scope ∙ scope_of ip,
        )

module _ {World Address : Type 0} (env : Env World Address) where
  open env use {headers, asio, inet}

  pub known_newaddr : knows headers headers.rtm_newaddr ≡ true
  known_newaddr = ground arith

  pub known_deladdr : knows headers headers.rtm_deladdr ≡ true
  known_deladdr = ground arith

  pub known_newlink : knows headers headers.rtm_newlink ≡ true
  known_newlink = ground arith

  pub fill_mtu-HasAttribute :
      (iface_idx : ℤ) (mtu : ℕ) (msg : NlMsg)
      → msg.req.attrs ≡ []
      → (out : NlMsg) × (fill_mtu env iface_idx mtu msg ≡ ok out)
        × (out.req.hdr.nlmsg_type ≡ msg.req.hdr.nlmsg_type)
        × (out.req.hdr.nlmsg_flags ≡ msg.req.hdr.nlmsg_flags)
        × (out.req.ifinfo.ifi_index ≡ iface_idx)
        × (msg.req.hdr.nlmsg_len ≡ headers.nlmsg_length headers.sizeof_ifinfomsg
            → HasAttribute headers out.req out.req.hdr.nlmsg_len headers.sizeof_ifinfomsg
                headers.ifla_mtu 4
                (headers.store_u32 mtu))
        × (out.req.ifinfo.ifi_flags ≡ 0)
        × (out.req.ifinfo.ifi_change ≡ 0xffffffff)
  unfolding fill_mtu add_attribute
  fill_mtu-HasAttribute iface_idx mtu msg none_yet =
      let a : RtAttr = record {
        offset = headers.nlmsg_align msg.req.hdr.nlmsg_len;
        rta_type = headers.ifla_mtu;
        rta_len = headers.rta_length 4;
        payload = headers.store_u32 mtu;
      } in
      (
        add_attribute headers headers.ifla_mtu 4 (headers.store_u32 mtu) (
            set_ifinfo (record { ifi_index = iface_idx; ifi_flags = 0; ifi_change = 0xffffffff })
              msg),
        refl,
        refl,
        refl,
        refl,
        λ sized. (
          a,
          ap (λ t. t ++ (a ∷ [])) none_yet,
          refl,
          refl,
          ap headers.nlmsg_align sized,
          refl,
          refl,
          refl,
        ),
        refl,
        refl,
      )
