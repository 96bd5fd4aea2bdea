-- ===== src/Netiface/Change/Bounds.antt =====
-- Where the operations that change an interface write into a request: nl_req_t has room for it.
use fnc.Prelude.{ℕ, ◌+◌, ◌≤◌, ◌≡◌, refl, arith, ℤ, Bool-cases, inl, inr, List, [], All}
use fnc.Exceptions.{Outcome, ok, throw, stuck, then_do}
use fnc.IpAddress.{IpAddress, to_sockaddr_in, to_sockaddr_in6}
use fnc.Netlink.Kernel.{Headers, NlMsg, IsLayout, sizeof_nl_req}
use fnc.Netlink.{Netlink, init_message}
use fnc.Netlink.Requests.{init_message-Room}
use fnc.Netiface.{Env, add_attribute}
use fnc.Netiface.Change.{fill_mtu, fill_address}

-- Each attribute begins behind the `fixed` bytes that the message had, and ends where the message ends,
-- which is inside the structure.
pub record Fits (h : Headers) (fixed : ℕ) (msg : NlMsg) : Type 0 where
  pub inside : msg.req.hdr.nlmsg_len ≤ sizeof_nl_req h
  pub attributes :
      All (λ a. (fixed ≤ a.offset) × (a.offset + a.rta_len ≡ msg.req.hdr.nlmsg_len)) msg.req.attrs

abbrev pub FitsIn : Headers → ℕ → Outcome NlMsg → Type 0
FitsIn h fixed (ok msg) = Fits h fixed msg
FitsIn h fixed (throw e) = Unit
FitsIn h fixed stuck = Unit

then_do-FitsIn :
    {A : Type 0} (h : Headers) (fixed : ℕ) (r : Outcome A) (f : A → NlMsg)
    → ((a : A) → Fits h fixed (f a))
    → FitsIn h fixed (then_do r (λ a. ok (f a)))
then_do-FitsIn h fixed (ok a) f fits = fits a
then_do-FitsIn h fixed (throw e) f fits = tt
then_do-FitsIn h fixed stuck f fits = tt

module _ {World Address : Type 0} (env : Env World Address) (law : IsLayout env.headers) where
  open env use {headers, asio, inet}

  -- An attribute of at most 16 bytes behind a message that has none.
  add_attribute-Fits :
      (msg : NlMsg) (rta_type size : ℕ) (payload : List ℕ)
      → size ≤ 16
      → msg.req.hdr.nlmsg_len ≤ 32
      → msg.req.attrs ≡ []
      → Fits headers msg.req.hdr.nlmsg_len (add_attribute headers rta_type size payload msg)
  unfolding add_attribute
  add_attribute-Fits msg rta_type size payload small short blank =
      rw (add_attribute, blank)
        (record {
          inside = omega (
            arith,
            law.length_eq headers.sizeof_ifinfomsg,
            law.ifinfomsg_size,
            law.rta_eq size,
            law.align_bounds msg.req.hdr.nlmsg_len,
          );
          attributes = (((law.align_bounds msg.req.hdr.nlmsg_len).0, refl), tt);
        })

  unattributed :
      (msg : NlMsg)
      → msg.req.hdr.nlmsg_len ≤ 32
      → msg.req.attrs ≡ []
      → Fits headers msg.req.hdr.nlmsg_len msg
  unattributed msg short blank = record {
    inside = omega (arith, law.length_eq headers.sizeof_ifinfomsg, law.ifinfomsg_size);
    attributes = rw blank tt;
  }

  fill_mtu-Fits :
      (msg : NlMsg) (iface_idx : ℤ) (mtu : ℕ)
      → msg.req.hdr.nlmsg_len ≤ 32
      → msg.req.attrs ≡ []
      → FitsIn headers msg.req.hdr.nlmsg_len (fill_mtu env iface_idx mtu msg)
  unfolding fill_mtu
  fill_mtu-Fits msg iface_idx mtu short blank =
      add_attribute-Fits _ headers.ifla_mtu 4 (headers.store_u32 mtu) (omega arith) short blank

  fill_address-Fits :
      (msg : NlMsg) (iface_idx : ℤ) (address : IpAddress Address) (prefixlen : ℤ)
      → msg.req.hdr.nlmsg_len ≤ 32
      → msg.req.attrs ≡ []
      → FitsIn headers msg.req.hdr.nlmsg_len (fill_address env iface_idx address prefixlen msg)
  unfolding fill_address
  fill_address-Fits msg iface_idx address prefixlen short blank =
      elim (Bool-cases (asio.is_v4 address.address)) [
        | inl is4 ↦ rw is4 (
            then_do-FitsIn headers msg.req.hdr.nlmsg_len (to_sockaddr_in asio inet address) _
              λ sa. add_attribute-Fits _ headers.ifa_local 4 sa.sin_addr (omega arith) short blank)
        | inr not4 ↦ elim (Bool-cases (asio.is_v6 address.address)) [
          | inl is6 ↦
              rw (not4, is6)
                (then_do-FitsIn headers msg.req.hdr.nlmsg_len (to_sockaddr_in6 asio inet address) _
                  λ sa.
                    add_attribute-Fits _ headers.ifa_local 16 sa.sin6_addr (omega arith) short
                      blank)
          | inr not6 ↦ rw (not4, not6) (unattributed _ short blank)
        ]
      ]

  -- Where the macros of netlink are as documented, for every message that init_message makes and
  -- whatever interface, MTU, address and prefix length is then filled in, if that does not throw: the
  -- message stays inside nl_req_t, and each attribute that set_mtu, set_ip_address or del_ip_address
  -- writes begins behind the bytes that the message had, and ends where the message then ends.
  pub requests_fit :
      (nl : Netlink) (nlmsg_type nlmsg_flags : ℕ) (msg : NlMsg) (iface_idx : ℤ) (mtu : ℕ)
      (address : IpAddress Address) (prefixlen : ℤ)
      → (init_message headers nl nlmsg_type nlmsg_flags).0 ≡ ok msg
      → (msg.req.hdr.nlmsg_len ≤ sizeof_nl_req headers)
        × FitsIn headers msg.req.hdr.nlmsg_len (fill_mtu env iface_idx mtu msg)
        × FitsIn headers msg.req.hdr.nlmsg_len (fill_address env iface_idx address prefixlen msg)
  requests_fit nl nlmsg_type nlmsg_flags msg iface_idx mtu address prefixlen made =
      let (short, blank) = init_message-Room headers law nl nlmsg_type nlmsg_flags msg made in
      (
        (unattributed msg short blank).inside,
        fill_mtu-Fits msg iface_idx mtu short blank,
        fill_address-Fits msg iface_idx address prefixlen short blank,
      )
