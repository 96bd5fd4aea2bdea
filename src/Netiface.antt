-- ===== src/Netiface.antt =====
-- netiface.cpp, netiface.hpp: a network interface, by its name.
pub mod Callbacks
pub mod Answer
pub mod Names
pub mod Index
pub mod Link
pub mod Addresses
pub mod Sessions
pub mod Change
pub mod Class
pub mod Host
pub mod Simulated
mod Tests
use fnc.Prelude.{
  ℕ, ◌+◌, ◌%◌, ◌^◌, ◌-◌, ℤ, pos, negsuc, is_neg, Bool, true, false, not, Option, none, some, List,
  [], ◌∷◌, ◌++◌, ◌==◌, Text, text_eq, length, if◌then◌else◌,
}
use fnc.Exceptions.{
  Outcome, ok, throw, stuck, netex, then_do, M, pure, raise, lift, continue, ◌>>=◌, ◌>>◌,
}
use fnc.ContainerUtil.{contains, contains_if}
use fnc.RetryWait.{Clock, wait_for}
use fnc.MacAddress.{MacAddress, default_mac}
use fnc.IpAddress.{
  Asio, Inet, IpAddress, scope_value, ip_eq, to_sockaddr_in, to_sockaddr_in6, without_prefix,
}
use fnc.Netlink.Kernel.{
  Headers, System, State, NlReq, NlMsg, IfAddrMsg, IfInfoMsg, NlMsgHdr, RtAttr, Reply,
}
use fnc.Netlink.{Callback, Netlink, with_netlink, init_message, send_message_sync}
use Callbacks.{
  names_callback, index_callback, mtu_callback, mac_callback, address_callback, family_all, to_u32,
}

-- All that lies outside the source; how many datagrams an answer and how many tries a wait may have;
-- and what the uninitialised `iface_mtu` of get_mtu holds.
pub record Env (World Address : Type 0) : Type 0 where
  pub sys : System World
  pub headers : Headers
  pub inet : Inet
  pub asio : Asio Address
  pub rounds : ℕ
  pub tries : ℕ
  pub junk : ℕ

-- The conversion of an int to the __u8 `ifa_prefixlen`.
abbrev pub to_u8 : ℤ → ℕ
to_u8 (pos n) = n % 256
to_u8 (negsuc n) = 255 - n % 256

-- Appends an attribute of `size` bytes of payload behind the request and counts it in its length.
unfoldable pub add_attribute : Headers → ℕ → ℕ → List ℕ → NlMsg → NlMsg
add_attribute h rta_type size payload msg =
    let hdr = msg.req.hdr in
    let offset = h.nlmsg_align hdr.nlmsg_len in
    let rta_len = h.rta_length size in
    record msg {
      req = record (msg.req) {
        hdr = record hdr { nlmsg_len = offset + rta_len };
        attrs =
            msg.req.attrs
            ++ (record {
              offset = offset;
              rta_type = rta_type;
              rta_len = rta_len;
              payload = payload;
            }
                ∷ []);
      };
    }

abbrev pub set_ifaddr : IfAddrMsg → NlMsg → NlMsg
set_ifaddr a msg = record msg { req = record (msg.req) { ifaddr = a } }

abbrev pub set_ifinfo : IfInfoMsg → NlMsg → NlMsg
set_ifinfo i msg = record msg { req = record (msg.req) { ifinfo = i } }

module _ {World Address : Type 0} (env : Env World Address) where
  open env use {sys, headers, inet, asio, rounds, tries, junk}

  -- What every operation does with a `netlink nl`: a message is made, filled in, sent and answered.
  unfoldable pub exchange :
      {L : Type 0} → ℕ → ℕ → (NlMsg → Outcome NlMsg) → Callback L → L → M (State World) L
  exchange nlmsg_type nlmsg_flags fill callback l = with_netlink sys λ nl s.
      let (made, nl') = init_message headers nl nlmsg_type nlmsg_flags in
      continue (then_do made fill) (λ msg. send_message_sync sys headers callback rounds nl' msg l)
        s

  -- The same without a callback, for an operation that goes on while its `netlink nl` is open.
  unfoldable pub exchange_then :
      ℕ → ℕ → (NlMsg → Outcome NlMsg) → M (State World) (Unit {0}) → M (State World) (Unit {0})
  exchange_then nlmsg_type nlmsg_flags fill rest = with_netlink sys λ nl s.
      let (made, nl') = init_message headers nl nlmsg_type nlmsg_flags in
      continue (then_do made fill)
        (λ msg. send_message_sync sys headers none rounds nl' msg tt >> rest) s

  unfoldable pub get_iface_names : M (State World) (List Text)
  get_iface_names =
      exchange headers.rtm_getlink headers.request_dump ok (some (names_callback headers)) []

  -- netiface::netiface; the object is its name, which `get_name` returns.
  unfoldable pub construct_netiface : Text → M (State World) Text
  construct_netiface name = get_iface_names >>= λ all_ifaces.
      if contains text_eq all_ifaces name
      then pure name
      else raise (netex "Specified interface does not exist name={}")

  unfoldable pub get_index : Text → M (State World) ℤ
  get_index name =
      exchange headers.rtm_getlink headers.request_dump ok (some (index_callback headers name))
        (negsuc 0)

  unfoldable pub get_mtu : Text → M (State World) ℕ
  get_mtu name = get_index name >>= λ iface_idx.
      exchange headers.rtm_getlink headers.request_dump ok (some (mtu_callback headers iface_idx))
        junk

  unfoldable pub get_mac_address : Text → M (State World) MacAddress
  get_mac_address name = get_index name >>= λ iface_idx.
      exchange headers.rtm_getlink headers.request_dump ok (some (mac_callback headers iface_idx))
        default_mac

  unfoldable pub get_ip_addresses_impl :
      Text → ℕ → Bool → M (State World) (List (IpAddress Address))
  get_ip_addresses_impl name ip_family include_prefix = get_index name >>= λ iface_idx.
      exchange headers.rtm_getaddr headers.request_match
        (λ msg. ok (set_ifaddr (record (msg.req.ifaddr) { ifa_index = to_u32 iface_idx }) msg))
        (some (address_callback headers asio inet ip_family include_prefix iface_idx)) []

  unfoldable pub get_ip_addresses : Text → ℕ → M (State World) (List (IpAddress Address))
  get_ip_addresses name ip_family = get_ip_addresses_impl name ip_family true

  abbrev pub clock : Clock (State World)
  clock = record {
    now = λ s. sys.now s.world;
    sleep_for = λ d s. record s { world = sys.sleep_for d s.world };
  }
