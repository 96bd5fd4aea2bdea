-- ===== src/Netiface/Change.antt =====
-- netiface.cpp: the operations that change an interface, set_mtu, set_ip_address and del_ip_address.
pub mod Requests
pub mod Bounds
pub mod Outcomes
pub mod Deletion
mod Tests
use fnc.Prelude.{
  ℕ, ◌+◌, ◌-◌, ◌^◌, ℤ, pos, negsuc, is_neg, Bool, true, false, not, Option, none, List, [], ◌∷◌,
  ◌==◌, Text, if◌then◌else◌,
}
use fnc.Exceptions.{Outcome, ok, throw, stuck, netex, then_do, M, pure, raise, lift, ◌>>=◌, ◌>>◌}
use fnc.ContainerUtil.{contains, contains_if}
use fnc.RetryWait.{wait_for}
use fnc.IpAddress.{IpAddress, scope_value, ip_eq, to_sockaddr_in, to_sockaddr_in6, without_prefix}
use fnc.Netlink.Kernel.{Headers, State, NlMsg}
use fnc.Netiface.{
  Env, exchange_then, get_index, get_mtu, get_ip_addresses, get_ip_addresses_impl, add_attribute,
  set_ifaddr, set_ifinfo, to_u8, clock,
}
use fnc.Netiface.Callbacks.{family_all, to_u32}

module _ {World Address : Type 0} (env : Env World Address) where
  open env use {sys, headers, inet, asio, rounds, tries, junk}

  -- What set_mtu puts into its message. It leaves ifi_flags as init_message has made it, 0, with a mask
  -- that takes in every flag.
  unfoldable pub fill_mtu : ℤ → ℕ → NlMsg → Outcome NlMsg
  unfolding add_attribute
  fill_mtu iface_idx mtu msg = ok (
      add_attribute headers headers.ifla_mtu 4 (headers.store_u32 mtu)
        (set_ifinfo (record { ifi_index = iface_idx; ifi_flags = 0; ifi_change = 0xffffffff }) msg))

  -- The condition that set_mtu waits for.
  abbrev pub mtu_is : Text → ℕ → M (State World) Bool
  mtu_is name mtu = get_mtu env name >>= λ m. pure (m == mtu)

  unfoldable pub set_mtu : Text → ℕ → M (State World) (Unit {0})
  set_mtu name mtu = get_index env name >>= λ iface_idx.
      exchange_then env headers.rtm_newlink headers.request_ack (fill_mtu iface_idx mtu)
        (wait_for (clock env) tries 500 "Failed to set MTU={} on iface={}" (mtu_is name mtu) 50)

  -- What set_ip_address and del_ip_address put into their messages, for a prefix length. Only one
  -- branch of the union is used, and the attribute is the address in network order.
  unfoldable pub fill_address : ℤ → IpAddress Address → ℤ → NlMsg → Outcome NlMsg
  unfolding add_attribute
  fill_address iface_idx address prefixlen msg =
      let is4 = asio.is_v4 address.address in
      let msg' =
        set_ifaddr
          (record {
            ifa_family = if is4 then inet.af_inet else inet.af_inet6;
            ifa_prefixlen = to_u8 prefixlen;
            ifa_scope = scope_value address.scope;
            ifa_index = to_u32 iface_idx;
          })
          msg in
      if is4
      then then_do (to_sockaddr_in asio inet address)
          (λ addr. ok (add_attribute headers headers.ifa_local 4 addr.sin_addr msg'))
      else if asio.is_v6 address.address
      then then_do (to_sockaddr_in6 asio inet address)
          (λ addr. ok (add_attribute headers headers.ifa_local 16 addr.sin6_addr msg'))
      else ok msg'

  -- `contains(get_ip_addresses(), address)`
  abbrev pub has_address : Text → IpAddress Address → M (State World) Bool
  has_address name address =
      get_ip_addresses env name family_all >>= λ ips. pure (contains (ip_eq asio) ips address)

  -- set_ip_address behind its first test.
  unfoldable pub add_address : Text → IpAddress Address → M (State World) (Unit {0})
  add_address name address = has_address name address >>= λ present.
      if present
      then pure tt
      else (get_index env name >>= λ iface_idx.
          exchange_then env headers.rtm_newaddr headers.request_create_excl_ack
            (fill_address iface_idx address address.prefix)
            (wait_for (clock env) tries 500 "Failed to add IP address={} to iface={}"
              (has_address name address) 50))

  unfoldable pub set_ip_address : Text → IpAddress Address → M (State World) (Unit {0})
  set_ip_address name address =
      if is_neg address.prefix
      then raise (netex "Invalid or unspecified prefix length for address={}")
      else add_address name address

  -- The comparison of the lambda in del_ip_address: `item.without_prefix() == address.without_prefix()`.
  unfoldable pub same_without_prefix : IpAddress Address → IpAddress Address → Outcome Bool
  same_without_prefix address item =
      then_do (without_prefix asio item)
        (λ a. then_do (without_prefix asio address) (λ b. ok (ip_eq asio a b)))

  -- `already_deleted`, negated, for the addresses that the second call has returned.
  unfoldable pub still_there : IpAddress Address → List (IpAddress Address) → Outcome Bool
  still_there address ips =
      if asio.is_v4 address.address
      then contains_if ips address (same_without_prefix address)
      else ok (contains (ip_eq asio) ips address)

  -- The condition that del_ip_address waits for.
  abbrev pub is_gone : Text → IpAddress Address → M (State World) Bool
  is_gone name address = get_ip_addresses_impl env name family_all false >>= λ ips.
      lift (without_prefix asio address) >>= λ bare. pure (not (contains (ip_eq asio) ips bare))

  -- The prefix length with which an address is deleted.
  abbrev pub delete_prefix : IpAddress Address → ℤ
  delete_prefix address = if asio.is_v4 address.address then pos 32 else address.prefix

  -- What del_ip_address does about an address that is there.
  unfoldable pub remove_address : Text → IpAddress Address → M (State World) (Unit {0})
  remove_address name address = get_index env name >>= λ iface_idx.
      exchange_then env headers.rtm_deladdr headers.request_ack
        (fill_address iface_idx address (delete_prefix address))
        (wait_for (clock env) tries 500 "Failed to delete IP address={} from iface={}"
          (is_gone name address) 50)

  -- The addresses are asked for twice; the first answer, `current_ips`, is not used.
  unfoldable pub del_ip_address : Text → IpAddress Address → M (State World) (Unit {0})
  del_ip_address name address =
      get_ip_addresses env name family_all
      >> (get_ip_addresses env name family_all >>= λ ips.
          lift (still_there address ips) >>= λ there.
          if there then remove_address name address else pure tt)
