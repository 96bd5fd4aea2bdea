-- ===== src/Netiface/Callbacks.antt =====
-- netiface.cpp: what its callbacks read out of one message, and the bit tests on `ip_family_type`.
-- A callback's `return` ends the loop over the attributes and keeps what was captured before.
use fnc.Prelude.{
  ℕ, ◌-◌, ◌%◌, ◌^◌, ℤ, pos, negsuc, int_eq, Bool, false, not, ◌&&◌, ◌||◌, none, some, List, [], ◌∷◌,
  ◌++◌, ◌==◌, ltb, Text, text_eq, if◌then◌else◌,
}
use fnc.Exceptions.{Outcome, ok, stuck, then_do}
use fnc.Bitmask.{mask_and}
use fnc.MacAddress.{MacAddress, from_bytes}
use fnc.IpAddress.{Asio, Inet, IpAddress}
use fnc.IpAddress
use fnc.Netlink.Kernel.{Headers, Reply, Attribute}

-- The std::string of a char*: the bytes before the first NUL.
abbrev pub c_string : List ℕ → Text
c_string [] = []
c_string (b ∷ bytes) = let rest = c_string bytes in if b == 0 then [] else b ∷ rest

-- Whether there is a NUL at which a text ends: where there is none, the read goes on behind the bytes.
abbrev pub has_nul : List ℕ → Bool
has_nul [] = false
has_nul (b ∷ bytes) = let rest = has_nul bytes in b == 0 || rest

-- (uint32_t)iface_idx
abbrev pub to_u32 : ℤ → ℕ
to_u32 (pos n) = n % 2 ^ 32
to_u32 (negsuc n) = 2 ^ 32 - 1 - n % 2 ^ 32

-- 0 < iface_index
abbrev pub is_positive : ℤ → Bool
is_positive (pos n) = ltb 0 n
is_positive (negsuc n) = false

-- ip_family_type
abbrev pub family_v4 : ℕ
family_v4 = 1

abbrev pub family_v6 : ℕ
family_v6 = 2

abbrev pub family_all : ℕ
family_all = 3

-- `get_v4` and `get_v6` of get_ip_addresses_impl.
unfoldable pub wants_v4 : ℕ → Bool
wants_v4 ip_family = mask_and ip_family family_v4 == family_v4

unfoldable pub wants_v6 : ℕ → Bool
wants_v6 ip_family = mask_and ip_family family_v6 == family_v6

-- Whether the callback of get_ip_addresses_impl returns at an address of this family.
unfoldable pub is_unwanted : Inet → ℕ → ℕ → Bool
unfolding wants_v4 wants_v6
is_unwanted inet ip_family ifa_family =
    ifa_family == inet.af_inet && not (wants_v4 ip_family)
    || ifa_family == inet.af_inet6 && not (wants_v6 ip_family)

-- The address that is made of an attribute IFA_ADDRESS. Where inet_ntop fails, which it does for every
-- address of a family that it does not know, the buffer is read as it was not initialised.
unfoldable pub address_of :
    {Address : Type 0} → Asio Address → Inet → Bool → Reply → List ℕ → Outcome (IpAddress Address)
address_of asio inet include_prefix m data_bytes = elim (inet.inet_ntop m.ifa_family data_bytes) [
  | none ↦ stuck
  | some ipaddr_str ↦
      IpAddress.from_string asio ipaddr_str
        (if include_prefix then pos m.ifa_prefixlen else negsuc 0)
]

module _ (h : Headers) where
  unfoldable pub names_loop : List Attribute → List Text → Outcome (List Text)
  names_loop [] names = ok names
  names_loop (a ∷ rest) names =
      let is_name = a.rta_type == h.ifla_ifname in
      let on = names_loop rest (if is_name then names ++ (c_string a.rta_data ∷ []) else names) in
      if is_name && not (has_nul a.rta_data) then stuck else on

  -- The callback of get_iface_names.
  unfoldable pub names_callback : Reply → List Text → Outcome (List Text)
  names_callback m names =
      if m.nlmsg_type == h.rtm_newlink then names_loop m.attributes names else ok names

  unfoldable pub index_loop : Text → ℤ → List Attribute → ℤ → Outcome ℤ
  index_loop name ifi_index [] iface_index = ok iface_index
  index_loop name ifi_index (a ∷ rest) iface_index =
      let on = index_loop name ifi_index rest iface_index in
      if a.rta_type == h.ifla_ifname
      then (if not (has_nul a.rta_data)
          then stuck
          else ok (if text_eq name (c_string a.rta_data) then ifi_index else iface_index))
      else if is_positive iface_index
      then ok iface_index
      else on

  -- The callback of get_index.
  unfoldable pub index_callback : Text → Reply → ℤ → Outcome ℤ
  index_callback name m iface_index =
      if m.nlmsg_type == h.rtm_newlink
      then index_loop name m.ifi_index m.attributes iface_index
      else ok iface_index

  unfoldable pub mtu_loop : List Attribute → ℕ → ℕ
  mtu_loop [] mtu = mtu
  mtu_loop (a ∷ rest) mtu =
      let on = mtu_loop rest mtu in if a.rta_type == h.ifla_mtu then h.load_u32 a.rta_data else on

  -- The callback of get_mtu.
  unfoldable pub mtu_callback : ℤ → Reply → ℕ → Outcome ℕ
  mtu_callback iface_idx m mtu =
      if m.nlmsg_type == h.rtm_newlink && int_eq m.ifi_index iface_idx
      then ok (mtu_loop m.attributes mtu)
      else ok mtu

  unfoldable pub mac_loop : List Attribute → MacAddress → Outcome MacAddress
  mac_loop [] mac = ok mac
  mac_loop (a ∷ rest) mac =
      let on = mac_loop rest mac in
      if a.rta_type == h.ifla_address
      then elim (from_bytes a.rta_data) [ none ↦ stuck | some m ↦ ok m ]
      else on

  -- The callback of get_mac_address.
  unfoldable pub mac_callback : ℤ → Reply → MacAddress → Outcome MacAddress
  mac_callback iface_idx m mac =
      if m.nlmsg_type == h.rtm_newlink && int_eq m.ifi_index iface_idx
      then mac_loop m.attributes mac
      else ok mac

  module _ {Address : Type 0} (asio : Asio Address) (inet : Inet) (ip_family : ℕ)
      (include_prefix : Bool) where
    unfoldable pub address_loop :
        Reply → List Attribute → List (IpAddress Address) → Outcome (List (IpAddress Address))
    address_loop m [] addresses = ok addresses
    address_loop m (a ∷ rest) addresses =
        let on = address_loop m rest addresses in
        let added =
          then_do (address_of asio inet include_prefix m a.rta_data)
            (λ ip. address_loop m rest (addresses ++ (ip ∷ []))) in
        if a.rta_type == h.ifa_address
        then (if is_unwanted inet ip_family m.ifa_family then ok addresses else added)
        else on

    -- The callback of get_ip_addresses_impl.
    unfoldable pub address_callback :
        ℤ → Reply → List (IpAddress Address) → Outcome (List (IpAddress Address))
    address_callback iface_idx m addresses =
        if m.nlmsg_type == h.rtm_newaddr && m.ifa_index == to_u32 iface_idx
        then address_loop m m.attributes addresses
        else ok addresses
