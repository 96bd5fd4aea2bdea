-- ===== src/Netiface/Class.antt =====
-- netiface.hpp: the public operations of `class netiface`, as its clients take them. An object is the
-- name that its constructor has kept.
use fnc.Prelude.{ℕ, ℤ, Option, List, ◌++◌, Text}
use fnc.Exceptions.{M}
use fnc.MacAddress.{MacAddress}
use fnc.IpAddress.{IpAddress, decimal}
use fnc.Netlink.Kernel.{State}
use fnc.Bitmask.Class.{BitmaskOperators, bitmask_operators, enabled}
use fnc.Netiface.Callbacks.{family_v4, family_v6, family_all}
use fnc.Netiface
use fnc.Netiface.{Env}
use fnc.Netiface.Change

-- iface_idx_t and mtu_t
abbrev pub IfaceIdx : Type 0
IfaceIdx = ℤ

abbrev pub Mtu : Type 0
Mtu = ℕ

-- The enumerators of ip_family_type and their values. As the operators of a bit mask are enabled for it,
-- a value of the type may be any bit pattern, which is what the operations take.
pub data IpFamilyType : Type 0 where
  v4 v6 all : IpFamilyType

abbrev pub family_value : IpFamilyType → ℕ
family_value v4 = family_v4
family_value v6 = family_v6
family_value all = family_all

abbrev pub ip_family_operators : Option BitmaskOperators
ip_family_operators = bitmask_operators enabled

-- operator<< of an ip_family_type, for the text that the stream has.
abbrev pub put_family : Text → ℕ → Text
put_family os obj = os ++ decimal obj

pub record NetifaceClass (World Address : Type 0) : Type 0 where
  pub get_iface_names : M (State World) (List Text)
  pub construct : Text → M (State World) Text
  pub get_name : Text → Text
  pub get_index : Text → M (State World) IfaceIdx
  pub get_mtu : Text → M (State World) Mtu
  pub set_mtu : Text → Mtu → M (State World) (Unit {0})
  pub get_mac_address : Text → M (State World) MacAddress
  pub get_ip_addresses : Text → ℕ → M (State World) (List (IpAddress Address))
  pub set_ip_address : Text → IpAddress Address → M (State World) (Unit {0})
  pub del_ip_address : Text → IpAddress Address → M (State World) (Unit {0})

abbrev pub netiface : {World Address : Type 0} → Env World Address → NetifaceClass World Address
netiface env = record {
  get_iface_names = Netiface.get_iface_names env;
  construct = Netiface.construct_netiface env;
  get_name = λ nic. nic;
  get_index = Netiface.get_index env;
  get_mtu = Netiface.get_mtu env;
  set_mtu = Change.set_mtu env;
  get_mac_address = Netiface.get_mac_address env;
  get_ip_addresses = Netiface.get_ip_addresses env;
  set_ip_address = Change.set_ip_address env;
  del_ip_address = Change.del_ip_address env;
}
