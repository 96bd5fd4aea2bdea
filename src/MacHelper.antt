-- ===== src/MacHelper.antt =====
-- util/mac_helper.hpp: what it declares where __APPLE__ is defined, for an editor on a system without
-- the Linux headers. On Linux the names are those of the system's headers.
use fnc.Prelude.{ℕ, ℤ, List}

-- IFHWADDRLEN and IFNAMSIZ
abbrev pub mac_ifhwaddrlen : ℕ
mac_ifhwaddrlen = 6

abbrev pub ifnamsiz : ℕ
ifnamsiz = 16

-- `struct ifmap`
pub record IfMap : Type 0 where
  pub mem_start : ℕ
  pub mem_end : ℕ
  pub base_addr : ℕ
  pub irq : ℕ
  pub dma : ℕ
  pub port : ℕ

-- The union in `struct ifreq`, by the member that was written last. A pointer is its address.
pub data IfrMember (SockAddr : Type 0) : Type 0 where
  ifr_addr ifr_dstaddr ifr_broadaddr ifr_netmask ifr_hwaddr : SockAddr → IfrMember SockAddr
  ifr_flags ifr_ifindex ifr_metric ifr_mtu : ℤ → IfrMember SockAddr
  ifr_map : IfMap → IfrMember SockAddr
  ifr_slave ifr_newname : List ℕ → IfrMember SockAddr
  ifr_data : ℕ → IfrMember SockAddr

-- `struct ifreq`, over the system's `struct sockaddr`. The name has ifnamsiz bytes.
pub record IfReq (SockAddr : Type 0) : Type 0 where
  pub ifr_name : List ℕ
  pub member : IfrMember SockAddr

-- `long syscall(long)`, over the state of the system.
abbrev pub Syscall : Type 0 → Type 0
Syscall World = ℤ → World → ℤ × World
