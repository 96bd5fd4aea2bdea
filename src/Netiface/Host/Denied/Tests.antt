-- ===== src/Netiface/Host/Denied/Tests.antt =====
-- The operations on a host with two links, for a user without the right to a change.
use fnc.Prelude.{◌≡◌, refl, arith, pos, negsuc, codes, false}
use fnc.Exceptions.{throw, denied}
use fnc.IpAddress.{build}
use fnc.IpAddress.Simulated.{ip4, asio, asio-IsAsio, inet-IsInet, scoped}
use fnc.Netlink.Kernel.{State}
use fnc.Netiface.Host.Simulated.{Kernel, env_of}
use fnc.Netiface.Host.Simulated.Promises.{strict_kernel}
use fnc.Netiface.Host.Simulated.TwoLinks.{eth0, at_rest, eth0_strict}
use fnc.Netiface.Host.Denied.{set_mtu_refused, set_ip_address_refused}
use fnc.Netiface.Host.Denied.Deletion.{del_ip_address_refused}
use fnc.Netiface.Change.{set_mtu, set_ip_address, del_ip_address}

set_mtu_refused_example :
    (s' : State Kernel) × (set_mtu (env_of false) (codes "eth0") 9000 at_rest
      ≡ (throw (denied "Permission Denied"), s'))
    × (strict_kernel.host s'.world ≡ strict_kernel.host at_rest.world)
set_mtu_refused_example =
    set_mtu_refused (env_of false) (negsuc 12) strict_kernel at_rest eth0 9000 eth0_strict

set_ip_address_refused_example :
    (s' : State Kernel) × (set_ip_address
        (env_of false)
        (codes "eth0")
        (build asio (ip4 10 0 0 2) (pos 8))
        at_rest
      ≡ (throw (denied "Permission Denied"), s'))
    × (strict_kernel.host s'.world ≡ strict_kernel.host at_rest.world)
unfolding strict_kernel
set_ip_address_refused_example =
    set_ip_address_refused (env_of false) (negsuc 12) strict_kernel asio-IsAsio scoped inet-IsInet
      at_rest eth0 (ip4 10 0 0 2) 8 eth0_strict refl (omega arith)

del_ip_address_refused_example :
    (s' : State Kernel) × (del_ip_address
        (env_of false)
        (codes "eth0")
        (build asio (ip4 192 168 1 7) (pos 32))
        at_rest
      ≡ (throw (denied "Permission Denied"), s'))
    × (strict_kernel.host s'.world ≡ strict_kernel.host at_rest.world)
unfolding strict_kernel
del_ip_address_refused_example =
    del_ip_address_refused (env_of false) (negsuc 12) strict_kernel asio-IsAsio scoped inet-IsInet
      at_rest eth0 (ip4 192 168 1 7) 32 eth0_strict refl (omega arith)
