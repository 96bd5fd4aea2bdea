-- ===== src/Netiface/Host/Tests.antt =====
-- The operations on a host with two links, of which one has an address.
use fnc.Prelude.{
  inl, inr, ◌≡◌, refl, arith, pos, [], Text, codes, map, text_eq, if◌then◌else◌, true,
}
use fnc.Exceptions.{ok, throw, netex}
use fnc.IpAddress.{build}
use fnc.IpAddress.Simulated.{ip4, asio, asio-IsAsio, inet-IsInet, scoped, inet}
use fnc.Netlink.Kernel.{State}
use fnc.Netiface.Host.Deleted.{del_ip_address_At}
use fnc.Netiface.Host.{with_mtu, Fewer, OnLink6, Secondary}
use fnc.Netiface.Host.Simulated.{Kernel, env}
use fnc.Netiface.Host.Simulated.Promises.{kernel}
use fnc.Netiface.Host.Simulated.TwoLinks.{eth0, at_rest, eth0_At}
use fnc.Netiface.Host.Changes.{set_mtu_At}
use fnc.Netiface.Host.Assigning.{WithAddress, assigned_to, set_ip_address_At}
use fnc.Netiface.Host.Reads.{get_iface_names-host, get_ip_addresses_impl_At}
use fnc.Netiface.Change.{set_mtu, set_ip_address, del_ip_address}
use fnc.Netiface.{get_iface_names, construct_netiface, get_ip_addresses_impl}
use fnc.Netiface.Addresses.{all_returned}
use fnc.Netiface.Callbacks.{family_all}
use fnc.Netlink.Simulated.{headers}
use fnc.ContainerUtil.{contains}

set_mtu_At_example :
    (s' : State Kernel) × (set_mtu env (codes "eth0") 9000 at_rest ≡ (ok tt, s'))
    × ((kernel.host s'.world).links ≡ with_mtu eth0_At 9000)
    × Fewer (OnLink6 asio 2) (kernel.host at_rest.world).assigned (kernel.host s'.world).assigned
set_mtu_At_example =
    set_mtu_At env kernel at_rest eth0 eth0_At 9000 (omega arith) (unfold kernel in refl)

set_ip_address_At_example :
    (s' : State Kernel) × (set_ip_address env
        (codes "eth0")
        (build asio (ip4 10 0 0 2) (pos 8))
        at_rest
      ≡ (ok tt, s'))
    × WithAddress env
        (kernel.host at_rest.world)
        (assigned_to env eth0 8 (ip4 10 0 0 2))
        (ip4 10 0 0 2)
        (kernel.host s'.world)
set_ip_address_At_example =
    set_ip_address_At env kernel asio-IsAsio scoped inet-IsInet at_rest eth0 (ip4 10 0 0 2) 8
      eth0_At refl (omega arith) (unfold kernel in refl) (inr (unfold kernel in refl))

get_iface_names-host_example :
    (s' : State Kernel) × (get_iface_names env at_rest
      ≡ (ok (map (λ l. l.name) (kernel.host at_rest.world).links), s'))
    × ((name : Text)
        → construct_netiface env name at_rest ≡ (
          (if contains text_eq (map (λ l. l.name) (kernel.host at_rest.world).links) name
              then ok name
              else throw (netex "Specified interface does not exist name={}")),
          s',
        ))
    × (kernel.host s'.world ≡ kernel.host at_rest.world)
get_iface_names-host_example = get_iface_names-host env kernel.reporting at_rest

get_ip_addresses_impl_At_example :
    (s' : State Kernel) × (get_ip_addresses_impl env (codes "eth0") family_all true at_rest ≡ (
      ok (all_returned headers asio inet family_all true 2 (kernel.host at_rest.world).assigned),
      s',
    ))
    × (kernel.host s'.world ≡ kernel.host at_rest.world)
get_ip_addresses_impl_At_example =
    get_ip_addresses_impl_At env kernel.reporting at_rest eth0 family_all true eth0_At

-- 192.168.1.7/24 is deleted as 192.168.1.7/32.
del_ip_address_At_example :
    (s' : State Kernel) × (del_ip_address env
        (codes "eth0")
        (build asio (ip4 192 168 1 7) (pos 32))
        at_rest
      ≡ (ok tt, s'))
    × ((kernel.host s'.world).links ≡ (kernel.host at_rest.world).links)
    × Fewer
        (Secondary asio kernel.same_network
          (assigned_to env eth0 24 (ip4 192 168 1 7))
          (ip4 192 168 1 7))
        []
        (kernel.host s'.world).assigned
del_ip_address_At_example =
    del_ip_address_At env kernel asio-IsAsio scoped inet-IsInet at_rest eth0 (ip4 192 168 1 7) 32 24
      [] [] eth0_At refl (omega arith) (inl refl) (unfold kernel in refl) refl refl
