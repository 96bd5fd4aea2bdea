-- ===== src/Main/Tests.antt =====
-- Runs of the program, by a user who may change the interface and by one who may not: then the kernel
-- refuses the first change, and the exception leaves `main`.
use fnc.Prelude.{
  ◌⊎◌, inl, codes, false, ◌≡◌, ◌≢◌, ◌↔◌, refl, arith, pos, true, negsuc, List, [], ◌∷◌,
}
use fnc.Exceptions.{ok, throw, denied, permission_denied, catches}
use fnc.Bitmask.{mask_and}
use fnc.ContainerUtil.{contains_if}
use fnc.IpAddress
use fnc.IpAddress.{build}
use fnc.Netlink.Kernel.{Reply}
use fnc.Netlink.{
  construct, with_netlink, init_message, send_message_async, send_message_sync,
  handle_response_async, walk,
}
use fnc.Netlink.Simulated.{start, control}
use fnc.Netiface.{
  exchange, exchange_then, add_attribute, get_iface_names, construct_netiface, get_index,
  get_ip_addresses, get_ip_addresses_impl,
}
use fnc.Netiface.Callbacks.{
  names_loop, names_callback, index_loop, index_callback, address_callback,
}
use fnc.Netiface.Change.{fill_mtu, set_mtu, still_there, del_ip_address}
use fnc.Netiface.Simulated.{env, name, done, dumped}
use fnc.Main.{try_ipv6, configure, run}
use fnc.Netiface.Class.{netiface}
use fnc.IpAddress.Simulated.{ip4, ip6, asio, asio-IsAsio, scoped, inet-IsInet}
use fnc.Netlink.Kernel.{State}
use fnc.Netiface.Host
use fnc.Netiface.Host.{with_mtu, holds}
use fnc.Netiface.Host.Simulated
use fnc.Netiface.Host.Simulated.{Kernel}
use fnc.Netiface.Host.Simulated.Promises.{kernel, strict_kernel}
use fnc.Netiface.Host.Simulated.TwoLinks.{eth0, at_rest, eth0_At, eth0_strict}
use fnc.Main.{parsed, main, start_logging}
use fnc.Logging.{at_start}
use fnc.Main.Unknown.{main_unknown}
use fnc.Main.Sockets.{main-closes}
use fnc.Netiface.{Env}
use fnc.IpAddress.Simulated.{Ip}
use fnc.Netlink.Sockets.Tidy.{Leaks}
use fnc.Netlink.Sockets.Simulated.{Tabled, tabled, descriptors}
use fnc.Main.Denied.{main-denied}
use fnc.Main.Whole.{main_returns}
use fnc.Main.Again.{executions, Configured, executions_return}
use fnc.Netiface.Host.Once.{Once}
use fnc.Netiface.Host.Elsewhere.{Elsewhere}
use fnc.Main.Changes.{OnlyAs}
use fnc.Main.Handlers.{run-permission_denied}

abbrev no_addresses : List (List Reply) → List (List Reply)
no_addresses rest = dumped ((done ∷ []) ∷ rest)

abbrev unprivileged : List (List Reply)
unprivileged = dumped (
    dumped (
      dumped (
        no_addresses (
          no_addresses (
            no_addresses
              (no_addresses (no_addresses (dumped ((control 2 (negsuc 12) ∷ []) ∷ [])))))))))

refused :
    run (netiface env) asio name (start 0 unprivileged)
    ≡ (throw (denied "Permission Denied"), start 15 [])
unfolding run configure catches get_iface_names construct_netiface get_index get_ip_addresses
    get_ip_addresses_impl del_ip_address still_there contains_if set_mtu fill_mtu add_attribute
    exchange exchange_then with_netlink construct init_message send_message_sync send_message_async
    handle_response_async walk names_loop names_callback index_loop index_callback address_callback
    mask_and build IpAddress.from_string
refused = refl

run-permission_denied_example :
    (((run (netiface env) asio name (start 0 unprivileged)).0 ≡ throw (denied "Permission Denied"))
      ↔ (((configure (netiface env) asio name (start 0 unprivileged)).0
            ≡ throw (denied "Permission Denied"))
          × (permission_denied ≡ permission_denied)))
    × ((try_ipv6 (netiface env) asio name (start 0 unprivileged)).0
        ≢ throw (denied "Permission Denied"))
run-permission_denied_example =
    run-permission_denied (netiface env) asio name (start 0 unprivileged)
      (denied "Permission Denied")

at_rest-OnlyAs :
    OnlyAs Host.Simulated.env kernel asio-IsAsio eth0 (ip6 49 50) 64 (kernel.host at_rest.world)
unfolding kernel
at_rest-OnlyAs n e = absurd (ground (arith, e))

-- "1" is read as the number of its character.
main_returns_example :
    (s' : State Kernel) × (main
        (netiface Host.Simulated.env)
        asio
        (λ args. parsed eth0.name (pos 2))
        []
        at_start
        at_rest
      ≡ (ok (pos 0), start_logging (pos 2) at_start, s'))
    × ((kernel.host s'.world).links ≡ with_mtu eth0_At 8000)
    × (holds asio (kernel.host s'.world).assigned 2 32 (ip4 49 49 49 49) ≡ true)
    × (holds asio (kernel.host s'.world).assigned 2 32 (ip4 50 50 50 50) ≡ true)
    × (holds asio (kernel.host s'.world).assigned 2 64 (ip6 49 50) ≡ true)
    × Once Host.Simulated.env eth0 (ip4 50 50 50 50) (kernel.host s'.world).assigned
    × OnlyAs Host.Simulated.env kernel asio-IsAsio eth0 (ip6 49 50) 64 (kernel.host s'.world)
    × Elsewhere Host.Simulated.env asio-IsAsio kernel.same_network
        (ip4 50 50 50 50)
        eth0
        (ip4 49 49 49 49 ∷ ip4 50 50 50 50 ∷ ip6 49 50 ∷ [])
        (kernel.host at_rest.world)
        (kernel.host s'.world)
main_returns_example =
    main_returns Host.Simulated.env kernel asio-IsAsio scoped inet-IsInet
      (λ args. parsed eth0.name (pos 2)) [] at_start (pos 2) at_rest eth0 eth0_At (ip4 49 49 49 49)
      (ip4 50 50 50 50) (ip6 49 50) refl
      (omega arith, (omega arith, (omega arith, (omega arith, (omega arith, (omega arith, tt))))))
      (omega arith) (unfold kernel in refl) (unfold kernel in refl)
      (record { reads = refl; prefix_length = refl })
      (record { reads = refl; prefix_length = refl })
      (record { reads = refl; prefix_length = refl }) refl refl refl (unfold kernel in refl)
      (unfold kernel in refl) (unfold kernel in refl) refl (inl (unfold kernel in refl))
      at_rest-OnlyAs

-- The program, executed three times.
executions_return_example :
    (w' : Kernel) × (executions
        (netiface Host.Simulated.env)
        asio
        (λ args. parsed eth0.name (pos 0))
        ([] ∷ [] ∷ [] ∷ [])
        at_rest.world
      ≡ (ok (pos 0) ∷ ok (pos 0) ∷ ok (pos 0) ∷ [], w'))
    × Configured Host.Simulated.env asio-IsAsio kernel.same_network eth0 eth0_At
        (ip4 49 49 49 49)
        (ip4 50 50 50 50)
        (ip6 49 50)
        (kernel.host at_rest.world)
        (kernel.host w')
executions_return_example =
    executions_return Host.Simulated.env kernel asio-IsAsio scoped inet-IsInet
      (λ args. parsed eth0.name (pos 0)) eth0 (ip4 49 49 49 49) (ip4 50 50 50 50) (ip6 49 50)
      (omega arith, (omega arith, (omega arith, (omega arith, (omega arith, (omega arith, tt))))))
      (omega arith) (λ mtu up. (unfold kernel in refl, unfold kernel in refl))
      (record { reads = refl; prefix_length = refl })
      (record { reads = refl; prefix_length = refl })
      (record { reads = refl; prefix_length = refl }) refl refl refl (unfold kernel in refl)
      (unfold kernel in refl) (unfold kernel in refl) refl [] ([] ∷ [] ∷ [])
      ((pos 0, refl), ((pos 0, refl), ((pos 0, refl), tt))) at_rest.world eth0_At
      (inl (unfold kernel in refl)) at_rest-OnlyAs

main_unknown_example :
    (s' : State Kernel) × (main
        (netiface Host.Simulated.env)
        asio
        (λ args. parsed (codes "wlan0") (pos 0))
        []
        at_start
        at_rest
      ≡ (ok (pos 0), start_logging (pos 0) at_start, s'))
    × (kernel.host s'.world ≡ kernel.host at_rest.world)
main_unknown_example =
    main_unknown Host.Simulated.env kernel.reporting (λ args. parsed (codes "wlan0") (pos 0)) []
      at_start (codes "wlan0") (pos 0) at_rest refl (unfold kernel in refl)

main-denied_example :
    (s' : State Kernel) × (main
        (netiface (Host.Simulated.env_of false))
        asio
        (λ args. parsed eth0.name (pos 0))
        []
        at_start
        at_rest
      ≡ (throw (denied "Permission Denied"), start_logging (pos 0) at_start, s'))
    × (strict_kernel.host s'.world ≡ strict_kernel.host at_rest.world)
main-denied_example =
    main-denied (Host.Simulated.env_of false) (negsuc 12) strict_kernel asio-IsAsio
      (λ args. parsed eth0.name (pos 0)) [] at_start (pos 0) at_rest eth0 (ip4 50 50 50 50) refl
      eth0_strict (record { reads = refl; prefix_length = refl }) (unfold strict_kernel in refl)

abbrev env_tabled : Env (Tabled Kernel) Ip
env_tabled = record {
  sys = tabled Host.Simulated.env.sys;
  headers = Host.Simulated.env.headers;
  inet = Host.Simulated.env.inet;
  asio = Host.Simulated.env.asio;
  rounds = Host.Simulated.env.rounds;
  tries = Host.Simulated.env.tries;
  junk = Host.Simulated.env.junk;
}

abbrev with_stdio : State (Tabled Kernel)
with_stdio = record {
  session = 0;
  world = record { fds = pos 2 ∷ pos 1 ∷ pos 0 ∷ []; below = at_rest.world };
}

main-closes_example :
    let fds_behind =
      (main
        (netiface env_tabled)
        asio
        (λ args. parsed eth0.name (pos 0))
        []
        at_start
        with_stdio).2.world.fds in
    (fds_behind ≡ pos 2 ∷ pos 1 ∷ pos 0 ∷ [])
    ⊎ Leaks env_tabled.sys
        (descriptors Host.Simulated.env.sys)
        (pos 2 ∷ pos 1 ∷ pos 0 ∷ [])
        fds_behind
unfolding descriptors
main-closes_example =
    main-closes env_tabled (descriptors Host.Simulated.env.sys) (λ args. parsed eth0.name (pos 0))
      [] at_start with_stdio
