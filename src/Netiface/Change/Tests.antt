-- ===== src/Netiface/Change/Tests.antt =====
-- The operations that change an interface, run against a scripted kernel.
use fnc.Prelude.{
  ◌≤◌, ◌≡◌, ◌⊎◌, refl, arith, pos, negsuc, true, false, List, [], ◌∷◌, any, if◌then◌else◌,
}
use fnc.Exceptions.{ok}
use fnc.ContainerUtil.{contains, contains_if}
use fnc.RetryWait.{wait_for}
use fnc.Bitmask.{mask_and}
use fnc.IpAddress
use fnc.IpAddress.{
  IpAddress, Scope, global, build, ip_eq, inherited, to_sockaddr_in, without_prefix,
}
use fnc.IpAddress.Simulated.{Ip, ip4, asio, asio-IsAsio}
use fnc.Netlink.Kernel.{State, Reply, NlMsg, IsLayout, sizeof_nl_req}
use fnc.Netlink.{
  construct, with_netlink, init_message, blank_ifaddr, blank_ifinfo, send_message_async,
  send_message_sync, handle_response_async, walk,
}
use fnc.Netlink.Simulated.{Machine, headers, start, control}
use fnc.Netiface.{
  exchange, exchange_then, add_attribute, get_index, get_ip_addresses, get_ip_addresses_impl,
}
use fnc.Netiface.Callbacks.{
  index_loop, index_callback, address_of, address_loop, address_callback, is_unwanted, family_all,
}
use fnc.Netiface.Simulated.{env, name, done, dumped, office, assigned, office_bytes}
use fnc.Netiface.Change.{
  fill_mtu, fill_address, same_without_prefix, still_there, remove_address, del_ip_address,
}
use fnc.Netiface.Change.Outcomes.{Closes}
use fnc.Netiface.Change.Bounds.{FitsIn, requests_fit}
use fnc.Netiface.Change.Deletion.{del_ip_address-is_gone, still_there_lem}

abbrev ack : List Reply
ack = control 2 (pos 0) ∷ []

abbrev without_office : List (List Reply) → List (List Reply)
without_office rest = (done ∷ []) ∷ rest

abbrev with_office : List (List Reply) → List (List Reply)
with_office rest = (assigned 2 24 office_bytes ∷ done ∷ []) ∷ rest

read_run :
    get_ip_addresses env name family_all (start 0 (dumped (with_office [])))
    ≡ (ok (office ∷ []), start 2 [])
unfolding get_ip_addresses get_ip_addresses_impl get_index exchange exchange_then with_netlink
    construct init_message send_message_sync send_message_async handle_response_async walk
    index_loop index_callback address_of address_loop address_callback is_unwanted build mask_and
    IpAddress.from_string
read_run = refl

present_run : contains (ip_eq asio) (office ∷ []) office ≡ true
unfolding ip_eq
present_run = refl

abbrev del_script : List (List Reply)
del_script = dumped (with_office (dumped (with_office (dumped (ack ∷ dumped (without_office []))))))

del_run : del_ip_address env name office (start 0 del_script) ≡ (ok tt, start 8 [])
unfolding del_ip_address remove_address still_there same_without_prefix without_prefix contains_if
    fill_address add_attribute to_sockaddr_in ip_eq wait_for get_ip_addresses get_ip_addresses_impl
    get_index exchange exchange_then with_netlink construct init_message send_message_sync
    send_message_async handle_response_async walk index_loop index_callback address_of address_loop
    address_callback is_unwanted build mask_and IpAddress.from_string
del_run = refl

del_ip_address-is_gone_example :
    ((t : State Machine) × (ips : List (IpAddress Ip)) × (get_ip_addresses env name family_all t
        ≡ (ok ips, start 8 []))
      × (still_there env office ips ≡ ok false))
    ⊎ ((t : State Machine) × (u : State Machine) × (ips : List (IpAddress Ip))
        × (get_ip_addresses_impl env name family_all false t ≡ (ok ips, u))
        × (contains (ip_eq asio) ips (build asio (ip4 192 168 1 7) (negsuc 0)) ≡ false)
        × Closes env u (start 8 []))
del_ip_address-is_gone_example =
    del_ip_address-is_gone env asio-IsAsio name office (start 0 del_script) (start 8 []) del_run

abbrev other_length : IpAddress Ip
other_length = record { address = ip4 192 168 1 7; prefix = pos 16; scope = global }

still_there_lem_example :
    still_there env other_length (office ∷ [])
    ≡ ok (
        if asio.is_v4 (ip4 192 168 1 7)
        then any (λ x. asio.equal x.address (ip4 192 168 1 7)) (office ∷ [])
        else contains (ip_eq asio) (office ∷ []) other_length)
still_there_lem_example = still_there_lem env asio-IsAsio other_length (office ∷ [])

-- A request for a change of a link.
abbrev request : NlMsg
request = record {
  req = record {
    hdr = record {
      nlmsg_len = 32;
      nlmsg_type = 16;
      nlmsg_flags = 5;
      nlmsg_seq = 1;
      nlmsg_pid = 4242;
    };
    ifaddr = blank_ifaddr;
    ifinfo = blank_ifinfo;
    attrs = [];
  };
  nl_family = 16;
  iov_len = 32;
}

headers-IsLayout : IsLayout headers
headers-IsLayout = record {
  length_eq = λ n. refl;
  align_bounds = λ n. (omega arith, omega arith);
  rta_eq = λ n. refl;
  ifinfomsg_size = refl;
  ifaddrmsg_size = refl;
  rtgenmsg_size = refl;
}

requests_fit_example :
    (32 ≤ sizeof_nl_req headers)
    × FitsIn headers 32 (fill_mtu env (pos 2) 1500 request)
    × FitsIn headers 32
        (fill_address env (pos 2) (build asio (ip4 2 2 2 2) (pos 32)) (pos 32) request)
unfolding init_message
requests_fit_example =
    requests_fit env headers-IsLayout (record { pid = 4242; nl_sock = pos 3; seq = 0 }) 16 5 request
      (pos 2) 1500 (build asio (ip4 2 2 2 2) (pos 32)) (pos 32) refl
