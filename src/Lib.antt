-- ===== src/Lib.antt =====
-- FreeNetConfig: the names, index, MTU, MAC address and IP addresses of a Linux network interface,
-- read and changed over netlink sockets.
--
-- The parts and their files:
--   Exceptions     exceptions.hpp: the classes, which handler takes which, the throwing macros, `what`;
--                  a computation over a state that may throw, in which everything else is written.
--   RetryWait      util/retry_wait.hpp: WaitFor is `wait_for`, RetryFor `retry_for`.
--   ContainerUtil  util/container_util.hpp: `contains`, its overload with a predicate `contains_if`, `join`.
--   Bitmask        util/bitmask_operators.hpp: operator& is `mask_and`, operator&= `assign_and`, and so on.
--   MacAddress     mac_address.cpp: the constructors are `from_bytes` and `from_string`, the operators
--                  `mac_eq`, `mac_eq_string`, `mac_ne` and `mac_ne_string`.
--   IpAddress      ip_address.cpp: the constructors are `from_string`, `from_sockaddr_in` and
--                  `inherited`, the operators `ip_eq`, `ip_ne` and `index`.
--   Netlink        netlink.cpp: the constructor is `construct`, the destructor `destroy`, a local
--                  `netlink nl;` with its scope `with_netlink`; the loop of handle_response_async is
--                  `handle_response_async`, and its inner loop over a datagram `walk`. Netlink/Threads
--                  follows the port ids that the constructor takes from the static `session_`, and
--                  Netlink/Datagram has the two loops on the bytes that recvmsg gives.
--   Netiface       netiface.cpp: the operations that read an interface under their own names, the
--                  constructor as `construct_netiface`; Netiface/Callbacks has their lambdas,
--                  and Netiface/Change the operations that change an interface, in Bounds how their
--                  requests fit into nl_req_t. Netiface/Host states what the operations rely on of
--                  the kernel, and follows them on a host, in Denied on one whose kernel refuses
--                  every change; the other modules of Netiface rely on nothing but the answers they name.
--   Logging        logging.cpp: the two loggers, and the level from which one of them shows messages.
--   ScopeExit      util/scope_exit.hpp and util/util.hpp: code behind a scope. Nothing uses it.
--   MacHelper      util/mac_helper.hpp: declarations for an editor.
--   Main           main.cpp: the options, `run` for the try block with its handlers, `configure` for
--                  what is in it. Main/Steps, Begins, Changes, Whole, Unknown and Denied follow it on
--                  a host, Main/Again one execution behind the other, and Main/Sockets the sockets
--                  that it leaves open.
--   TestHelpers    util/test.cpp: the output of a shell command and the random addresses, for the tests.
-- The modules Class collect the operations of a class, with the signatures of its header, in a record:
-- Main works on the one of netiface.hpp, and the modules of the other classes fill theirs.
-- Netiface stands on all the others: an operation opens a netlink socket, makes a request, sends it
-- and gives the loop a callback, which collects what the operation returns; the operations that change
-- an interface then wait with WaitFor until the operations that read it show the change.
--
-- State is passed explicitly: netlink's static `session_`, and one value for all that lies outside the
-- program, on which the system calls of the parameter `System` work (Netlink/Kernel). The constants of
-- the Linux headers are a parameter `Headers`, boost's addresses `Asio`, <arpa/inet.h> `Inet`, boost's
-- string algorithms `Boost`, the clock `Clock`, <cstdio> `Stdio`, <random> `Random`; IsAsio, IsInet,
-- IsBoost, IsStdio and IsRandom state what is documented of them, and `IsLayout` what is of the sizes
-- and macros in `Headers`. A received datagram is the list of messages that NLMSG_OK and NLMSG_NEXT
-- find, and a message has the list of attributes that RTA_OK and RTA_NEXT find: Netlink/Datagram takes
-- those on messages as parameters and gets the list from the bytes. Netiface/Host/Kernel describes
-- kernels by the links and addresses of a host: `Reporting` states that a dump reports them and that
-- no call on a socket fails, `Rtnetlink` besides that a request that makes sense is acknowledged and
-- has changed them, and `Refusing` that every change is refused with one error. A request makes sense
-- if its length counts its attribute, whose length and place fit (`HasAttribute`). As the request for
-- an MTU names every flag in ifi_change and none in ifi_flags, it takes the link down, and the kernel
-- may drop the link's IPv6 addresses; as it deletes an IPv4 address, it may delete the secondary
-- addresses of the same network; and it refuses an address that the link has with another prefix, as
-- with any that `takes` does not hold of. `Ports` of Netlink/Threads states which port ids bind
-- refuses, and `Descriptors` of Netlink/Sockets which descriptors the system calls open and close. The
-- modules Simulated hold a small kernel and a small library of addresses, on which the modules Tests
-- run the operations.
--
-- These loops run on fuel, and `stuck` stands for too little of it. The loop over the answers needs
-- one round more than datagrams are queued, the loop over the bytes of a datagram one more than bytes
-- are left, and so does the loop of shell_exec for the output. WaitFor needs one round more than the
-- limit has waits, if the clock moves. The operator!= of a MAC address has no fuel that is enough.
-- `stuck` also stands for a read behind the end of a buffer, as the end of to_sockaddr is or a name
-- without a NUL, and for a read of a buffer that nothing was written to, as where inet_ntop fails. An
-- exception unwinds the stack up to its handler; where it has none, which C++ leaves to the
-- implementation, it is taken to unwind it too, so that the sockets are closed.
--
-- Not modelled: the messages that the operations log and what is printed; the arguments and the source
-- locations in the messages of exceptions; how CLI11 reads the command line, whose result is a
-- parameter of `main`; how the structures of netlink lie in bytes, which the macros and what is read
-- at a pointer are parameters for; test_main.cpp, which sets up Catch2, test_netiface.cpp, which
-- compares with the output of shell commands, and test_ip_address.cpp, whose line 142 is no C++; the
-- copies of CLI11 and Catch2 under libs.
pub mod Prelude
pub mod Exceptions
pub mod RetryWait
pub mod ContainerUtil
pub mod MacAddress
pub mod Bitmask
pub mod IpAddress
pub mod Netlink
pub mod Netiface
pub mod Main
pub mod Logging
pub mod ScopeExit
pub mod MacHelper
pub mod TestHelpers
