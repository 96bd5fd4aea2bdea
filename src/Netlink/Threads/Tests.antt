-- ===== src/Netlink/Threads/Tests.antt =====
-- Thread 7 opens two sockets and closes the first; thread 6 then meets the port id of the second.
use fnc.Prelude.{◌≡◌, refl, arith, pos, [], ◌∷◌, false}
use fnc.Exceptions.{ok, throw, netex}
use fnc.Netlink.{Netlink, construct, destroy}
use fnc.Netlink.Kernel.{State}
use fnc.Netlink.Threads.{takes, Runs, begins, opens, closes}
use fnc.Netlink.Threads.OneThread.{construct-Runs}
use fnc.Netlink.Threads.TwoThreads.{construct_collides}
use fnc.Netlink.Threads.Simulated.{Sockets, sys, ports}

abbrev start : State Sockets
start = record { session = 0; world = record { thread = 7; next = 3; bound = [] } }

abbrev first : Netlink
first = record { pid = 7; nl_sock = pos 3; seq = 0 }

abbrev second : Netlink
second = record { pid = 8; nl_sock = pos 4; seq = 0 }

abbrev one_open : State Sockets
one_open = destroy sys first (construct sys (construct sys start).1).1

one_open-Runs : Runs sys ports 7 start 2 one_open
one_open-Runs = closes (opens (opens begins refl) (unfold construct in refl)) first

construct-Runs_example :
    (nl : Netlink) × ((construct sys one_open).0 ≡ ok nl)
    × (takes (ports.bound one_open.world) nl.pid ≡ false)
construct-Runs_example =
    construct-Runs sys ports 7 start 2 one_open (unfold ports in refl) one_open-Runs (omega arith)
      (unfold construct in refl) refl

abbrev other_thread : State Sockets
other_thread = record {
  session = 2;
  world = record { thread = 6; next = 5; bound = (pos 4, 8) ∷ [] };
}

construct_collides_example :
    (construct sys other_thread).0 ≡ throw (netex "Failed to bind netlink socket: {}")
construct_collides_example =
    construct_collides sys ports (construct sys start).1 other_thread second 0
      (unfold construct in refl) (unfold ports in refl) (unfold construct in refl)
      (unfold construct in refl) refl
