-- ===== src/Netiface/Sessions/Tests.antt =====
-- An exchange on a scripted kernel, which does not let a socket be bound.
use fnc.Prelude.{◌≡◌, refl, pos, negsuc, some, [], ◌∷◌}
use fnc.Exceptions.{ok, throw, netex}
use fnc.IpAddress.Simulated.{Ip}
use fnc.Netlink.Kernel.{System, State}
use fnc.Netlink.{construct}
use fnc.Netlink.Sockets.Simulated.{Tabled, tabled, descriptors}
use fnc.Netlink.Simulated.{Machine, sys, headers, start}
use fnc.Netiface.{Env, exchange}
use fnc.Netiface.Callbacks.{names_callback}
use fnc.Netiface.Simulated.{env}
use fnc.Netiface.Sessions.{exchange-leaks}

abbrev unbound : System Machine
unbound = record sys { bind = λ fd pid w. (negsuc 0, w) }

abbrev env_unbound : Env (Tabled Machine) Ip
env_unbound = record {
  sys = tabled unbound;
  headers = env.headers;
  inet = env.inet;
  asio = env.asio;
  rounds = env.rounds;
  tries = env.tries;
  junk = env.junk;
}

abbrev at_start : State (Tabled Machine)
at_start = record { session = 0; world = record { fds = []; below = (start 0 []).world } }

fails : (construct (tabled unbound) at_start).0 ≡ throw (netex "Failed to bind netlink socket: {}")
unfolding construct
fails = refl

exchange-leaks_example :
    (descriptors unbound).open_sockets
      (exchange env_unbound 18 769 ok (some (names_callback headers)) [] at_start).1.world
    ≡ pos 3 ∷ (descriptors unbound).open_sockets at_start.world
exchange-leaks_example =
    exchange-leaks env_unbound (descriptors unbound) 18 769 ok (some (names_callback headers)) []
      at_start (netex "Failed to bind netlink socket: {}") refl fails
