-- ===== src/Netlink/Threads/TwoThreads.antt =====
-- The port ids of sockets that two threads open.
use fnc.Prelude.{ℕ, ◌+◌, ◌%◌, ◌^◌, ◌≡◌, refl, ap, ◌∙◌, arith, is_neg, true, false}
use fnc.Exceptions.{ok, throw, netex}
use fnc.Netlink.{Netlink, construct, nl_socket_timeout}
use fnc.Netlink.Kernel.{System, State}
use fnc.Netlink.Pids.{construct-pid, construct-session}
use fnc.Netlink.Threads.{takes, Ports}

module _ {World : Type 0} (sys : System World) (d : Ports sys) where
  construct_taken :
      (s : State World)
      → let (fd, w1) = sys.socket s.world in
        is_neg (sys.set_rcvtimeo fd nl_socket_timeout w1).0 ≡ false
        → takes (d.bound s.world) ((sys.gettid s.world + s.session) % 2 ^ 32) ≡ true
        → (construct sys s).0 ≡ throw (netex "Failed to bind netlink socket: {}")
  unfolding construct
  construct_taken s settable taken =
      let (fd, w1) = sys.socket s.world in
      let port = (sys.gettid s.world + s.session) % 2 ^ 32 in
      let (rc1, w2) = sys.set_rcvtimeo fd nl_socket_timeout w1 in
      let same : d.bound w2 ≡ d.bound s.world =
        d.set_rcvtimeo_keeps fd nl_socket_timeout w1 ∙ d.socket_keeps s.world in
      let (refused, kept) = d.bind_taken fd port w2 (ap (λ es. takes es port) same ∙ taken) in
      rw (settable, refused) refl

  -- A thread has opened a socket, which is still bound when, `k` openings by whichever threads later,
  -- a thread whose id is lower by k + 1 calls the constructor and can set the timeout: the constructor
  -- throws, since both sockets get the same port id.
  pub construct_collides :
      (s t : State World) (m : Netlink) (k : ℕ)
      → (construct sys s).0 ≡ ok m
      → takes (d.bound t.world) m.pid ≡ true
      → t.session ≡ ((construct sys s).1.session + k) % 2 ^ 32
      → sys.gettid s.world ≡ sys.gettid t.world + (k + 1)
      → is_neg (sys.set_rcvtimeo (sys.socket t.world).0 nl_socket_timeout (sys.socket t.world).1).0
        ≡ false
      → (construct sys t).0 ≡ throw (netex "Failed to bind netlink socket: {}")
  construct_collides s t m k made still later lower settable =
      let same : (sys.gettid t.world + t.session) % 2 ^ 32 ≡ m.pid =
        omega (arith, construct-pid sys s m made, construct-session sys s, later, lower) in
      construct_taken t settable (ap (takes (d.bound t.world)) same ∙ still)
