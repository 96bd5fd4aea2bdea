-- ===== src/Netlink/Threads/Simulated.antt =====
-- A kernel that keeps the list of the bound sockets, at which the properties of the port ids are tried.
use fnc.Prelude.{ℕ, suc, ◌≡◌, refl, ℤ, pos, negsuc, List, ◌∷◌, if◌then◌else◌, Bool}
use fnc.Netlink.Kernel.{System, failed}
use fnc.Netlink.Threads.{takes, without, Ports}

-- The thread that runs, the next descriptor, and the bound sockets.
pub record Sockets : Type 0 where
  pub thread : ℕ
  pub next : ℕ
  pub bound : List (ℤ × ℕ)

abbrev pub sys : System Sockets
sys = record {
  gettid = λ w. w.thread;
  socket = λ w. (pos w.next, record w { next = suc w.next });
  set_rcvtimeo = λ fd seconds w. (pos 0, w);
  bind = λ fd port w.
      if takes w.bound port
      then (negsuc 0, w)
      else (pos 0, record w { bound = (fd, port) ∷ w.bound });
  close = λ fd w. record w { bound = without fd w.bound };
  send = λ fd req len w. (pos len, w);
  recvmsg = λ fd len w. (failed 11, w);
  now = λ w. 0;
  sleep_for = λ d w. w;
}

bind_eq :
    (taken : Bool) (fd : ℤ) (port : ℕ) (w : Sockets)
    → takes w.bound port ≡ taken
    → sys.bind fd port w
      ≡ (if taken then (negsuc 0, w) else (pos 0, record w { bound = (fd, port) ∷ w.bound }))
bind_eq taken fd port w e = rw e refl

unfoldable pub ports : Ports sys
unfolding bind_eq
ports = record {
  bound = λ w. w.bound;
  socket_keeps = λ w. refl;
  set_rcvtimeo_keeps = λ fd n w. refl;
  bind_free = λ fd port w free. rw free (refl, refl);
  bind_taken = λ fd port w taken. rw taken (refl, refl);
  close_frees = λ fd w. refl;
}
