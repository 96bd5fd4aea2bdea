-- ===== src/Netlink/Threads.antt =====
-- netlink.cpp: the counter `session_`, which all threads share, and the port ids that the sockets take
-- from it. The kernel gives a port id to one open socket at a time, as netlink(7) says of bind.
pub mod OneThread
pub mod TwoThreads
pub mod Simulated
mod Tests
use fnc.Prelude.{
  ℕ, ◌+◌, ◌≡◌, refl, ℤ, pos, int_eq, Bool, true, false, List, [], ◌∷◌, ◌==◌, any, if◌then◌else◌,
  ◌||◌,
}
use fnc.Netlink.{Netlink, construct, destroy}
use fnc.Netlink.Kernel.{System, State}

-- Some open socket has this port id.
abbrev pub takes : List (ℤ × ℕ) → ℕ → Bool
takes [] port = false
takes ((fd, p) ∷ rest) port = let later = takes rest port in p == port || later

-- Without a descriptor.
abbrev pub without : ℤ → List (ℤ × ℕ) → List (ℤ × ℕ)
without fd [] = []
without fd ((f, p) ∷ rest) =
    let later = without fd rest in if int_eq f fd then later else (f, p) ∷ later

module _ {World : Type 0} (sys : System World) where
  -- What the system calls do to the sockets that are open and bound, each with its port id.
  pub record Ports : Type 0 where
    pub bound : World → List (ℤ × ℕ)
    pub socket_keeps : (w : World) → bound (sys.socket w).1 ≡ bound w
    pub set_rcvtimeo_keeps :
        (fd : ℤ) (n : ℕ) (w : World) → bound (sys.set_rcvtimeo fd n w).1 ≡ bound w
    pub bind_free :
        (fd : ℤ) (port : ℕ) (w : World)
        → takes (bound w) port ≡ false
        → ((sys.bind fd port w).0 ≡ pos 0) × (bound (sys.bind fd port w).1 ≡ (fd, port) ∷ bound w)
    pub bind_taken :
        (fd : ℤ) (port : ℕ) (w : World)
        → takes (bound w) port ≡ true
        → (int_eq (sys.bind fd port w).0 (pos 0) ≡ false) × (bound (sys.bind fd port w).1 ≡ bound w)
    pub close_frees : (fd : ℤ) (w : World) → bound (sys.close fd w) ≡ without fd (bound w)

  -- What the program does, from `start` on, when one thread makes its sockets, counted by the calls of the
  -- constructor: the thread opens sockets, also in vain, sockets are closed, and all else goes on.
  pub data Runs (d : Ports) (tid : ℕ) (start : State World) : ℕ → State World → Type 0 where
    begins : Runs d tid start 0 start
    opens :
        {n : ℕ} {s : State World}
        → Runs d tid start n s
        → sys.gettid s.world ≡ tid
        → Runs d tid start (n + 1) (construct sys s).1
    closes :
        {n : ℕ} {s : State World}
        → Runs d tid start n s
        → (nl : Netlink) → Runs d tid start n (destroy sys nl s)
    goes_on :
        {n : ℕ} {s : State World}
        → Runs d tid start n s
        → (w : World) → d.bound w ≡ d.bound s.world
        → Runs d tid start n (record s { world = w })
