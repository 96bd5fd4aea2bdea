-- ===== src/Netlink/Sockets/Simulated.antt =====
-- A kernel with a table of the descriptors that are open, beside what it does otherwise.
use fnc.Prelude.{
  arith, ℕ, suc, ◌+◌, ◌≤◌, ◌≡◌, refl, ℤ, pos, negsuc, is_neg, false, List, [], ◌∷◌, if◌then◌else◌,
  ◌==◌,
}
use fnc.Netlink.Kernel.{System}
use fnc.Netlink.Sockets.{Descriptors, is_open, removed}

pub record Tabled (World : Type 0) : Type 0 where
  pub fds : List ℤ
  pub below : World

-- A descriptor above all of these.
abbrev unused : List ℤ → ℕ
unused [] = 3
unused (pos n ∷ fds) = suc (n + unused fds)
unused (negsuc n ∷ fds) = unused fds

unused-is_open : (fds : List ℤ) (n : ℕ) → unused fds ≤ n → is_open (pos n) fds ≡ false
unused-is_open [] n h = refl
unused-is_open (pos m ∷ fds) n h =
    let other : (m == n) ≡ false = ground arith in rw other (unused-is_open fds n (omega arith))
unused-is_open (negsuc m ∷ fds) n h = unused-is_open fds n h

abbrev pub tabled : {World : Type 0} → System World → System (Tabled World)
tabled sys = record {
  gettid = λ w. sys.gettid w.below;
  socket = λ w. (
    pos (unused w.fds),
    record { fds = pos (unused w.fds) ∷ w.fds; below = (sys.socket w.below).1 },
  );
  set_rcvtimeo = λ fd seconds w.
      let (rc, below) = sys.set_rcvtimeo fd seconds w.below in (rc, record w { below = below });
  bind = λ fd pid w. let (rc, below) = sys.bind fd pid w.below in (rc, record w { below = below });
  close = λ fd w. record {
    fds = if is_neg fd then w.fds else removed fd w.fds;
    below = sys.close fd w.below;
  };
  send = λ fd req len w.
      let (rc, below) = sys.send fd req len w.below in (rc, record w { below = below });
  recvmsg =
      λ fd len w. let (r, below) = sys.recvmsg fd len w.below in (r, record w { below = below });
  now = λ w. sys.now w.below;
  sleep_for = λ d w. record w { below = sys.sleep_for d w.below };
}

unfoldable pub descriptors : {World : Type 0} (sys : System World) → Descriptors (tabled sys)
unfolding unused-is_open
descriptors sys = record {
  open_sockets = λ w. w.fds;
  socket_opens = λ w h. refl;
  socket_new = λ w h. unused-is_open w.fds (unused w.fds) (omega arith);
  socket_fails = λ w h. cc;
  set_rcvtimeo_keeps = λ fd n w. refl;
  bind_keeps = λ fd pid w. refl;
  send_keeps = λ fd req n w. refl;
  recvmsg_keeps = λ fd n w. refl;
  close_removes = λ fd w h. rw h refl;
  close_negative = λ fd w h. rw h refl;
  sleep_keeps = λ d w. refl;
}
