-- ===== src/Netlink/Simulated.antt =====
-- A small kernel, at which the properties of an exchange are tried: it gives out the datagrams of a
-- script, counts the open sockets, and has a clock that only a sleep moves.
use fnc.Prelude.{
  is_neg, if◌then◌else◌, ℕ, suc, ◌+◌, ◌-◌, ◌*◌, ◌/◌, ◌%◌, ◌<◌, ◌≡◌, refl, ap, subst, arith, ℤ, pos,
  List, [], ◌∷◌, length,
}
use fnc.Netlink.Kernel.{Headers, System, State, Received, received, failed, Reply, Attribute}
use fnc.Netlink.Response.Endings.{Drains}

pub record Machine : Type 0 where
  pub script : List (List Reply)
  pub sockets : ℕ
  pub time : ℕ

abbrev pub receive : List (List Reply) → Machine → Received × Machine
receive [] w = (failed 11, w)
receive (d ∷ rest) w = (received d, record w { script = rest })

abbrev pub sys : System Machine
sys = record {
  gettid = λ w. 4242;
  socket = λ w. (pos 3, record w { sockets = suc w.sockets });
  set_rcvtimeo = λ fd seconds w. (pos 0, w);
  bind = λ fd pid w. (pos 0, w);
  close = λ fd w. if is_neg fd then w else record w { sockets = w.sockets - 1 };
  send = λ fd req len w. (pos len, w);
  recvmsg = λ fd len w. receive w.script w;
  now = λ w. w.time;
  sleep_for = λ d w. record w { time = w.time + d };
}

abbrev first_u32 : List ℕ → ℕ
first_u32 (a ∷ b ∷ c ∷ d ∷ _) = a + 256 * (b + 256 * (c + 256 * d))
first_u32 _ = 0

abbrev pub headers : Headers
headers = record {
  af_netlink = 16;
  nlmsg_done = 3;
  nlmsg_error = 2;
  rtm_newlink = 16;
  rtm_dellink = 17;
  rtm_getlink = 18;
  rtm_newaddr = 20;
  rtm_deladdr = 21;
  rtm_getaddr = 22;
  request_dump = 769;
  request_match = 513;
  request_ack = 5;
  request_create_excl_ack = 1541;
  ifla_ifname = 3;
  ifla_mtu = 4;
  ifla_address = 1;
  ifa_address = 1;
  ifa_local = 2;
  sizeof_ifinfomsg = 16;
  sizeof_rtgenmsg = 1;
  sizeof_ifaddrmsg = 8;
  nlmsg_length = λ n. n + 16;
  nlmsg_align = λ n. (n + 3) / 4 * 4;
  rta_length = λ n. n + 4;
  ewouldblock = 11;
  eagain = 11;
  store_u32 = λ n. n % 256 ∷ n / 256 % 256 ∷ n / 65536 % 256 ∷ n / 16777216 % 256 ∷ [];
  load_u32 = first_u32;
}

-- The n-th session, before the datagrams of a script.
abbrev pub start : ℕ → List (List Reply) → State Machine
start n script = record { session = n; world = record { script = script; sockets = 0; time = 0 } }

-- A message that ends an answer, and one that reports a link.
abbrev pub control : ℕ → ℤ → Reply
control nlmsg_type error = record {
  nlmsg_type = nlmsg_type;
  error = error;
  ifi_index = pos 0;
  ifa_index = 0;
  ifa_family = 0;
  ifa_prefixlen = 0;
  attributes = [];
}

abbrev pub link : ℤ → List Attribute → Reply
link index attributes = record {
  nlmsg_type = 16;
  error = pos 0;
  ifi_index = index;
  ifa_index = 0;
  ifa_family = 0;
  ifa_prefixlen = 0;
  attributes = attributes;
}

receive-queued :
    (script : List (List Reply)) (w w' : Machine) (d : List Reply)
    → w.script ≡ script
    → receive script w ≡ (received d, w')
    → length w'.script < length script
receive-queued [] w w' d e h = cc
receive-queued (x ∷ rest) w w' d e h =
    let left : rest ≡ w'.script = ap (λ (r : Received × Machine). r.1.script) h in
    subst (λ t. length t < suc (length rest)) left (omega arith)

unfoldable pub drains : Drains sys
unfolding receive-queued
drains = record {
  queued = λ fd w. length w.script;
  takes = λ fd w w' d h. receive-queued w.script w w' d refl h;
}
