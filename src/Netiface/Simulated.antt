-- ===== src/Netiface/Simulated.antt =====
-- A host with two links, lo and eth0, as a scripted kernel reports them.
use fnc.Prelude.{ℕ, ◌+◌, ◌%◌, ◌^◌, refl, arith, pos, List, [], ◌∷◌, ◌++◌, Text, codes}
use fnc.Exceptions.{ok}
use fnc.IpAddress.{IpAddress, global}
use fnc.IpAddress.Simulated.{Ip, ip4, asio, inet}
use fnc.Netlink.Kernel.{State, Reply, Attribute, NlMsg}
use fnc.Netlink.{Netlink, construct, init_message, blank_ifaddr, blank_ifinfo}
use fnc.Netlink.Simulated.{Machine, sys, headers, start, control, link}
use fnc.Netiface.{Env, set_ifaddr}
use fnc.Netiface.Callbacks.{to_u32}
use fnc.Netiface.Answer.{Dumps}

abbrev pub env : Env Machine Ip
env = record {
  sys = sys;
  headers = headers;
  inet = inet;
  asio = asio;
  rounds = 8;
  tries = 20;
  junk = 32767;
}

abbrev pub name : Text
name = codes "eth0"

abbrev pub named : Text → Attribute
named text = record { rta_type = 3; rta_data = text ++ (0 ∷ []) }

-- The MTU is 1500 and the address 02:42:ac:11:00:0b.
abbrev pub lo : Reply
lo = link (pos 1) (named (codes "lo") ∷ [])

abbrev pub mtu_bytes : List ℕ
mtu_bytes = 0xdc ∷ 0x05 ∷ 0 ∷ 0 ∷ []

abbrev pub mac_bytes : List ℕ
mac_bytes = 0x02 ∷ 0x42 ∷ 0xac ∷ 0x11 ∷ 0x00 ∷ 0x0b ∷ 0 ∷ 0 ∷ []

abbrev pub eth : Reply
eth = link (pos 2) (
    record { rta_type = 1; rta_data = mac_bytes }
    ∷ named name
    ∷ record { rta_type = 4; rta_data = mtu_bytes }
    ∷ [])

abbrev pub done : Reply
done = control 3 (pos 0)

-- A dump of the links in two datagrams, before other datagrams.
abbrev pub dumped : List (List Reply) → List (List Reply)
dumped rest = (lo ∷ []) ∷ (eth ∷ done ∷ []) ∷ rest

abbrev pub links : List Reply
links = lo ∷ eth ∷ []

abbrev pub opened : ℕ → List (List Reply) → State Machine
opened n script = record { session = n; world = record { script = script; sockets = 1; time = 0 } }

abbrev pub socket_of : ℕ → Netlink
socket_of n = record { pid = (4242 + n) % 2 ^ 32; nl_sock = pos 3; seq = 0 }

abbrev pub request : ℕ → ℕ → ℕ → ℕ → NlMsg
request pid len nlmsg_type flags = record {
  req = record {
    hdr = record {
      nlmsg_len = len;
      nlmsg_type = nlmsg_type;
      nlmsg_flags = flags;
      nlmsg_seq = 1;
      nlmsg_pid = pid;
    };
    ifaddr = blank_ifaddr;
    ifinfo = blank_ifinfo;
    attrs = [];
  };
  nl_family = 16;
  iov_len = len;
}

abbrev pub links_Dumps :
    (n : ℕ) (rest : List (List Reply))
    → Dumps env (start n (dumped rest)) 18 769 ok links (start ((n + 1) % 2 ^ 32) rest)
unfolding construct init_message
links_Dumps n rest = record {
  nl = socket_of n;
  opened = opened ((n + 1) % 2 ^ 32) (dumped rest);
  opens = refl;
  msg = request ((4242 + n) % 2 ^ 32) 17 18 769;
  filled = refl;
  rc = 17;
  sent = (opened ((n + 1) % 2 ^ 32) (dumped rest)).world;
  sends = refl;
  front = (lo ∷ []) ∷ [];
  pre = eth ∷ [];
  done = done;
  post = [];
  between = record { script = (eth ∷ done ∷ []) ∷ rest; sockets = 1; time = 0 };
  after = record { script = rest; sockets = 1; time = 0 };
  fed = (record { script = (eth ∷ done ∷ []) ∷ rest; sockets = 1; time = 0 }, refl, refl);
  arrives = refl;
  front_data = (((refl, refl), tt), tt);
  pre_data = ((refl, refl), tt);
  post_data = tt;
  is_done = refl;
  content = refl;
  enough = omega arith;
  closes = refl;
}

-- 192.168.1.7/24 on eth0, as an address of the class and in the kernel's message.
abbrev pub office : IpAddress Ip
office = record { address = ip4 192 168 1 7; prefix = pos 24; scope = global }

abbrev pub assigned : ℕ → ℕ → List ℕ → Reply
assigned family prefixlen data_bytes = record {
  nlmsg_type = 20;
  error = pos 0;
  ifi_index = pos 0;
  ifa_index = 2;
  ifa_family = family;
  ifa_prefixlen = prefixlen;
  attributes = record { rta_type = 1; rta_data = data_bytes } ∷ [];
}

abbrev pub office_bytes : List ℕ
office_bytes = 192 ∷ 168 ∷ 1 ∷ 7 ∷ []

abbrev pub six_bytes : List ℕ
six_bytes = 0 ∷ 0 ∷ 0 ∷ 0 ∷ 0 ∷ 0 ∷ 0 ∷ 0 ∷ 0 ∷ 0 ∷ 0 ∷ 0 ∷ 0 ∷ 0 ∷ 3 ∷ 9 ∷ []

abbrev pub addresses : List Reply
addresses = assigned 2 24 office_bytes ∷ assigned 10 64 six_bytes ∷ []

abbrev pub address_request : ℕ → NlMsg
address_request pid = set_ifaddr (record blank_ifaddr { ifa_index = 2 }) (request pid 24 22 513)

abbrev pub addresses_Dumps :
    (n : ℕ) (rest : List (List Reply))
    → Dumps env
        (start n ((assigned 2 24 office_bytes ∷ assigned 10 64 six_bytes ∷ done ∷ []) ∷ rest))
        22
        513
        (λ msg. ok (set_ifaddr (record (msg.req.ifaddr) { ifa_index = to_u32 (pos 2) }) msg))
        addresses
        (start ((n + 1) % 2 ^ 32) rest)
unfolding construct init_message
addresses_Dumps n rest = record {
  nl = socket_of n;
  opened =
      opened ((n + 1) % 2 ^ 32)
        ((assigned 2 24 office_bytes ∷ assigned 10 64 six_bytes ∷ done ∷ []) ∷ rest);
  opens = refl;
  msg = address_request ((4242 + n) % 2 ^ 32);
  filled = refl;
  rc = 24;
  sent = record {
    script = (assigned 2 24 office_bytes ∷ assigned 10 64 six_bytes ∷ done ∷ []) ∷ rest;
    sockets = 1;
    time = 0;
  };
  sends = refl;
  front = [];
  pre = addresses;
  done = done;
  post = [];
  between = record {
    script = (assigned 2 24 office_bytes ∷ assigned 10 64 six_bytes ∷ done ∷ []) ∷ rest;
    sockets = 1;
    time = 0;
  };
  after = record { script = rest; sockets = 1; time = 0 };
  fed = refl;
  arrives = refl;
  front_data = tt;
  pre_data = ((refl, refl), ((refl, refl), tt));
  post_data = tt;
  is_done = refl;
  content = refl;
  enough = omega arith;
  closes = refl;
}
