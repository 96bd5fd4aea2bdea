-- ===== src/Netiface/Host/Simulated.antt =====
-- A small kernel of links and addresses, at which the properties on a host are tried. It answers each
-- request with one datagram.
pub mod Removed
pub mod Answers
pub mod Promises
pub mod TwoLinks
use fnc.Prelude.{
  Bool, true, negsuc, ◌&&◌, ℕ, ◌<◌, ◌≡◌, refl, sym, ap, subst, ◌∙◌, arith, ℤ, pos, int_eq,
  int_eq_iff, leb, Bool, true, false, some, List, text_eq, [], ◌∷◌, ◌++◌, ◌==◌, All, map,
  if◌then◌else◌, append-nil, ◌%◌, ◌^◌,
}
use fnc.IpAddress.{Asio}
use fnc.IpAddress.Simulated.{Ip, ip4, ip6, asio, inet}
use fnc.Netlink.Kernel.{System, State, Reply, Attribute, NlReq, RtAttr, received}
use fnc.Netlink.Response.{IsData}
use fnc.Netlink.Simulated.{headers, control, link}
use fnc.Netiface.{Env}
use fnc.Netiface.Addresses.{Assigned, Reports, ReportsAll}
use fnc.Netiface.Callbacks.{c_string}
use fnc.Netiface.Host.{Link, Host, At, with_mtu, Describes, Answered, Acknowledged, HasAttribute}
use fnc.Netiface.Host.Kernel.{Reporting, Rtnetlink}
use fnc.Netiface.Host.Described.{map-append}

pub record Entry : Type 0 where
  pub index : ℕ
  pub prefixlen : ℕ
  pub ip : Ip

pub record Kernel : Type 0 where
  pub links : List Link
  pub entries : List Entry
  pub answer : List Reply

abbrev pub family : Ip → ℕ
family ip = if asio.is_v4 ip then 2 else 10

abbrev pub entry : Entry → Assigned × Ip
entry e = (record { index = e.index; family = family e.ip; prefixlen = e.prefixlen }, e.ip)

abbrev pub host : Kernel → Host Ip
host w = record { links = w.links; assigned = map entry w.entries }

abbrev pub describe : Link → Reply
describe l = link l.index (
    record { rta_type = 1; rta_data = l.hwaddr }
    ∷ record { rta_type = 3; rta_data = l.name ++ (0 ∷ []) }
    ∷ record { rta_type = 4; rta_data = headers.store_u32 l.mtu }
    ∷ [])

abbrev pub report : Entry → Reply
report e = record {
  nlmsg_type = 20;
  error = pos 0;
  ifi_index = pos 0;
  ifa_index = e.index;
  ifa_family = family e.ip;
  ifa_prefixlen = e.prefixlen;
  attributes = record { rta_type = 1; rta_data = asio.bytes e.ip } ∷ [];
}

abbrev pub decode : List ℕ → Ip
decode (a ∷ b ∷ c ∷ d ∷ []) = ip4 a b c d
decode (_ ∷ _ ∷ _ ∷ _ ∷ _ ∷ _ ∷ _ ∷ _ ∷ _ ∷ _ ∷ _ ∷ _ ∷ _ ∷ _ ∷ x ∷ y ∷ _) = ip6 x y
decode _ = ip4 0 0 0 0

abbrev pub first_payload : List RtAttr → List ℕ
first_payload [] = []
first_payload (a ∷ _) = a.payload

abbrev pub changed : ℤ → ℕ → Link → Link
changed index mtu l = if int_eq l.index index then record l { mtu = mtu; up = false } else l

abbrev pub acknowledgement : List Reply
acknowledgement = control 2 (pos 0) ∷ []

abbrev pub removed_from : ℕ → Ip → List Entry → List Entry
removed_from index ip [] = []
removed_from index ip (e ∷ es) =
    let rest = removed_from index ip es in
    if e.index == index && asio.equal e.ip ip then rest else e ∷ rest

-- What a request for a change does, by its type.
abbrev pub change : ℕ → NlReq → Kernel → Kernel
change nlmsg_type req w =
    if nlmsg_type == 16
    then record w {
      links =
          map (changed req.ifinfo.ifi_index (headers.load_u32 (first_payload req.attrs))) w.links;
      answer = acknowledgement;
    }
    else if nlmsg_type == 20
    then record w {
      entries =
          w.entries
          ++ (record {
            index = req.ifaddr.ifa_index;
            prefixlen = req.ifaddr.ifa_prefixlen;
            ip = decode (first_payload req.attrs);
          }
              ∷ []);
      answer = acknowledgement;
    }
    else if nlmsg_type == 21
    then record w {
      entries = removed_from req.ifaddr.ifa_index (decode (first_payload req.attrs)) w.entries;
      answer = acknowledgement;
    }
    else w

-- What a request does: the kernel reports to everybody, and refuses a change to a user who may not make it.
abbrev pub perform : Bool → ℕ → NlReq → Kernel → Kernel
perform may nlmsg_type req w =
    if nlmsg_type == 18
    then record w { answer = map describe w.links ++ (control 3 (pos 0) ∷ []) }
    else if nlmsg_type == 22
    then record w { answer = map report w.entries ++ (control 3 (pos 0) ∷ []) }
    else if may
    then change nlmsg_type req w
    else record w { answer = control 2 (negsuc 12) ∷ [] }

abbrev pub sys : Bool → System Kernel
sys may = record {
  gettid = λ w. 4242;
  socket = λ w. (pos 3, w);
  set_rcvtimeo = λ fd seconds w. (pos 0, w);
  bind = λ fd pid w. (pos 0, w);
  close = λ fd w. w;
  send = λ fd req len w. (pos len, perform may req.hdr.nlmsg_type req w);
  recvmsg = λ fd len w. (received w.answer, record w { answer = [] });
  now = λ w. 0;
  sleep_for = λ d w. w;
}

abbrev pub env_of : Bool → Env Kernel Ip
env_of may = record {
  sys = sys may;
  headers = headers;
  inet = inet;
  asio = asio;
  rounds = 8;
  tries = 20;
  junk = 32767;
}

abbrev pub env : Env Kernel Ip
env = env_of true
