-- ===== src/Netlink/Kernel.antt =====
-- What netlink.cpp and netiface.cpp use of the Linux headers and the system calls, and the
-- structures of a request and of an answer.
--
-- A received datagram is the list of the messages that NLMSG_OK and NLMSG_NEXT find in it, and a
-- message has the list of the attributes that RTA_OK and RTA_NEXT find behind its header.
use fnc.Prelude.{ℕ, ◌+◌, ◌≤◌, ◌≡◌, ℤ, List}

pub record Headers : Type 0 where
  pub af_netlink : ℕ
  pub nlmsg_done : ℕ
  pub nlmsg_error : ℕ
  pub rtm_newlink : ℕ
  pub rtm_dellink : ℕ
  pub rtm_getlink : ℕ
  pub rtm_newaddr : ℕ
  pub rtm_deladdr : ℕ
  pub rtm_getaddr : ℕ
  -- `NLM_F_REQUEST | NLM_F_DUMP` and the other combinations of flags that the source uses.
  pub request_dump : ℕ
  pub request_match : ℕ
  pub request_ack : ℕ
  pub request_create_excl_ack : ℕ
  pub ifla_ifname : ℕ
  pub ifla_mtu : ℕ
  pub ifla_address : ℕ
  pub ifa_address : ℕ
  pub ifa_local : ℕ
  pub sizeof_ifinfomsg : ℕ
  pub sizeof_rtgenmsg : ℕ
  pub sizeof_ifaddrmsg : ℕ
  pub nlmsg_length : ℕ → ℕ
  pub nlmsg_align : ℕ → ℕ
  pub rta_length : ℕ → ℕ
  pub ewouldblock : ℕ
  pub eagain : ℕ
  -- A uint32_t in memory, in the byte order of the host.
  pub store_u32 : ℕ → List ℕ
  pub load_u32 : List ℕ → ℕ

-- What netlink(3) and rtnetlink(3) document of the macros and the structures.
pub record IsLayout (h : Headers) : Type 0 where
  pub length_eq : (n : ℕ) → h.nlmsg_length n ≡ n + 16
  pub align_bounds : (n : ℕ) → (n ≤ h.nlmsg_align n) × (h.nlmsg_align n ≤ n + 3)
  pub rta_eq : (n : ℕ) → h.rta_length n ≡ n + 4
  pub ifinfomsg_size : h.sizeof_ifinfomsg ≡ 16
  pub ifaddrmsg_size : h.sizeof_ifaddrmsg ≡ 8
  pub rtgenmsg_size : h.sizeof_rtgenmsg ≡ 1

pub record NlMsgHdr : Type 0 where
  pub nlmsg_len : ℕ
  pub nlmsg_type : ℕ
  pub nlmsg_flags : ℕ
  pub nlmsg_seq : ℕ
  pub nlmsg_pid : ℕ

-- The members that the source writes, and ifi_flags, which it leaves 0; the others stay 0 too.
pub record IfInfoMsg : Type 0 where
  pub ifi_index : ℤ
  pub ifi_flags : ℕ
  pub ifi_change : ℕ

pub record IfAddrMsg : Type 0 where
  pub ifa_family : ℕ
  pub ifa_prefixlen : ℕ
  pub ifa_scope : ℕ
  pub ifa_index : ℕ

-- An attribute that was written into the request, `offset` bytes from its start.
pub record RtAttr : Type 0 where
  pub offset : ℕ
  pub rta_type : ℕ
  pub rta_len : ℕ
  pub payload : List ℕ

-- in6_ifreq, which nothing uses.
pub record In6IfReq : Type 0 where
  pub addr : List ℕ
  pub prefixlen : ℕ
  pub ifindex : ℕ

-- The length of `attrbuf`, behind the union of an nl_req_t.
abbrev pub attrbuf_len : ℕ
attrbuf_len = 1024

-- sizeof(nl_req_t): a header, the largest member of the union, and attrbuf.
abbrev pub sizeof_nl_req : Headers → ℕ
sizeof_nl_req h = h.nlmsg_length h.sizeof_ifinfomsg + attrbuf_len

-- nl_req_t. The members of the union are kept apart; no request writes to two of them.
pub record NlReq : Type 0 where
  pub hdr : NlMsgHdr
  pub ifaddr : IfAddrMsg
  pub ifinfo : IfInfoMsg
  pub attrs : List RtAttr

-- nl_msg, with the `nl_family` of its `kernel_sa` and the `iov_len` of its `io`.
pub record NlMsg : Type 0 where
  pub req : NlReq
  pub nl_family : ℕ
  pub iov_len : ℕ

-- An attribute of an answer. The source never reads `rta_len`, so `rta_data` is the buffer from
-- RTA_DATA(attribute) on, whatever the attribute's own length is.
pub record Attribute : Type 0 where
  pub rta_type : ℕ
  pub rta_data : List ℕ

-- A message of an answer, with what the source reads behind NLMSG_DATA as an nlmsgerr, an ifinfomsg
-- and an ifaddrmsg.
pub record Reply : Type 0 where
  pub nlmsg_type : ℕ
  pub error : ℤ
  pub ifi_index : ℤ
  pub ifa_index : ℕ
  pub ifa_family : ℕ
  pub ifa_prefixlen : ℕ
  pub attributes : List Attribute

-- What recvmsg gives: a datagram, or -1 and an errno.
pub data Received : Type 0 where
  received : List Reply → Received
  failed : ℕ → Received

-- The system calls, over the state of all that lies outside the program. `send` is given the request
-- and the number of its bytes that are sent, `recvmsg` the length of the buffer.
pub record System (World : Type 0) : Type 0 where
  pub gettid : World → ℕ
  pub socket : World → ℤ × World
  pub set_rcvtimeo : ℤ → ℕ → World → ℤ × World
  pub bind : ℤ → ℕ → World → ℤ × World
  pub close : ℤ → World → World
  pub send : ℤ → NlReq → ℕ → World → ℤ × World
  pub recvmsg : ℤ → ℕ → World → Received × World
  pub now : World → ℕ
  pub sleep_for : ℕ → World → World

-- The program's one static variable, `netlink::session_`, and the rest of the world.
pub record State (World : Type 0) : Type 0 where
  pub session : ℕ
  pub world : World
