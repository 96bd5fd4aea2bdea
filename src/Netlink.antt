-- ===== src/Netlink.antt =====
-- netlink.cpp, netlink.hpp: a netlink socket, the requests that are sent on it and the loop that
-- handles the answers.
pub mod Kernel
pub mod Response
pub mod Sockets
pub mod Pids
pub mod Threads
pub mod Requests
pub mod Datagram
pub mod Class
pub mod Simulated
mod Tests
use fnc.Prelude.{
  ℕ, zero, suc, ◌+◌, ◌%◌, ◌^◌, ℤ, pos, negsuc, is_neg, int_eq, Bool, true, false, not, ◌||◌,
}
use fnc.Prelude.{Option, none, some, List, [], ◌∷◌, ◌==◌, if◌then◌else◌}
use fnc.Exceptions.{
  Exception, Outcome, ok, throw, stuck, netex, denied, then_do, M, ◌>>=◌, ◌>>◌, lift,
}
use Kernel.{
  Headers, System, State, Received, received, failed, Reply, NlReq, NlMsg, IfAddrMsg, IfInfoMsg,
}

-- NL_SOCKET_TIMEOUT, in seconds.
abbrev pub nl_socket_timeout : ℕ
nl_socket_timeout = 2

-- The members of a `netlink`.
pub record Netlink : Type 0 where
  pub pid : ℕ
  pub nl_sock : ℤ
  pub seq : ℕ

-- `std::function<void (struct nlmsghdr*)>` over the captured variables, which are of type `L`. It is
-- `none` for the default argument nullptr.
abbrev pub Callback : Type 0 → Type 0
Callback L = Option (Reply → L → Outcome L)

abbrev pub call : {L : Type 0} → Callback L → Reply → L → Outcome L
call none m l = ok l
call (some f) m l = f m l

-- How the walk over one datagram ends: at its end, with the flag `done`, or at an acknowledgement.
pub data Walked (L : Type 0) : Type 0 where
  walked acked : Bool → L → Walked L

-- BUFFER_LEN
abbrev pub buffer_len : ℕ
buffer_len = 16384

-- The exception for a message NLMSG_ERROR whose error is not 0; 13 is EACCES.
abbrev pub error_of : ℤ → Exception
error_of e = if int_eq e (negsuc 12) then denied "Permission Denied" else netex "netlink error {}"

abbrev pub blank_ifaddr : IfAddrMsg
blank_ifaddr = record { ifa_family = 0; ifa_prefixlen = 0; ifa_scope = 0; ifa_index = 0 }

abbrev pub blank_ifinfo : IfInfoMsg
blank_ifinfo = record { ifi_index = pos 0; ifi_flags = 0; ifi_change = 0 }

module _ (h : Headers) where
  -- The length that the switch of `init_message` gives, or `none` for its default case.
  initial_length : ℕ → Option ℕ
  initial_length t =
      if t == h.rtm_newlink || t == h.rtm_dellink
      then some (h.nlmsg_length h.sizeof_ifinfomsg)
      else if t == h.rtm_getlink
      then some (h.nlmsg_length h.sizeof_rtgenmsg)
      else if t == h.rtm_newaddr || (t == h.rtm_deladdr || t == h.rtm_getaddr)
      then some (h.nlmsg_length h.sizeof_ifaddrmsg)
      else none

  -- The message, and the object with its `seq_` counted up.
  unfoldable pub init_message : Netlink → ℕ → ℕ → Outcome NlMsg × Netlink
  unfolding initial_length
  init_message nl nlmsg_type nlmsg_flags =
      let seq = (nl.seq + 1) % 2 ^ 32 in
      (
        elim (initial_length nlmsg_type) [
          | none ↦ throw (netex "Unknown netlink message type={}")
          | some len ↦ ok (record {
            req = record {
              hdr = record {
                nlmsg_len = len;
                nlmsg_type = nlmsg_type;
                nlmsg_flags = nlmsg_flags;
                nlmsg_seq = seq;
                nlmsg_pid = nl.pid;
              };
              ifaddr = blank_ifaddr;
              ifinfo = blank_ifinfo;
              attrs = [];
            };
            nl_family = h.af_netlink;
            iov_len = len;
          })
        ],
        record nl { seq = seq },
      )

  abbrev pub receive_error : ℕ → Exception
  receive_error errno =
      if errno == h.ewouldblock || errno == h.eagain
      then netex "Timeout waiting to receive netlink message"
      else netex "Error receiving netlink message: {}"

  module _ {L : Type 0} (callback : Callback L) where
    -- The loop over the messages of one datagram.
    unfoldable pub walk : List Reply → Bool → L → Outcome (Walked L)
    walk [] done l = ok (walked done l)
    walk (m ∷ ms) done l =
        let after_done = walk ms true l in
        let after_call = then_do (call callback m l) (λ l'. walk ms done l') in
        if m.nlmsg_type == h.nlmsg_done
        then after_done
        else if m.nlmsg_type == h.nlmsg_error
        then (if int_eq m.error (pos 0) then ok (acked done l) else throw (error_of m.error))
        else after_call

module _ {World : Type 0} (sys : System World) where
  -- netlink::netlink. `session_` and `pid_` are ints, of which the bit patterns are kept.
  unfoldable pub construct : M (State World) Netlink
  construct s =
      let pid = (sys.gettid s.world + s.session) % 2 ^ 32 in
      let session = (s.session + 1) % 2 ^ 32 in
      let (nl_sock, w1) = sys.socket s.world in
      let (rc1, w2) = sys.set_rcvtimeo nl_sock nl_socket_timeout w1 in
      let (rc2, w3) = sys.bind nl_sock pid w2 in
      if is_neg rc1
      then (
        throw (netex "Failed to set timeout on netlink socket"),
        record { session = session; world = w2 },
      )
      else if not (int_eq rc2 (pos 0))
      then (
        throw (netex "Failed to bind netlink socket: {}"),
        record { session = session; world = w3 },
      )
      else (
        ok (record { pid = pid; nl_sock = nl_sock; seq = 0 }),
        record { session = session; world = w3 },
      )

  -- netlink::~netlink
  abbrev pub destroy : Netlink → State World → State World
  destroy nl s = record s { world = sys.close nl.nl_sock s.world }

  -- The scope of a local `netlink nl;`: its destructor runs however the rest of the scope ends, and
  -- does not run if the constructor throws. An exception that nothing catches is taken to unwind the
  -- stack like any other, which C++ leaves to the implementation.
  unfoldable pub with_netlink : {A : Type 0} → (Netlink → M (State World) A) → M (State World) A
  with_netlink body = construct >>= λ nl s. let (r, s') = body nl s in (r, destroy nl s')

  -- `send_message_async`
  unfoldable pub send_message_async : Netlink → NlMsg → M (State World) (Unit {0})
  send_message_async nl msg s =
      let (rc, w) = sys.send nl.nl_sock msg.req msg.req.hdr.nlmsg_len s.world in
      (
        if is_neg rc then throw (netex "Error sending netlink message: {}") else ok tt,
        record s { world = w },
      )

  module _ (h : Headers) {L : Type 0} (callback : Callback L) where
    -- After the walk over a datagram: an acknowledgement returns, and `done` ends the loop.
    settle : Outcome (Walked L) → (L → M (State World) L) → M (State World) L
    settle (ok (acked done l)) again s = (ok l, s)
    settle (ok (walked true l)) again s = (ok l, s)
    settle (ok (walked false l)) again s = again l s
    settle (throw e) again s = (throw e, s)
    settle stuck again s = (stuck, s)

    -- After `recvmsg`.
    handle_received : Received → L → (L → M (State World) L) → M (State World) L
    handle_received (failed errno) l again s = (throw (receive_error h errno), s)
    handle_received (received ms) l again s = settle (walk h callback ms false l) again s

    -- The loop of `handle_response_async`, with fuel for the datagrams, and the captured variables.
    unfoldable pub handle_response_async : ℕ → Netlink → L → M (State World) L
    unfolding settle handle_received
    handle_response_async zero nl l s = (stuck, s)
    handle_response_async (suc fuel) nl l s =
        let (r, w) = sys.recvmsg nl.nl_sock buffer_len s.world in
        handle_received r l (λ l' s'. handle_response_async fuel nl l' s') (record s { world = w })

    -- `send_message_sync`, with a callback or without one.
    unfoldable pub send_message_sync : ℕ → Netlink → NlMsg → L → M (State World) L
    send_message_sync fuel nl msg l = send_message_async nl msg >> handle_response_async fuel nl l
