-- ===== src/Main.antt =====
-- main.cpp: the command line's options, what the program does to the interface that it is given, and
-- its handlers. What it prints is left out.
pub mod Handlers
pub mod Options
pub mod Steps
pub mod Begins
pub mod Grown
pub mod Changes
pub mod Whole
pub mod Again
pub mod Unknown
pub mod Denied
pub mod Sockets
mod Tests
use fnc.Prelude.{ℕ, ◌-◌, ℤ, pos, negsuc, Bool, List, [], ◌∷◌, any, Text, codes, ltb, if◌then◌else◌}
use fnc.Exceptions.{
  Outcome, ok, throw, stuck, Handler, catches, catch_permission_denied, catch_network_exception,
  catch_std_exception, then_do, M, lift, ◌>>=◌, ◌>>◌,
}
use fnc.IpAddress
use fnc.IpAddress.{Asio}
use fnc.Logging.{Loggers, enable_debug_logging, enable_trace_logging}
use fnc.Netlink.Kernel.{State}
use fnc.Netiface.Callbacks.{family_v4, family_v6, family_all, is_positive}
use fnc.Netiface.Class.{NetifaceClass}

-- CLI11's `parse` of the two options: the code that CLI11_PARSE returns, on an error and on --help, or
-- the name of the interface and how often -d is there.
pub data Parsed : Type 0 where
  exits : ℤ → Parsed
  parsed : Text → ℤ → Parsed

-- `debug > n`
abbrev pub exceeds : ℤ → ℕ → Bool
exceeds (pos d) n = ltb n d
exceeds (negsuc d) n = Bool.false

-- What the flag -d does to the loggers.
unfoldable pub start_logging : ℤ → Loggers → Loggers
start_logging debug ls =
    let ls1 = if exceeds debug 0 then enable_debug_logging ls else ls in
    if exceeds debug 1 then enable_trace_logging ls1 else ls1

-- A try block with these handlers, which only print: an exception that none of them takes goes on.
unfoldable pub handled : List Handler → Outcome (Unit {0}) → Outcome (Unit {0})
handled handlers (ok a) = ok a
handled handlers stuck = stuck
handled handlers (throw e) = if any (λ h. catches h e.kind) handlers then ok tt else throw e

module _ {World Address : Type 0} (class : NetifaceClass World Address) (asio : Asio Address) where
  -- The calls with a literal address, which the implicit constructor reads.
  abbrev pub del_literal : Text → Text → M (State World) (Unit {0})
  del_literal nic literal = lift (IpAddress.from_string asio literal (negsuc 0)) >>= λ address.
      class.del_ip_address nic address

  abbrev pub set_literal : Text → Text → M (State World) (Unit {0})
  set_literal nic literal = lift (IpAddress.from_string asio literal (negsuc 0)) >>= λ address.
      class.set_ip_address nic address

  -- The inner try block.
  unfoldable pub try_ipv6 : Text → M (State World) (Unit {0})
  unfolding handled
  try_ipv6 nic s =
      let (r, s') = set_literal nic (codes "2001:db8:8714:3a90::12") s in
      (handled (catch_permission_denied ∷ catch_std_exception ∷ []) r, s')

  -- The body of the outer try block. get_name is called for what is printed only.
  unfoldable pub configure : Text → M (State World) (Unit {0})
  configure iface_name =
      class.get_iface_names
      >> (class.construct iface_name >>= λ nic.
          class.get_index nic
          >> (del_literal nic (codes "2.2.2.2")
              >> (class.get_ip_addresses nic family_all
                  >> (class.get_ip_addresses nic family_v4
                      >> (class.get_ip_addresses nic family_v6
                          >> (class.set_mtu nic 1500
                              >> (set_literal nic (codes "1.1.1.1")
                                  >> (class.get_mtu nic
                                      >> (class.get_mac_address nic
                                          >> (class.set_mtu nic 8000
                                              >> (class.get_mtu nic
                                                  >> (set_literal nic (codes "2.2.2.2")
                                                      >> try_ipv6 nic))))))))))))

  -- The try block of `main` with its handlers; a throw leaves it, which terminates the program.
  unfoldable pub run : Text → M (State World) (Unit {0})
  unfolding handled
  run iface_name s =
      let (r, s') = configure iface_name s in
      (handled (catch_network_exception ∷ catch_std_exception ∷ []) r, s')

  -- `main`, for CLI11's parser: its exit code, and the loggers as the options have set them.
  unfoldable pub main :
      (List Text → Parsed) → List Text → Loggers → State World → Outcome ℤ × Loggers × State World
  main parse args ls s = elim (parse args) [
    | exits code ↦ (ok code, ls, s)
    | parsed iface_name debug ↦
        let (r, s') = run iface_name s in (then_do r (λ _. ok (pos 0)), start_logging debug ls, s')
  ]
