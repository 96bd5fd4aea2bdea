-- ===== src/Main/Handlers.antt =====
-- Which exceptions leave `main`.
use fnc.Prelude.{◌≡◌, ◌↔◌, ◌≢◌, arith, ◌∷◌, [], Text, codes}
use fnc.Exceptions.{
  Exception, Outcome, throw, catches, catch_permission_denied, catch_network_exception,
  catch_std_exception, permission_denied,
}
use fnc.IpAddress.{Asio}
use fnc.Netlink.Kernel.{State}
use fnc.Netiface.Class.{NetifaceClass}
use fnc.Main.{handled, set_literal, try_ipv6, configure, run}

outer :
    (r : Outcome (Unit {0})) (e : Exception)
    → (handled (catch_network_exception ∷ catch_std_exception ∷ []) r ≡ throw e)
      ↔ ((r ≡ throw e) × (e.kind ≡ permission_denied))
unfolding handled catches
outer r e = ground arith

inner :
    (r : Outcome (Unit {0})) (e : Exception)
    → handled (catch_permission_denied ∷ catch_std_exception ∷ []) r ≢ throw e
unfolding handled catches
inner r e = ground arith

module _ {World Address : Type 0} (class : NetifaceClass World Address) (asio : Asio Address) where
  -- An exception leaves the try block of `main` exactly if its body throws it and it is a
  -- permission_denied; the inner try block lets none through. So it is for every class of interfaces.
  pub run-permission_denied :
      (iface_name : Text) (s : State World) (e : Exception)
      → (((run class asio iface_name s).0 ≡ throw e)
          ↔ (((configure class asio iface_name s).0 ≡ throw e) × (e.kind ≡ permission_denied)))
        × ((try_ipv6 class asio iface_name s).0 ≢ throw e)
  unfolding run try_ipv6
  run-permission_denied iface_name s e = (
    outer (configure class asio iface_name s).0 e,
    inner (set_literal class asio iface_name (codes "2001:db8:8714:3a90::12") s).0 e,
  )
