-- ===== src/Main/Denied.antt =====
-- `main` on a host whose kernel refuses every change, as for a user without the right to it.
use fnc.Prelude.{
  ◌≡◌, refl, ap, ◌∙◌, ℤ, pos, negsuc, int_eq, false, Bool-cases, inl, inr, List, [], ◌∷◌, Text,
  codes, if◌then◌else◌,
}
use fnc.Exceptions.{
  ok, throw, denied, catches, then_do, catch_network_exception, catch_std_exception,
}
use fnc.IpAddress.Build.{IsAsio}
use fnc.Logging.{Loggers}
use fnc.Netlink.{error_of}
use fnc.Netlink.Kernel.{State}
use fnc.Netiface.{Env}
use fnc.Netiface.Callbacks.{to_u32}
use fnc.Netiface.Change.{set_mtu}
use fnc.Netiface.Class.{netiface}
use fnc.Netiface.Host.{Link, At, has}
use fnc.Netiface.Host.Kernel.{Refusing}
use fnc.Netiface.Host.Denied.{set_mtu_refused}
use fnc.Main.{Parsed, parsed, handled, run, main, start_logging}
use fnc.Main.Begins.{first_calls}
use fnc.Exceptions.Laws.{>>=-throw}
use fnc.Main.Steps.{carried, Reads}

-- What `main` makes of an error of the kernel.
handled_error :
    (error : ℤ)
    → then_do
        (handled (catch_network_exception ∷ catch_std_exception ∷ []) (throw (error_of error)))
        (λ _. ok (pos 0))
      ≡ (if int_eq error (negsuc 12) then throw (denied "Permission Denied") else ok (pos 0))
unfolding handled catches
handled_error error = elim (Bool-cases (int_eq error (negsuc 12))) [
  | inl e ↦ rw e refl
  | inr e ↦ rw e refl
]

module _ {World Address : Type 0} (env : Env World Address) (error : ℤ) (k : Refusing env error)
    (law : IsAsio env.asio) where
  open env use {asio}

  -- Where the kernel reports its host and refuses every change with the same error, and boost reads
  -- 2.2.2.2 as an IPv4 address, for an interface of the host on which that address is not: with EACCES the program ends with a permission_denied that `main` lets out, and with any other
  -- error `main` returns 0. The host is as before.
  pub main-denied :
      (parse : List Text → Parsed) (args : List Text) (ls : Loggers) (debug : ℤ) (s : State World)
      (l : Link) (two : Address)
      → parse args ≡ parsed l.name debug
      → At l (k.host s.world).links
      → Reads env k.reporting (codes "2.2.2.2") two 32
      → has asio (k.host s.world).assigned (to_u32 l.index) two ≡ false
      → (s' : State World) × (main (netiface env) asio parse args ls s ≡ (
        (if int_eq error (negsuc 12) then throw (denied "Permission Denied") else ok (pos 0)),
        start_logging debug ls,
        s',
      ))
        × (k.host s'.world ≡ k.host s.world)
  unfolding main run
  main-denied parse args ls debug s l two named at read absent =
      let (s1, reads, kept1) = first_calls env k.reporting law s l two at read absent in
      let (s2, refused, kept2) =
        set_mtu_refused env error k s1 l 1500
          (carried env k.reporting l (k.host s.world) (k.host s1.world) kept1 at) in
      (
        s2,
        rw (named, main)
            (ap
                (λ p. (
                  then_do (handled (catch_network_exception ∷ catch_std_exception ∷ []) p.0)
                      (λ _. ok (pos 0)),
                  start_logging debug ls,
                  p.1,
                ))
                (reads ∙ >>=-throw (set_mtu env l.name 1500) _ (error_of error) s1 s2 refused)
              ∙ ap (λ r. (r, start_logging debug ls, s2)) (handled_error error)),
        kept2 ∙ kept1,
      )
