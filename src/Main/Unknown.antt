-- ===== src/Main/Unknown.antt =====
-- `main` for an interface that the host does not have.
use fnc.Prelude.{◌≡◌, refl, ap, ◌∙◌, ℤ, pos, false, List, [], ◌∷◌, map, Text, text_eq}
use fnc.ContainerUtil.{contains}
use fnc.Exceptions.{
  ok, throw, netex, catches, then_do, catch_network_exception, catch_std_exception,
}
use fnc.Logging.{Loggers}
use fnc.Netlink.Kernel.{State}
use fnc.Netiface.{Env, get_iface_names}
use fnc.Netiface.Class.{netiface}
use fnc.Netiface.Host.{Link, Host}
use fnc.Netiface.Host.Kernel.{Reporting}
use fnc.Netiface.Host.Reads.{get_iface_names-host}
use fnc.Main.{Parsed, parsed, handled, configure, run, main, start_logging}
use fnc.Exceptions.Laws.{>>=-throw, >>=-ok}

module _ {World Address : Type 0} (env : Env World Address) (k : Reporting env) where
  open env use {asio}

  refuses :
      (s : State World) (name : Text)
      → contains text_eq (map (λ (l : Link). l.name) (k.host s.world).links) name ≡ false
      → (s' : State World) × (configure (netiface env) asio name s
          ≡ (throw (netex "Specified interface does not exist name={}"), s'))
        × (k.host s'.world ≡ k.host s.world)
  unfolding configure
  refuses s name unknown =
      let (s1, names, _, kept1) = get_iface_names-host env k s in
      let (s2, _, construct, kept2) = get_iface_names-host env k s1 in
      let still : contains text_eq (map (λ (l : Link). l.name) (k.host s1.world).links) name
          ≡ false =
        ap (λ (h : Host Address). contains text_eq (map (λ (l : Link). l.name) h.links) name) kept1
        ∙ unknown in
      (
        s2,
        >>=-ok (get_iface_names env) _ _ s s1 _ names
            (>>=-throw ((netiface env).construct name) _ _ s1 s2 (construct name ∙ rw still refl)),
        kept2 ∙ kept1,
      )

  -- Where the kernel keeps its promises: `main` returns 0 for a name that no link of the host has, and
  -- changes nothing of the host; the network_exception of the constructor goes no further than its
  -- handler.
  pub main_unknown :
      (parse : List Text → Parsed) (args : List Text) (ls : Loggers) (iface_name : Text) (debug : ℤ)
      (s : State World)
      → parse args ≡ parsed iface_name debug
      → contains text_eq (map (λ (l : Link). l.name) (k.host s.world).links) iface_name ≡ false
      → (s' : State World) × (main (netiface env) asio parse args ls s
          ≡ (ok (pos 0), start_logging debug ls, s'))
        × (k.host s'.world ≡ k.host s.world)
  unfolding main run handled catches
  main_unknown parse args ls iface_name debug s named unknown =
      let (s', refused, kept) = refuses s iface_name unknown in
      (
        s',
        rw (named, main)
            (ap
              (λ p. (
                then_do (handled (catch_network_exception ∷ catch_std_exception ∷ []) p.0)
                    (λ _. ok (pos 0)),
                start_logging debug ls,
                p.1,
              ))
              refused),
        kept,
      )
