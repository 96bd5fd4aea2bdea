-- ===== src/Netiface/Sessions.antt =====
-- The open sockets before and after an operation.
pub mod Tidy
mod Tests
use fnc.Prelude.{ℕ, ◌≡◌, refl, ℤ, is_neg, false, List, ◌∷◌}
use fnc.Exceptions.{Exception, Outcome, ok, throw, stuck, then_do, M, continue}
use fnc.Netlink.Kernel.{Headers, State, NlMsg}
use fnc.Netlink.{Netlink, Callback, construct, init_message, send_message_sync}
use fnc.Netlink.Sockets.{
  Descriptors, Keeps, send_message_sync-Keeps, with_netlink-closes, with_netlink-leaks,
}
use fnc.Netiface.{Env, exchange}

module _ {World Address : Type 0} (env : Env World Address) (d : Descriptors env.sys) where
  open env use {sys, headers, rounds}

  continue-Keeps :
      {L : Type 0} (made : Outcome NlMsg) (go : NlMsg → M (State World) L)
      → ((msg : NlMsg) → Keeps sys d (go msg))
      → Keeps sys d (continue made go)
  continue-Keeps (ok msg) go k s = k msg s
  continue-Keeps (throw e) go k s = refl
  continue-Keeps stuck go k s = refl

  module _ {L : Type 0} (ty flags : ℕ) (fill : NlMsg → Outcome NlMsg) (callback : Callback L)
      (l : L) where
    pub body-Keeps :
        (nl : Netlink)
        → Keeps sys d (λ s.
          let (made, nl') = init_message headers nl ty flags in
          continue
            (then_do made fill)
            (λ msg. send_message_sync sys headers callback rounds nl' msg l)
            s)
    body-Keeps nl = continue-Keeps (then_do (init_message headers nl ty flags).0 fill) _ (λ msg.
        send_message_sync-Keeps sys d headers callback rounds (init_message headers nl ty flags).1
          msg l)

    -- If the constructor of its `netlink` has got a socket and returns, an exchange leaves the
    -- open sockets as they were, on every outcome: an answer, an error, a timeout, or no end of
    -- answers.
    pub exchange-closes :
        (s : State World) (nl : Netlink)
        → is_neg (sys.socket s.world).0 ≡ false
        → (construct sys s).0 ≡ ok nl
        → d.open_sockets (exchange env ty flags fill callback l s).1.world ≡ d.open_sockets s.world
    unfolding exchange
    exchange-closes s nl h made = with_netlink-closes sys d _ s nl body-Keeps h made

    -- If the constructor of its `netlink` has got a socket and throws, that socket stays open
    -- behind the exchange.
    pub exchange-leaks :
        (s : State World) (e : Exception)
        → is_neg (sys.socket s.world).0 ≡ false
        → (construct sys s).0 ≡ throw e
        → d.open_sockets (exchange env ty flags fill callback l s).1.world
          ≡ (sys.socket s.world).0 ∷ d.open_sockets s.world
    unfolding exchange
    exchange-leaks s e h made = with_netlink-leaks sys d _ s e h made
