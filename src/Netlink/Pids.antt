-- ===== src/Netlink/Pids.antt =====
-- The port ids under which the sockets of a thread are bound.
use fnc.Prelude.{
  ℕ, ◌+◌, ◌%◌, ◌^◌, ◌<◌, ◌≡◌, ◌≢◌, refl, ap, sym, arith, pos, is_neg, int_eq, Bool-cases, inl, inr,
}
use fnc.Exceptions.{Exception, ok, throw}
use fnc.Netlink.Kernel.{System, State}
use fnc.Netlink.{Netlink, construct, nl_socket_timeout}

ok-injective : (a b : Netlink) → ok a ≡ ok b → a ≡ b
ok-injective a b h = cc

apart : (e : Exception) (a : Netlink) → throw e ≢ ok a
apart e a h = cc

module _ {World : Type 0} (sys : System World) where
  pub construct-pid :
      (s : State World) (nl : Netlink)
      → (construct sys s).0 ≡ ok nl
      → nl.pid ≡ (sys.gettid s.world + s.session) % 2 ^ 32
  unfolding construct
  construct-pid s nl h =
      let (fd, w1) = sys.socket s.world in
      let (rc1, w2) = sys.set_rcvtimeo fd nl_socket_timeout w1 in
      let (rc2, w3) = sys.bind fd ((sys.gettid s.world + s.session) % 2 ^ 32) w2 in
      elim (Bool-cases (is_neg rc1)) [
        | inl e ↦ absurd (apart _ nl (rw e at h))
        | inr e ↦ elim (Bool-cases (int_eq rc2 (pos 0))) [
          | inl f ↦ ap (λ (x : Netlink). x.pid) (sym (ok-injective _ nl (rw (e, f) at h)))
          | inr f ↦ absurd (apart _ nl (rw (e, f) at h))
        ]
      ]

  pub construct-session : (s : State World) → (construct sys s).1.session ≡ (s.session + 1) % 2 ^ 32
  unfolding construct
  construct-session s =
      let (fd, w1) = sys.socket s.world in
      let (rc1, w2) = sys.set_rcvtimeo fd nl_socket_timeout w1 in
      let (rc2, w3) = sys.bind fd ((sys.gettid s.world + s.session) % 2 ^ 32) w2 in
      elim (Bool-cases (is_neg rc1)) [
        | inl e ↦ rw e refl
        | inr e ↦ elim (Bool-cases (int_eq rc2 (pos 0))) [
          | inl f ↦ rw (e, f) refl
          | inr f ↦ rw (e, f) refl
        ]
      ]

  -- Two sockets that the constructor has opened in one thread, with `k` other openings counted between
  -- them, are bound under different port ids, if these are less than 2 ^ 32 - 1: the counter of sessions
  -- wraps around, and so does the sum of it and the thread's id.
  pub construct-pid-ne :
      (s t : State World) (k : ℕ) (m n : Netlink)
      → (construct sys s).0 ≡ ok m
      → (construct sys t).0 ≡ ok n
      → sys.gettid s.world ≡ sys.gettid t.world
      → t.session ≡ ((construct sys s).1.session + k) % 2 ^ 32
      → k + 1 < 2 ^ 32
      → m.pid ≢ n.pid
  construct-pid-ne s t k m n made_s made_t thread later few same = omega (
    arith,
    construct-pid s m made_s,
    construct-pid t n made_t,
    construct-session s,
    thread,
    later,
    same,
  )
