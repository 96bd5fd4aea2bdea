-- ===== src/Netlink/Threads/OneThread.antt =====
-- The port ids of the sockets that one thread opens.
use fnc.Prelude.{
  ℕ, ◌+◌, ◌%◌, ◌^◌, ◌<◌, ◌≡◌, refl, sym, ap, subst, ◌∙◌, arith, ℤ, is_neg, int_eq, true, false,
  Bool-cases, inl, inr, ◌⊎◌, ◌≤◌, List, [], ◌∷◌, All,
}
use fnc.Exceptions.{ok}
use fnc.Netlink.{Netlink, construct, nl_socket_timeout}
use fnc.Netlink.Kernel.{System, State}
use fnc.Netlink.Pids.{construct-session}
use fnc.Netlink.Threads.{takes, without, Ports, Runs, begins, opens, closes, goes_on}

-- The port id of the j-th socket behind a counter of `from`.
abbrev port_of : ℕ → ℕ → ℕ → ℕ
port_of tid from j = (tid + from + j) % 2 ^ 32

-- A port id that was given out with one of the first `n` sockets.
abbrev IsGiven : ℕ → ℕ → ℕ → ℤ × ℕ → Type 0
IsGiven tid from n e = (j : ℕ) × (j < n) × (e.1 ≡ port_of tid from j)

IsGiven-later :
    (tid from n : ℕ) (es : List (ℤ × ℕ))
    → All (IsGiven tid from n) es
    → All (IsGiven tid from (n + 1)) es
IsGiven-later tid from n [] g = tt
IsGiven-later tid from n (e ∷ es) ((j, less, p), gs) =
    ((j, omega (arith, less), p), IsGiven-later tid from n es gs)

without-All : (P : ℤ × ℕ → Type 0) (fd : ℤ) (es : List (ℤ × ℕ)) → All P es → All P (without fd es)
without-All P fd [] g = tt
without-All P fd ((f, p) ∷ es) (g, gs) = elim (Bool-cases (int_eq f fd)) [
  | inl y ↦ rw y (without-All P fd es gs)
  | inr n ↦ rw n (g, without-All P fd es gs)
]

-- The next port id is none of them.
next_is_free :
    (tid from n : ℕ) (es : List (ℤ × ℕ))
    → All (IsGiven tid from n) es
    → n < 2 ^ 32
    → takes es (port_of tid from n) ≡ false
next_is_free tid from n [] g few = refl
next_is_free tid from n ((f, p) ∷ es) ((j, less, q), gs) few =
    ground (arith, q, less, few, next_is_free tid from n es gs few)

module _ {World : Type 0} (sys : System World) (d : Ports sys) where
  -- What holds of the counter and of the port ids after `n` calls of the constructor.
  abbrev pub Counted : ℕ → ℕ → ℕ → State World → Type 0
  Counted tid from n s =
      ((tid + s.session) % 2 ^ 32 ≡ (tid + from + n) % 2 ^ 32)
      × All (IsGiven tid from n) (d.bound s.world)

  -- The constructor, where the next port id is free.
  construct_free :
      (s : State World)
      → let (fd, w1) = sys.socket s.world in
        let port = (sys.gettid s.world + s.session) % 2 ^ 32 in
        takes (d.bound s.world) port ≡ false
        → ((is_neg (sys.set_rcvtimeo fd nl_socket_timeout w1).0 ≡ true)
            × (d.bound (construct sys s).1.world ≡ d.bound s.world))
          ⊎ ((is_neg (sys.set_rcvtimeo fd nl_socket_timeout w1).0 ≡ false)
              × ((construct sys s).0 ≡ ok (record { pid = port; nl_sock = fd; seq = 0 }))
              × (d.bound (construct sys s).1.world ≡ (fd, port) ∷ d.bound s.world))
  unfolding construct
  construct_free s free =
      let (fd, w1) = sys.socket s.world in
      let port = (sys.gettid s.world + s.session) % 2 ^ 32 in
      let (rc1, w2) = sys.set_rcvtimeo fd nl_socket_timeout w1 in
      let same : d.bound w2 ≡ d.bound s.world =
        d.set_rcvtimeo_keeps fd nl_socket_timeout w1 ∙ d.socket_keeps s.world in
      let (zero_rc, bound) = d.bind_free fd port w2 (ap (λ es. takes es port) same ∙ free) in
      elim (Bool-cases (is_neg rc1)) [
        | inl e ↦ inl (e, rw e same)
        | inr e ↦
            inr (e, rw (e, zero_rc) refl, rw (e, zero_rc) (bound ∙ ap (λ es. (fd, port) ∷ es) same))
      ]

  construct-Counted :
      (tid from n : ℕ) (s : State World)
      → sys.gettid s.world ≡ tid
      → n < 2 ^ 32
      → Counted tid from n s
      → Counted tid from (n + 1) (construct sys s).1
  construct-Counted tid from n s thread few (count, given) =
      let port_eq : (sys.gettid s.world + s.session) % 2 ^ 32 ≡ port_of tid from n =
        rw thread count in
      let free =
        ap (takes (d.bound s.world)) port_eq
        ∙ next_is_free tid from n (d.bound s.world) given few in
      let later = IsGiven-later tid from n (d.bound s.world) given in
      (
        omega (arith, construct-session sys s, count),
        elim (construct_free s free) [
          | inl (e, same) ↦ subst (All (IsGiven tid from (n + 1))) (sym same) later
          | inr (e, made, bound) ↦
              subst (All (IsGiven tid from (n + 1))) (sym bound) ((n, omega arith, port_eq), later)
        ],
      )

  Runs-Counted :
      {tid : ℕ} {start : State World} {n : ℕ} {s : State World}
      → Runs sys d tid start n s
      → d.bound start.world ≡ []
      → n ≤ 2 ^ 32
      → Counted tid start.session n s
  Runs-Counted {tid} {start} begins none few =
      (omega arith, subst (All (IsGiven tid start.session 0)) (sym none) tt)
  Runs-Counted {tid} {start} (opens {n} {s} r thread) none few =
      construct-Counted tid start.session n s thread (omega arith)
        (Runs-Counted r none (omega arith))
  Runs-Counted {tid} {start} {n} (closes {s = s} r nl) none few =
      let (count, given) = Runs-Counted r none few in
      (
        count,
        subst (All (IsGiven tid start.session n)) (sym (d.close_frees nl.nl_sock s.world))
            (without-All (IsGiven tid start.session n) nl.nl_sock (d.bound s.world) given),
      )
  Runs-Counted {tid} {start} {n} (goes_on {s = s} r w same) none few =
      let (count, given) = Runs-Counted r none few in
      (count, subst (All (IsGiven tid start.session n)) (sym same) given)

  -- In every state of a run in which one thread has called the constructor less than 2 ^ 32 times, and
  -- which began without a bound socket: the next call returns, with a port id that no open socket has,
  -- if the timeout can be set. So `bind` never refuses the port ids that one thread gives out.
  pub construct-Runs :
      (tid : ℕ) (start : State World) (n : ℕ) (s : State World)
      → d.bound start.world ≡ []
      → Runs sys d tid start n s
      → n < 2 ^ 32
      → sys.gettid s.world ≡ tid
      → is_neg (sys.set_rcvtimeo (sys.socket s.world).0 nl_socket_timeout (sys.socket s.world).1).0
        ≡ false
      → (nl : Netlink) × ((construct sys s).0 ≡ ok nl) × (takes (d.bound s.world) nl.pid ≡ false)
  construct-Runs tid start n s none r few thread settable =
      let (count, given) = Runs-Counted r none (omega (arith, few)) in
      let port_eq : (sys.gettid s.world + s.session) % 2 ^ 32 ≡ port_of tid start.session n =
        rw thread count in
      let free =
        ap (takes (d.bound s.world)) port_eq
        ∙ next_is_free tid start.session n (d.bound s.world) given few in
      elim (construct_free s free) [
        | inl (e, same) ↦ absurd (apart (sym settable ∙ e))
        | inr (e, made, bound) ↦ (_, made, free)
      ]
    where
      apart : false ≡ true → ⊥
      apart e = cc
