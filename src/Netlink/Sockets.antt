-- ===== src/Netlink/Sockets.antt =====
-- The open sockets: a session closes the one that it has opened, however it ends, but not if its
-- constructor throws.
pub mod Tidy
pub mod Simulated
use fnc.Prelude.{
  arith, int_eq_iff, Bool, ◌||◌, if◌then◌else◌, [], ℕ, zero, suc, ◌+◌, ◌%◌, ◌^◌, ◌≡◌, ◌≢◌, refl,
  sym, ap, ◌∙◌, ℤ, pos, is_neg, int_eq, true, false, Bool-cases, inl, inr, List, ◌∷◌,
}
use fnc.Exceptions.{Exception, Outcome, ok, throw, stuck, M, continue, ◌>>=◌}
use fnc.Netlink.Kernel.{Headers, System, State, NlReq, NlMsg, Received, received, failed}
use fnc.Netlink.{
  Netlink, Callback, Walked, walked, acked, walk, construct, with_netlink, settle, handle_received,
  send_message_async, handle_response_async, send_message_sync, buffer_len, nl_socket_timeout,
}

ok-injective : (a b : Netlink) → ok a ≡ ok b → a ≡ b
ok-injective a b h = cc

apart : (e : Exception) (a : Netlink) → throw e ≢ ok a
apart e a h = cc

abbrev pub is_open : ℤ → List ℤ → Bool
is_open fd [] = false
is_open fd (x ∷ xs) = int_eq x fd || is_open fd xs

abbrev pub removed : ℤ → List ℤ → List ℤ
removed fd [] = []
removed fd (x ∷ xs) = let rest = removed fd xs in if int_eq x fd then rest else x ∷ rest

pub removed_none : (fd : ℤ) (xs : List ℤ) → is_open fd xs ≡ false → removed fd xs ≡ xs
removed_none fd [] h = refl
removed_none fd (x ∷ xs) h =
    let other : int_eq x fd ≡ false = ground arith in
    let rest : is_open fd xs ≡ false = ground arith in
    rw other (ap (λ t. x ∷ t) (removed_none fd xs rest))

pub removed_head : (fd : ℤ) (xs : List ℤ) → is_open fd xs ≡ false → removed fd (fd ∷ xs) ≡ xs
removed_head fd xs h = rw ((int_eq_iff fd fd).1 refl) (removed_none fd xs h)

module _ {World : Type 0} (sys : System World) where
  -- What the system calls document of the open sockets, the last one first: a socket that is not
  -- negative is a new one, whose descriptor no open socket has, and closing a descriptor takes it away.
  -- Closing -1 does nothing.
  pub record Descriptors : Type 0 where
    pub open_sockets : World → List ℤ
    pub socket_opens :
        (w : World)
        → is_neg (sys.socket w).0 ≡ false
        → open_sockets (sys.socket w).1 ≡ (sys.socket w).0 ∷ open_sockets w
    pub socket_new :
        (w : World)
        → is_neg (sys.socket w).0 ≡ false
        → is_open (sys.socket w).0 (open_sockets w) ≡ false
    pub socket_fails :
        (w : World)
        → is_neg (sys.socket w).0 ≡ true
        → open_sockets (sys.socket w).1 ≡ open_sockets w
    pub set_rcvtimeo_keeps :
        (fd : ℤ) (n : ℕ) (w : World) → open_sockets (sys.set_rcvtimeo fd n w).1 ≡ open_sockets w
    pub bind_keeps :
        (fd : ℤ) (pid : ℕ) (w : World) → open_sockets (sys.bind fd pid w).1 ≡ open_sockets w
    pub send_keeps :
        (fd : ℤ) (req : NlReq) (n : ℕ) (w : World)
        → open_sockets (sys.send fd req n w).1 ≡ open_sockets w
    pub recvmsg_keeps :
        (fd : ℤ) (n : ℕ) (w : World) → open_sockets (sys.recvmsg fd n w).1 ≡ open_sockets w
    pub close_removes :
        (fd : ℤ) (w : World)
        → is_neg fd ≡ false
        → open_sockets (sys.close fd w) ≡ removed fd (open_sockets w)
    pub close_negative :
        (fd : ℤ) (w : World) → is_neg fd ≡ true → open_sockets (sys.close fd w) ≡ open_sockets w
    pub sleep_keeps : (n : ℕ) (w : World) → open_sockets (sys.sleep_for n w) ≡ open_sockets w

  module _ (d : Descriptors) where
    -- A computation that leaves the open sockets as they are, on every outcome.
    abbrev pub Keeps : {A : Type 0} → M (State World) A → Type 0
    Keeps m = (s : State World) → d.open_sockets (m s).1.world ≡ d.open_sockets s.world

    pub >>=-Keeps :
        {A B : Type 0} (m : M (State World) A) (f : A → M (State World) B)
        → Keeps m
        → ((a : A) → Keeps (f a))
        → Keeps (m >>= f)
    >>=-Keeps {A} {B} m f km kf s = go (m s).0 (m s).1 ∙ km s
      where
        go :
            (r : Outcome A) (t : State World)
            → d.open_sockets (continue r f t).1.world ≡ d.open_sockets t.world
        go (ok a) t = kf a t
        go (throw e) t = refl
        go stuck t = refl

    pub send_message_async-Keeps :
        (nl : Netlink) (msg : NlMsg) → Keeps (send_message_async sys nl msg)
    unfolding send_message_async
    send_message_async-Keeps nl msg s =
        d.send_keeps nl.nl_sock msg.req msg.req.hdr.nlmsg_len s.world

    module _ (h : Headers) {L : Type 0} (callback : Callback L) where
      settle-Keeps :
          (r : Outcome (Walked L)) (again : L → M (State World) L)
          → ((l : L) → Keeps (again l))
          → Keeps (settle sys h callback r again)
      unfolding settle
      settle-Keeps (ok (acked done l)) again k s = refl
      settle-Keeps (ok (walked true l)) again k s = refl
      settle-Keeps (ok (walked false l)) again k s = k l s
      settle-Keeps (throw e) again k s = refl
      settle-Keeps stuck again k s = refl

      handle_received-Keeps :
          (r : Received) (l : L) (again : L → M (State World) L)
          → ((l : L) → Keeps (again l))
          → Keeps (handle_received sys h callback r l again)
      unfolding handle_received
      handle_received-Keeps (failed errno) l again k s = refl
      handle_received-Keeps (received ms) l again k s =
          settle-Keeps (walk h callback ms false l) again k s

      pub handle_response_async-Keeps :
          (fuel : ℕ) (nl : Netlink) (l : L) → Keeps (handle_response_async sys h callback fuel nl l)
      unfolding handle_response_async
      handle_response_async-Keeps zero nl l s = refl
      handle_response_async-Keeps (suc fuel) nl l s =
          handle_received-Keeps (sys.recvmsg nl.nl_sock buffer_len s.world).0 l _
            (λ l'. handle_response_async-Keeps fuel nl l')
            (record s { world = (sys.recvmsg nl.nl_sock buffer_len s.world).1 })
          ∙ d.recvmsg_keeps nl.nl_sock buffer_len s.world

      pub send_message_sync-Keeps :
          (fuel : ℕ) (nl : Netlink) (msg : NlMsg) (l : L)
          → Keeps (send_message_sync sys h callback fuel nl msg l)
      unfolding send_message_sync
      send_message_sync-Keeps fuel nl msg l =
          >>=-Keeps (send_message_async sys nl msg) _ (send_message_async-Keeps nl msg)
            (λ _. handle_response_async-Keeps fuel nl l)

    -- Behind `socket`, the constructor opens and closes nothing, whether it returns or throws.
    pub construct-socket :
        (s : State World)
        → d.open_sockets (construct sys s).1.world ≡ d.open_sockets (sys.socket s.world).1
    unfolding construct
    construct-socket s =
        let (fd, w1) = sys.socket s.world in
        let (rc1, w2) = sys.set_rcvtimeo fd nl_socket_timeout w1 in
        let (rc2, w3) = sys.bind fd ((sys.gettid s.world + s.session) % 2 ^ 32) w2 in
        let opened = d.set_rcvtimeo_keeps fd nl_socket_timeout w1 in
        let bound = d.bind_keeps fd ((sys.gettid s.world + s.session) % 2 ^ 32) w2 ∙ opened in
        elim (Bool-cases (is_neg rc1)) [
          | inl e ↦ rw e opened
          | inr e ↦ elim (Bool-cases (int_eq rc2 (pos 0))) [
            | inl f ↦ rw (e, f) bound
            | inr f ↦ rw (e, f) bound
          ]
        ]

    construct-open :
        (s : State World)
        → is_neg (sys.socket s.world).0 ≡ false
        → d.open_sockets (construct sys s).1.world ≡ (sys.socket s.world).0 ∷ d.open_sockets s.world
    construct-open s h = construct-socket s ∙ d.socket_opens s.world h

    pub construct-nl_sock :
        (s : State World) (nl : Netlink)
        → (construct sys s).0 ≡ ok nl
        → nl.nl_sock ≡ (sys.socket s.world).0
    unfolding construct
    construct-nl_sock s nl h =
        let (fd, w1) = sys.socket s.world in
        let (rc1, w2) = sys.set_rcvtimeo fd nl_socket_timeout w1 in
        let (rc2, w3) = sys.bind fd ((sys.gettid s.world + s.session) % 2 ^ 32) w2 in
        elim (Bool-cases (is_neg rc1)) [
          | inl e ↦ absurd (apart _ nl (rw e at h))
          | inr e ↦ elim (Bool-cases (int_eq rc2 (pos 0))) [
            | inl f ↦ ap (λ (x : Netlink). x.nl_sock) (sym (ok-injective _ nl (rw (e, f) at h)))
            | inr f ↦ absurd (apart _ nl (rw (e, f) at h))
          ]
        ]

    -- If the constructor of `netlink` returns, the sockets that are open behind its scope are those that
    -- were open before, on every outcome of the scope's body, errors included.
    pub with_netlink-closes :
        {A : Type 0} (body : Netlink → M (State World) A) (s : State World) (nl : Netlink)
        → ((n : Netlink) → Keeps (body n))
        → is_neg (sys.socket s.world).0 ≡ false
        → (construct sys s).0 ≡ ok nl
        → d.open_sockets (with_netlink sys body s).1.world ≡ d.open_sockets s.world
    unfolding with_netlink
    with_netlink-closes body s nl keeps h made =
        let fd = (sys.socket s.world).0 in
        let same : nl.nl_sock ≡ fd = construct-nl_sock s nl made in
        rw made (
          d.close_removes nl.nl_sock (body nl (construct sys s).1).1.world (ap is_neg same ∙ h)
          ∙ ap (λ x. removed x (d.open_sockets (body nl (construct sys s).1).1.world)) same
          ∙ ap (removed fd) (keeps nl (construct sys s).1 ∙ construct-open s h)
          ∙ removed_head fd (d.open_sockets s.world) (d.socket_new s.world h))

    -- If the constructor throws, its socket stays open.
    pub with_netlink-leaks :
        {A : Type 0} (body : Netlink → M (State World) A) (s : State World) (e : Exception)
        → is_neg (sys.socket s.world).0 ≡ false
        → (construct sys s).0 ≡ throw e
        → d.open_sockets (with_netlink sys body s).1.world
          ≡ (sys.socket s.world).0 ∷ d.open_sockets s.world
    unfolding with_netlink
    with_netlink-leaks body s e h made = rw made (construct-open s h)
