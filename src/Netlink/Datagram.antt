-- ===== src/Netlink/Datagram.antt =====
-- netlink.cpp: handle_response_async over the bytes that recvmsg has put into `reply`, which NLMSG_OK
-- and NLMSG_NEXT take apart, and why it is the loop over lists of messages.
pub mod Simulated
mod Tests
use fnc.Prelude.{
  ℕ, zero, suc, ◌+◌, ◌≤◌, ◌<◌, ◌≡◌, refl, ap, ◌∙◌, arith, ℤ, pos, negsuc, Bool, true, false,
  Bool-cases, inl, inr, List, [], ◌∷◌, ◌==◌, int_eq, if◌then◌else◌,
}
use mathlib.Core.Path.{fun_ext}
use fnc.Exceptions.{Outcome, ok, throw, stuck, then_do, M}
use fnc.Netlink.Kernel.{Headers, System, State, Received, received, failed, Reply}
use fnc.Netlink.{
  Netlink, Callback, call, Walked, walked, acked, buffer_len, error_of, receive_error, settle, walk,
  handle_received, handle_response_async,
}

-- The macros, for the bytes from a pointer on and the number of bytes left, which NLMSG_NEXT may make
-- negative; and what the source reads of the message at a pointer.
pub record Macros : Type 0 where
  pub nlmsg_ok : List ℕ → ℤ → Bool
  pub nlmsg_next : List ℕ → ℤ → List ℕ × ℤ
  pub message_at : List ℕ → Reply

-- The bytes that are left, none if the count is negative.
abbrev pub left : ℤ → ℕ
left (pos n) = n
left (negsuc n) = 0

-- What netlink(3) documents: a message that NLMSG_OK accepts is complete, so that it has a header of 16
-- bytes, and NLMSG_NEXT leaves what is behind it.
pub record IsMacros (macros : Macros) : Type 0 where
  pub next_shorter :
      (p : List ℕ) (len : ℤ)
      → macros.nlmsg_ok p len ≡ true
      → left (macros.nlmsg_next p len).1 + 16 ≤ left len

-- What recvmsg gives: the number of bytes, with the buffer, or -1 and an errno.
pub data Filled : Type 0 where
  filled : ℕ → List ℕ → Filled
  unfilled : ℕ → Filled

module _ (macros : Macros) where
  -- The messages in a buffer.
  pub messages : ℕ → List ℕ → ℤ → List Reply
  messages zero p len = []
  messages (suc fuel) p len =
      let (p', len') = macros.nlmsg_next p len in
      let rest = messages fuel p' len' in
      if macros.nlmsg_ok p len then macros.message_at p ∷ rest else []

  abbrev pub listed : Filled → Received
  listed (filled n reply) = received (messages (suc n) reply (pos n))
  listed (unfilled errno) = failed errno

  -- The system calls that hand out the messages which another recvmsg leaves in the buffer.
  abbrev pub list_messages :
      {World : Type 0} → System World → (ℤ → ℕ → World → Filled × World) → System World
  list_messages sys recvmsg = record sys {
    recvmsg = λ fd n w. let (r, w') = recvmsg fd n w in (listed r, w');
  }

  module _ (h : Headers) {L : Type 0} (callback : Callback L) where
    -- The loop over the messages of one datagram, on its bytes.
    pub walk_bytes : ℕ → List ℕ → ℤ → Bool → L → Outcome (Walked L)
    walk_bytes zero p len done l = stuck
    walk_bytes (suc fuel) p len done l =
        let m = macros.message_at p in
        let (p', len') = macros.nlmsg_next p len in
        let after_done = walk_bytes fuel p' len' true l in
        let after_call = then_do (call callback m l) (λ l'. walk_bytes fuel p' len' done l') in
        if macros.nlmsg_ok p len
        then (if m.nlmsg_type == h.nlmsg_done
            then after_done
            else if m.nlmsg_type == h.nlmsg_error
            then (if int_eq m.error (pos 0) then ok (acked done l) else throw (error_of m.error))
            else after_call)
        else ok (walked done l)

    module _ {World : Type 0} (sys : System World) (recvmsg : ℤ → ℕ → World → Filled × World) where
      handle_filled : Filled → L → (L → M (State World) L) → M (State World) L
      handle_filled (unfilled errno) l again s = (throw (receive_error h errno), s)
      handle_filled (filled n reply) l again s =
          settle sys h callback (walk_bytes (suc n) reply (pos n) false l) again s

      -- The loop of `handle_response_async`, which receives bytes.
      pub handle_response_bytes : ℕ → Netlink → L → M (State World) L
      unfolding handle_filled
      handle_response_bytes zero nl l s = (stuck, s)
      handle_response_bytes (suc fuel) nl l s =
          let (r, w) = recvmsg nl.nl_sock buffer_len s.world in
          handle_filled r l (λ l' s'. handle_response_bytes fuel nl l' s') (record s { world = w })

module _ (macros : Macros) (law : IsMacros macros) (h : Headers) {L : Type 0}
    (callback : Callback L) where
  walk_bytes-messages :
      (fuel : ℕ) (p : List ℕ) (len : ℤ) (done : Bool) (l : L)
      → left len < fuel
      → walk_bytes macros h callback fuel p len done l
        ≡ walk h callback (messages macros fuel p len) done l
  unfolding walk_bytes messages walk
  walk_bytes-messages zero p len done l k = absurd (omega arith)
  walk_bytes-messages (suc fuel) p len done l k = elim (Bool-cases (macros.nlmsg_ok p len)) [
    | inl e ↦
        let (p', len') = macros.nlmsg_next p len in
        let shorter = law.next_shorter p len e in
        let ih : (d : Bool)
            → walk_bytes macros h callback fuel p' len' d
              ≡ walk h callback (messages macros fuel p' len') d =
          λ d. fun_ext λ x. walk_bytes-messages fuel p' len' d x (omega arith) in
        rw (e, ih true, ih done) refl
    | inr e ↦ rw e refl
  ]

  module _ {World : Type 0} (sys : System World) (recvmsg : ℤ → ℕ → World → Filled × World) where
    settle_same :
        (r : Outcome (Walked L)) (again : L → M (State World) L) (s : State World)
        → settle sys h callback r again s
          ≡ settle (list_messages macros sys recvmsg) h callback r again s
    unfolding settle
    settle_same (ok (acked done l)) again s = refl
    settle_same (ok (walked true l)) again s = refl
    settle_same (ok (walked false l)) again s = refl
    settle_same (throw e) again s = refl
    settle_same stuck again s = refl

    handle_filled-listed :
        (r : Filled) (l : L) (again : L → M (State World) L) (s : State World)
        → handle_filled macros h callback sys recvmsg r l again s
          ≡ handle_received
              (list_messages macros sys recvmsg)
              h
              callback
              (listed macros r)
              l
              again
              s
    unfolding handle_filled handle_received
    handle_filled-listed (unfilled errno) l again s = refl
    handle_filled-listed (filled n reply) l again s =
        rw (walk_bytes-messages (suc n) reply (pos n) false l (omega arith)) (settle_same _ again s)

    -- Where NLMSG_OK accepts complete messages and NLMSG_NEXT leaves what is behind one: the loop over
    -- the bytes of the datagrams ends as the loop over the lists of their messages does, with the same
    -- captured variables, and leaves the same behind. Its inner loop needs no more rounds than there
    -- are bytes.
    pub handle_response_bytes-async :
        (fuel : ℕ) (nl : Netlink) (l : L) (s : State World)
        → handle_response_bytes macros h callback sys recvmsg fuel nl l s
          ≡ handle_response_async (list_messages macros sys recvmsg) h callback fuel nl l s
    unfolding handle_response_bytes handle_response_async
    handle_response_bytes-async zero nl l s = refl
    handle_response_bytes-async (suc fuel) nl l s =
        let (r, w) = recvmsg nl.nl_sock buffer_len s.world in
        handle_filled-listed r l _ (record s { world = w })
        ∙ ap
            (λ (again : L → M (State World) L).
              handle_received (list_messages macros sys recvmsg) h callback (listed macros r) l
                again (record s { world = w }))
            (fun_ext λ l'. fun_ext λ s'. handle_response_bytes-async fuel nl l' s')
