-- ===== src/Netlink/Response/Endings.antt =====
-- The ways in which an exchange ends: DONE, an acknowledgement, an error, a failure to receive; and
-- that it does end.
use fnc.Prelude.{
  ℕ, zero, suc, ◌-◌, ◌<◌, ◌≡◌, ◌≢◌, refl, sym, ap, ◌∙◌, arith, ℤ, pos, negsuc, int_eq, Bool, true,
  false, ◌||◌, ==_iff, Bool-cases, inl, inr, List, [], ◌∷◌, ◌++◌, ◌==◌, length, All, flat,
  if◌then◌else◌,
}
use fnc.Exceptions.{Outcome, ok, throw, stuck, then_do, netex, denied}
use fnc.Exceptions.Laws.{then_do-eq-ok, then_do-ne-stuck}
use fnc.Netlink.Kernel.{Headers, System, State, Received, received, failed, Reply}
use fnc.Netlink.{
  Netlink, Callback, call, Walked, walked, acked, walk, error_of, buffer_len, handle_response_async,
}
use fnc.Netlink.Response.{
  IsData, calls, calls-append, walk_data, walk-All, Feeds, handle_front, round_on, round_done,
  round_acked, round_throws, round_fails, at,
}

module _ (h : Headers) {L : Type 0} (callback : Callback L) where
  walk-done :
      (pre post : List Reply) (m : Reply) (l l1 : L)
      → All (IsData h) pre
      → All (IsData h) post
      → m.nlmsg_type ≡ h.nlmsg_done
      → calls h callback pre l ≡ ok l1
      → walk h callback (pre ++ (m ∷ post)) false l
        ≡ then_do (calls h callback post l1) (λ l2. ok (walked true l2))
  walk-done pre post m l l1 dp dq t e =
      walk_data h callback pre (m ∷ post) false l dp
      ∙ rw e (at_done ∙ walk-All h callback post l1 true dq)
    where
      at_done : walk h callback (m ∷ post) false l1 ≡ walk h callback post true l1
      at_done = unfold walk in rw ((==_iff m.nlmsg_type h.nlmsg_done).1 t)

  walk-error :
      (pre post : List Reply) (m : Reply) (l l1 : L)
      → All (IsData h) pre
      → h.nlmsg_error ≢ h.nlmsg_done
      → m.nlmsg_type ≡ h.nlmsg_error
      → calls h callback pre l ≡ ok l1
      → walk h callback (pre ++ (m ∷ post)) false l
        ≡ (if int_eq m.error (pos 0) then ok (acked false l1) else throw (error_of m.error))
  walk-error pre post m l l1 dp apart t e =
      walk_data h callback pre (m ∷ post) false l dp ∙ rw e at_error
    where
      not_done : (m.nlmsg_type == h.nlmsg_done) ≡ false
      not_done = ground arith

      at_error :
          walk h callback (m ∷ post) false l1
          ≡ (if int_eq m.error (pos 0) then ok (acked false l1) else throw (error_of m.error))
      at_error = unfold walk in rw (not_done, (==_iff m.nlmsg_type h.nlmsg_error).1 t)

  walk-ne-stuck :
      ((m : Reply) (l : L) → call callback m l ≢ stuck)
      → (ms : List Reply) (done : Bool) (l : L) → walk h callback ms done l ≢ stuck
  unfolding walk
  walk-ne-stuck total [] done l = λ c. cc
  walk-ne-stuck total (m ∷ ms) done l = elim (Bool-cases (m.nlmsg_type == h.nlmsg_done)) [
    | inl is_done ↦ rw is_done (walk-ne-stuck total ms true l)
    | inr other ↦ elim (Bool-cases (m.nlmsg_type == h.nlmsg_error)) [
      | inl is_error ↦ rw (other, is_error) (ends m)
      | inr data_message ↦
          rw (other, data_message)
            (then_do-ne-stuck (call callback m l) _ (total m l)
              (λ l'. walk-ne-stuck total ms done l'))
    ]
  ]
    where
      ends :
          (m : Reply)
          → (if int_eq m.error (pos 0) then ok (acked done l) else throw (error_of m.error)) ≢ stuck
      ends m = ground arith

module _ {World : Type 0} (sys : System World) where
  -- What is queued for a socket, in datagrams; one that is received has been taken from there.
  pub record Drains : Type 0 where
    pub queued : ℤ → World → ℕ
    pub takes :
        (fd : ℤ) (w w' : World) (d : List Reply)
        → sys.recvmsg fd buffer_len w ≡ (received d, w')
        → queued fd w' < queued fd w

module _ {World : Type 0} (sys : System World) (h : Headers) {L : Type 0}
    (callback : Callback L) where
  -- Up to its last datagram: `front` has been received from `s` on, and has brought the captured
  -- variables from `l` to `value`; then `last` comes.
  pub record Incoming (nl : Netlink) (s : State World) (l : L) : Type 0 where
    pub front : List (List Reply)
    pub last : List Reply
    pub between : World
    pub after : World
    pub value : L
    pub fed : Feeds sys nl.nl_sock s.world front between
    pub arrives : sys.recvmsg nl.nl_sock buffer_len between ≡ (received last, after)
    pub no_control : All (All (IsData h)) front
    pub called : calls h callback (flat front) l ≡ ok value

  suc_of_lt : {n m : ℕ} → n < m → m - n ≡ suc (m - n - 1)
  suc_of_lt k = omega arith

  handle_last :
      (fuel : ℕ) (nl : Netlink) (s : State World) (l : L) (i : Incoming nl s l)
      → length i.front < fuel
      → handle_response_async sys h callback fuel nl l s
        ≡ handle_response_async sys h callback
            (suc (fuel - length i.front - 1))
            nl
            i.value
            (at sys h callback s i.between)
  handle_last fuel nl s l i k =
      handle_front sys h callback fuel nl i.front s i.between l i.value (omega arith) i.fed
        i.no_control i.called
      ∙ ap (λ n. handle_response_async sys h callback n nl i.value (at sys h callback s i.between))
          (suc_of_lt k)

  -- An answer that ends with DONE, on more fuel than datagrams come before its last one, when no
  -- message but DONE is a control message: the loop returns what the callback has made of every
  -- other message, in order, also of those behind DONE in the same datagram, and receives nothing
  -- more.
  pub handle_response_async-done :
      (fuel : ℕ) (nl : Netlink) (s : State World) (l l2 : L) (i : Incoming nl s l)
      (pre post : List Reply) (m : Reply)
      → length i.front < fuel
      → i.last ≡ pre ++ (m ∷ post)
      → All (IsData h) pre
      → All (IsData h) post
      → m.nlmsg_type ≡ h.nlmsg_done
      → calls h callback (pre ++ post) i.value ≡ ok l2
      → handle_response_async sys h callback fuel nl l s ≡ (ok l2, record s { world = i.after })
  handle_response_async-done fuel nl s l l2 i pre post m k split dp dq t e =
      let (l1, ep, eq) =
        then_do-eq-ok (calls h callback pre i.value) (calls h callback post)
          (sym (calls-append h callback pre post i.value) ∙ e) in
      handle_last fuel nl s l i k
      ∙ round_done sys h callback _ nl i.last (at sys h callback s i.between) i.after i.value l2
          i.arrives (rw split (walk-done h callback pre post m i.value l1 dp dq t ep ∙ rw eq))

  error_round :
      (fuel : ℕ) (nl : Netlink) (x : List Reply) (s : State World) (w : World) (l l1 : L) (e : ℤ)
      → sys.recvmsg nl.nl_sock buffer_len s.world ≡ (received x, w)
      → walk h callback x false l
        ≡ (if int_eq e (pos 0) then ok (acked false l1) else throw (error_of e))
      → handle_response_async sys h callback (suc fuel) nl l s
        ≡ ((if int_eq e (pos 0) then ok l1 else throw (error_of e)), record s { world = w })
  error_round fuel nl x s w l l1 e r walked_last = elim (Bool-cases (int_eq e (pos 0))) [
    | inl ack ↦
        round_acked sys h callback fuel nl x s w false l l1 r (walked_last ∙ rw ack) ∙ rw ack
    | inr bad ↦
        round_throws sys h callback fuel nl x s w l (error_of e) r (walked_last ∙ rw bad) ∙ rw bad
  ]

  -- An answer that ends with an NLMSG_ERROR, after the messages `pre` in its last datagram, on
  -- more fuel than datagrams come before that one, where NLMSG_ERROR and NLMSG_DONE differ: error
  -- 0 is an acknowledgement, on which the loop returns, -13 throws permission_denied and any other
  -- error a network_exception. What follows in the datagram is not looked at.
  pub handle_response_async-error :
      (fuel : ℕ) (nl : Netlink) (s : State World) (l l1 : L) (i : Incoming nl s l)
      (pre post : List Reply) (m : Reply)
      → length i.front < fuel
      → h.nlmsg_error ≢ h.nlmsg_done
      → i.last ≡ pre ++ (m ∷ post)
      → All (IsData h) pre
      → m.nlmsg_type ≡ h.nlmsg_error
      → calls h callback pre i.value ≡ ok l1
      → handle_response_async sys h callback fuel nl l s ≡ (
        (if int_eq m.error (pos 0)
            then ok l1
            else throw (
                if int_eq m.error (negsuc 12)
                then denied "Permission Denied"
                else netex "netlink error {}")),
        record s { world = i.after },
      )
  handle_response_async-error fuel nl s l l1 i pre post m k apart split dp t e =
      handle_last fuel nl s l i k
      ∙ error_round _ nl i.last (at sys h callback s i.between) i.after i.value l1 m.error i.arrives
          (rw split (walk-error h callback pre post m i.value l1 dp apart t e))

  -- A failure to receive, after datagrams without control messages and on more fuel than those,
  -- throws a network_exception: the timeout's, if the errno is EWOULDBLOCK or EAGAIN. Nothing more
  -- is received.
  pub handle_response_async-failed :
      (fuel : ℕ) (nl : Netlink) (s : State World) (l l1 : L) (ds : List (List Reply))
      (w1 w2 : World) (errno : ℕ)
      → length ds < fuel
      → Feeds sys nl.nl_sock s.world ds w1
      → All (All (IsData h)) ds
      → calls h callback (flat ds) l ≡ ok l1
      → sys.recvmsg nl.nl_sock buffer_len w1 ≡ (failed errno, w2)
      → handle_response_async sys h callback fuel nl l s ≡ (
        throw (
            if errno == h.ewouldblock || errno == h.eagain
            then netex "Timeout waiting to receive netlink message"
            else netex "Error receiving netlink message: {}"),
        record s { world = w2 },
      )
  handle_response_async-failed fuel nl s l l1 ds w1 w2 errno k f d e r =
      handle_front sys h callback fuel nl ds s w1 l l1 (omega arith) f d e
      ∙ ap (λ n. handle_response_async sys h callback n nl l1 (at sys h callback s w1))
          (suc_of_lt k)
      ∙ round_fails sys h callback _ nl (at sys h callback s w1) w2 l1 errno r

  -- The loop ends, whatever the answers are, on more fuel than datagrams are queued, if a received
  -- datagram leaves the queue and the callback itself always comes to an end.
  pub handle_response_async_ends :
      (drains : Drains sys)
      → ((m : Reply) (l : L) → call callback m l ≢ stuck)
      → (fuel : ℕ) (nl : Netlink) (l : L) (s : State World)
      → drains.queued nl.nl_sock s.world < fuel
      → (handle_response_async sys h callback fuel nl l s).0 ≢ stuck
  handle_response_async_ends drains total zero nl l s k = absurd (omega arith)
  handle_response_async_ends drains total (suc fuel) nl l s k =
      step (sys.recvmsg nl.nl_sock buffer_len s.world).0
        (sys.recvmsg nl.nl_sock buffer_len s.world).1 refl
        (λ l' w q.
          handle_response_async_ends drains total fuel nl l' (at sys h callback s w) (omega arith))
    where
      settled :
          (x : List Reply) (w : World) (r : Outcome (Walked L))
          → sys.recvmsg nl.nl_sock buffer_len s.world ≡ (received x, w)
          → walk h callback x false l ≡ r
          → ((l' : L)
              → (handle_response_async sys h callback fuel nl l' (at sys h callback s w)).0 ≢ stuck)
          → (handle_response_async sys h callback (suc fuel) nl l s).0 ≢ stuck
      settled x w (ok (walked true l')) a e again =
          rw (round_done sys h callback fuel nl x s w l l' a e) (λ c. cc)
      settled x w (ok (walked false l')) a e again =
          rw (round_on sys h callback fuel nl x s w l l' a e) (again l')
      settled x w (ok (acked done l')) a e again =
          rw (round_acked sys h callback fuel nl x s w done l l' a e) (λ c. cc)
      settled x w (throw err) a e again =
          rw (round_throws sys h callback fuel nl x s w l err a e) (λ c. cc)
      settled x w stuck a e again = absurd (walk-ne-stuck h callback total x false l e)

      step :
          (r : Received) (w : World)
          → sys.recvmsg nl.nl_sock buffer_len s.world ≡ (r, w)
          → ((l' : L) (w' : World)
              → drains.queued nl.nl_sock w' < drains.queued nl.nl_sock s.world
              → (handle_response_async sys h callback fuel nl l' (at sys h callback s w')).0
                ≢ stuck)
          → (handle_response_async sys h callback (suc fuel) nl l s).0 ≢ stuck
      step (failed errno) w a again =
          rw (round_fails sys h callback fuel nl s w l errno a) (λ c. cc)
      step (received x) w a again =
          settled x w (walk h callback x false l) a refl
            (λ l'. again l' w (drains.takes nl.nl_sock s.world w x a))
