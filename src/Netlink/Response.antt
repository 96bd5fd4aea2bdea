-- ===== src/Netlink/Response.antt =====
-- How the loop of `handle_response_async` ends, on answers of any number of datagrams.
pub mod Endings
use fnc.Prelude.{
  ℕ, zero, suc, ◌+◌, ◌-◌, ◌≤◌, ◌<◌, ◌≡◌, ◌≢◌, refl, sym, ap, subst, ◌∙◌, arith, ℤ, pos, negsuc,
  int_eq, int_eq_iff, Bool, true, false, ==_refl, ==_iff, Bool-cases, inl, inr, List, [], ◌∷◌, ◌++◌,
  ◌==◌, length, All, flat, if◌then◌else◌, append_assoc, append-nil,
}
use fnc.Exceptions.{Exception, Outcome, ok, throw, stuck, then_do, netex, denied, M}
use fnc.Exceptions.Laws.{then_do_cong, then_do_assoc, then_do-eq-ok}
use fnc.Netlink.Kernel.{Headers, System, State, Received, received, failed, Reply}
use fnc.Netlink.{
  Netlink, Callback, call, Walked, walked, acked, walk, error_of, buffer_len, receive_error,
  handle_response_async,
}

module _ (h : Headers) where
  -- Neither DONE nor ERROR.
  abbrev pub IsData : Reply → Type 0
  IsData m = ((m.nlmsg_type == h.nlmsg_done) ≡ false) × ((m.nlmsg_type == h.nlmsg_error) ≡ false)

  module _ {L : Type 0} (callback : Callback L) where
    -- The callback on one message after the other.
    abbrev pub calls : List Reply → L → Outcome L
    calls [] l = ok l
    calls (m ∷ ms) l = then_do (call callback m l) (λ l'. calls ms l')

    pub calls-append :
        (xs ys : List Reply) (l : L) → calls (xs ++ ys) l ≡ then_do (calls xs l) (λ l'. calls ys l')
    calls-append [] ys l = refl
    calls-append (m ∷ xs) ys l =
        then_do_cong (call callback m l) (λ l'. calls-append xs ys l')
        ∙ sym (then_do_assoc (call callback m l) (calls xs) (calls ys))

    pub walk_data :
        (ms rest : List Reply) (done : Bool) (l : L)
        → All IsData ms
        → walk h callback (ms ++ rest) done l
          ≡ then_do (calls ms l) (λ l'. walk h callback rest done l')
    unfolding walk
    walk_data [] rest done l d = refl
    walk_data (m ∷ ms) rest done l ((d, e), ds) =
        rw (d, e)
          (then_do_cong (call callback m l) (λ l'. walk_data ms rest done l' ds)
            ∙ sym (then_do_assoc (call callback m l) (calls ms) (walk h callback rest done)))

    -- A datagram with no DONE and no ERROR is walked to its end.
    pub walk-All :
        (ms : List Reply) (l : L) (done : Bool)
        → All IsData ms
        → walk h callback ms done l ≡ then_do (calls ms l) (λ l'. ok (walked done l'))
    unfolding walk
    walk-All ms l done d =
        subst (λ t. walk h callback t done l ≡ then_do (calls ms l) (λ l'. ok (walked done l')))
          (append-nil ms) (walk_data ms [] done l d)

minus_zero : (n : ℕ) → n - 0 ≡ n
minus_zero n = omega arith

minus_suc : (n m : ℕ) → suc n - suc m ≡ n - m
minus_suc n m = omega arith

ok-injective : {L : Type 0} (a b : L) → ok a ≡ ok b → a ≡ b
ok-injective a b h = cc

module _ {World : Type 0} (sys : System World) where
  -- From `w` on recvmsg gives these datagrams, one after the other, and leaves `w'`.
  abbrev pub Feeds : ℤ → World → List (List Reply) → World → Type 0
  Feeds fd w [] w' = w ≡ w'
  Feeds fd w (d ∷ ds) w' =
      (w1 : World) × (sys.recvmsg fd buffer_len w ≡ (received d, w1)) × Feeds fd w1 ds w'

  module _ (h : Headers) {L : Type 0} (callback : Callback L) where
    abbrev pub at : State World → World → State World
    at s w = record s { world = w }

    -- One round of the loop, on each of the ways in which the walk over its datagram ends.
    pub round_on :
        (fuel : ℕ) (nl : Netlink) (x : List Reply) (s : State World) (w : World) (l l' : L)
        → sys.recvmsg nl.nl_sock buffer_len s.world ≡ (received x, w)
        → walk h callback x false l ≡ ok (walked false l')
        → handle_response_async sys h callback (suc fuel) nl l s
          ≡ handle_response_async sys h callback fuel nl l' (at s w)
    unfolding handle_response_async
    round_on fuel nl x s w l l' r e = rw r (rw e)

    pub round_done :
        (fuel : ℕ) (nl : Netlink) (x : List Reply) (s : State World) (w : World) (l l' : L)
        → sys.recvmsg nl.nl_sock buffer_len s.world ≡ (received x, w)
        → walk h callback x false l ≡ ok (walked true l')
        → handle_response_async sys h callback (suc fuel) nl l s ≡ (ok l', at s w)
    unfolding handle_response_async
    round_done fuel nl x s w l l' r e = rw r (rw e)

    pub round_acked :
        (fuel : ℕ) (nl : Netlink) (x : List Reply) (s : State World) (w : World) (done : Bool)
        (l l' : L)
        → sys.recvmsg nl.nl_sock buffer_len s.world ≡ (received x, w)
        → walk h callback x false l ≡ ok (acked done l')
        → handle_response_async sys h callback (suc fuel) nl l s ≡ (ok l', at s w)
    unfolding handle_response_async
    round_acked fuel nl x s w done l l' r e = rw r (rw e)

    pub round_throws :
        (fuel : ℕ) (nl : Netlink) (x : List Reply) (s : State World) (w : World) (l : L)
        (err : Exception)
        → sys.recvmsg nl.nl_sock buffer_len s.world ≡ (received x, w)
        → walk h callback x false l ≡ throw err
        → handle_response_async sys h callback (suc fuel) nl l s ≡ (throw err, at s w)
    unfolding handle_response_async
    round_throws fuel nl x s w l err r e = rw r (rw e)

    pub round_fails :
        (fuel : ℕ) (nl : Netlink) (s : State World) (w : World) (l : L) (errno : ℕ)
        → sys.recvmsg nl.nl_sock buffer_len s.world ≡ (failed errno, w)
        → handle_response_async sys h callback (suc fuel) nl l s
          ≡ (throw (receive_error h errno), at s w)
    unfolding handle_response_async
    round_fails fuel nl s w l errno r = rw r

    -- Datagrams that end nothing are handled one by one, and the loop goes on with the fuel left.
    pub handle_front :
        (fuel : ℕ) (nl : Netlink) (ds : List (List Reply)) (s : State World) (w' : World) (l l' : L)
        → length ds ≤ fuel
        → Feeds nl.nl_sock s.world ds w'
        → All (All (IsData h)) ds
        → calls h callback (flat ds) l ≡ ok l'
        → handle_response_async sys h callback fuel nl l s
          ≡ handle_response_async sys h callback (fuel - length ds) nl l' (record s { world = w' })
    handle_front fuel nl [] s w' l l' k f d e =
        let same : l ≡ l' = ok-injective l l' e in rw (minus_zero fuel, f, same)
    handle_front zero nl (x ∷ ds) s w' l l' k f d e = absurd (omega arith)
    handle_front (suc fuel) nl (x ∷ ds) s w' l l' k (w1, r, f) (d, dd) e =
        let (l1, ex, er) =
          then_do-eq-ok (calls h callback x l) (calls h callback (flat ds))
            (sym (calls-append h callback x (flat ds) l) ∙ e) in
        let whole : walk h callback x false l ≡ ok (walked false l1) =
          walk-All h callback x l false d ∙ rw ex in
        round_on fuel nl x s w1 l l1 r whole
        ∙ rw (minus_suc fuel (length ds))
            (handle_front fuel nl ds (at s w1) w' l1 l' (omega arith) f dd er)
