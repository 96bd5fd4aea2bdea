-- ===== src/Netiface/Answer.antt =====
-- An exchange that the kernel answers with a dump, and what a callback makes of it.
use fnc.Prelude.{ℕ, ◌<◌, ◌≡◌, refl, sym, ap, ◌∙◌, pos, List, ◌∷◌, ◌++◌, length, All, flat}
use fnc.Exceptions.{Outcome, ok, then_do}
use fnc.Exceptions.Laws.{then_do-eq-ok}
use fnc.Netlink.Kernel.{State, NlMsg, received, Reply}
use fnc.Netlink.{
  Netlink, Callback, construct, destroy, with_netlink, init_message, send_message_async,
  send_message_sync, handle_response_async, buffer_len,
}
use fnc.Netlink.Response.{IsData, Feeds, calls, calls-append}
use fnc.Netlink.Response.Endings.{Incoming, handle_response_async-done}
use fnc.Netiface.{Env, exchange}

module _ {World Address : Type 0} (env : Env World Address) where
  open env use {sys, headers, rounds}

  -- From `s` on, a request of this type and these flags is sent over a new socket and answered by the
  -- messages `ms`, in a number of datagrams of which the last holds DONE; the socket is closed in `s'`.
  pub record Dumps (s : State World) (nlmsg_type nlmsg_flags : ℕ) (fill : NlMsg → Outcome NlMsg)
      (ms : List Reply) (s' : State World) : Type 0 where
    pub nl : Netlink
    pub opened : State World
    pub opens : construct sys s ≡ (ok nl, opened)
    pub msg : NlMsg
    pub filled : then_do (init_message headers nl nlmsg_type nlmsg_flags).0 fill ≡ ok msg
    pub rc : ℕ
    pub sent : World
    pub sends : sys.send nl.nl_sock msg.req msg.req.hdr.nlmsg_len opened.world ≡ (pos rc, sent)
    pub front : List (List Reply)
    pub pre : List Reply
    pub done : Reply
    pub post : List Reply
    pub between : World
    pub after : World
    pub fed : Feeds sys nl.nl_sock sent front between
    pub arrives :
        sys.recvmsg nl.nl_sock buffer_len between ≡ (received (pre ++ (done ∷ post)), after)
    pub front_data : All (All (IsData headers)) front
    pub pre_data : All (IsData headers) pre
    pub post_data : All (IsData headers) post
    pub is_done : done.nlmsg_type ≡ headers.nlmsg_done
    pub content : ms ≡ flat front ++ (pre ++ post)
    pub enough : length front < rounds
    pub closes : s' ≡ record { session = opened.session; world = sys.close nl.nl_sock after }

  module _ {L : Type 0} (callback : Callback L) where
    sends_eq :
        (nl : Netlink) (msg : NlMsg) (s : State World) (rc : ℕ) (w : World)
        → sys.send nl.nl_sock msg.req msg.req.hdr.nlmsg_len s.world ≡ (pos rc, w)
        → send_message_async sys nl msg s ≡ (ok tt, record s { world = w })
    unfolding send_message_async
    sends_eq nl msg s rc w e = rw e

    send_message_sync-eq :
        (fuel : ℕ) (nl : Netlink) (msg : NlMsg) (l : L) (s t : State World)
        → send_message_async sys nl msg s ≡ (ok tt, t)
        → send_message_sync sys headers callback fuel nl msg l s
          ≡ handle_response_async sys headers callback fuel nl l t
    unfolding send_message_sync
    send_message_sync-eq fuel nl msg l s t e = rw e

    abbrev finish : Netlink → Outcome L × State World → Outcome L × State World
    finish nl r = (r.0, destroy sys nl r.1)

    exchange-eq :
        (ty flags : ℕ) (fill : NlMsg → Outcome NlMsg) (l : L) (s opened : State World)
        (nl : Netlink) (msg : NlMsg)
        → construct sys s ≡ (ok nl, opened)
        → then_do (init_message headers nl ty flags).0 fill ≡ ok msg
        → exchange env ty flags fill callback l s
          ≡ finish nl (
              send_message_sync sys headers callback rounds
                (init_message headers nl ty flags).1
                msg
                l
                opened)
    unfolding exchange with_netlink
    exchange-eq ty flags fill l s opened nl msg e f = rw e (rw f)

    answered :
        (nl' nl : Netlink) (msg : NlMsg) (s opened : State World) (rc : ℕ) (sent after : World)
        (l l' : L)
        → nl'.nl_sock ≡ nl.nl_sock
        → sys.send nl'.nl_sock msg.req msg.req.hdr.nlmsg_len opened.world ≡ (pos rc, sent)
        → handle_response_async sys headers callback rounds nl' l (record opened { world = sent })
          ≡ (ok l', record opened { world = after })
        → finish nl (send_message_sync sys headers callback rounds nl' msg l opened)
          ≡ (ok l', record { session = opened.session; world = sys.close nl.nl_sock after })
    answered nl' nl msg s opened rc sent after l l' same e f =
        rw
          (send_message_sync-eq rounds nl' msg l opened (record opened { world = sent })
            (sends_eq nl' msg opened rc sent e))
          (rw f)

    -- On an answer that is a dump the operation returns what the callback makes of the messages, one
    -- after the other.
    pub exchange-Dumps :
        (ty flags : ℕ) (fill : NlMsg → Outcome NlMsg) (ms : List Reply) (s s' : State World)
        (l l' : L)
        → Dumps s ty flags fill ms s'
        → calls headers callback ms l ≡ ok l'
        → exchange env ty flags fill callback l s ≡ (ok l', s')
    unfolding init_message
    exchange-Dumps ty flags fill ms s s' l l' d e =
        let nl' : Netlink = (init_message headers d.nl ty flags).1 in
        let e' : calls headers callback (flat d.front ++ (d.pre ++ d.post)) l ≡ ok l' =
          rw d.content at e in
        let (l1, e1, e2) =
          then_do-eq-ok (calls headers callback (flat d.front) l)
            (calls headers callback (d.pre ++ d.post))
            (sym (calls-append headers callback (flat d.front) (d.pre ++ d.post) l) ∙ e') in
        let i : Incoming sys headers callback nl' (record (d.opened) { world = d.sent }) l =
          record {
            front = d.front;
            last = d.pre ++ (d.done ∷ d.post);
            between = d.between;
            after = d.after;
            value = l1;
            fed = d.fed;
            arrives = d.arrives;
            no_control = d.front_data;
            called = e1;
          } in
        exchange-eq ty flags fill l s d.opened d.nl d.msg d.opens d.filled
        ∙ answered nl' d.nl d.msg s d.opened d.rc d.sent d.after l l' refl d.sends (
            handle_response_async-done sys headers callback rounds nl'
              (record (d.opened) { world = d.sent }) l l' i d.pre d.post d.done d.enough refl
              d.pre_data d.post_data d.is_done e2)
        ∙ ap (λ t. (ok l', t)) (sym d.closes)
