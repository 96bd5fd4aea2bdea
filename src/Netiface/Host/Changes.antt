-- ===== src/Netiface/Host/Changes.antt =====
-- What the operations change of a host, and that they come to their end.
use fnc.Prelude.{
  ℕ, zero, suc, ◌^◌, ◌<◌, ◌≡◌, refl, sym, ap, subst, ◌∙◌, arith, ℤ, Bool, true, none, List, [], ◌∷◌,
  ==_refl, String, false,
}
use fnc.Exceptions.{Outcome, ok, then_do, M}
use fnc.RetryWait.{Clock, wait_for}
use fnc.Netlink.Kernel.{State, NlReq, NlMsg}
use fnc.Netlink.{
  Netlink, destroy, with_netlink, init_message, send_message_async, send_message_sync,
}
use fnc.Netlink.Requests.{init_message-Makes, init_message-known}
use fnc.Netlink.Response.Endings.{Incoming, handle_response_async-error}
use fnc.Netiface.{Env, exchange_then, clock}
use fnc.Netiface.Change.{fill_mtu, mtu_is, set_mtu}
use fnc.Netiface.Host.{Link, Host, At, with_mtu, Acknowledged, HasAttribute, Fewer, OnLink6}
use fnc.Netiface.Callbacks.{to_u32}
use fnc.Netiface.Host.Kernel.{Rtnetlink}
use fnc.Netiface.Host.Dumped.{Opens, construct-Opens}
use fnc.Netiface.Host.Requested.{known_newlink, fill_mtu-HasAttribute}
use fnc.Netiface.Host.Reads.{get_index_At, get_mtu_At}

-- A wait whose condition passes at once.
pub wait_for_at_once :
    {S : Type 0} (c : Clock S) (fuel limit wait : ℕ) (message : String) (condition : M S Bool)
    (s s' : S)
    → 0 < fuel
    → condition s ≡ (ok true, s')
    → wait_for c fuel limit message condition wait s ≡ (ok tt, s')
unfolding wait_for
wait_for_at_once c zero limit wait message condition s s' some passes = absurd (omega arith)
wait_for_at_once c (suc fuel) limit wait message condition s s' some passes = rw passes refl

module _ {World Address : Type 0} (env : Env World Address) (k : Rtnetlink env) where
  open env use {sys, headers, asio, inet, rounds, tries}

  abbrev at : State World → World → State World
  at s w = record s { world = w }

  sync-Acknowledged :
      (nl : Netlink) (msg : NlMsg) (s : State World)
      (a : Acknowledged env nl.nl_sock s.world msg.req msg.req.hdr.nlmsg_len)
      → send_message_sync sys headers none rounds nl msg tt s ≡ (ok tt, at s a.after)
  unfolding send_message_sync send_message_async
  sync-Acknowledged nl msg s a =
      let i : Incoming sys headers none nl (at s a.sent) tt = record {
        front = [];
        last = a.ack ∷ [];
        between = a.sent;
        after = a.after;
        value = tt;
        fed = refl;
        arrives = a.arrives;
        no_control = tt;
        called = refl;
      } in
      rw a.sends (
        handle_response_async-error sys headers none rounds nl (at s a.sent) tt tt i [] [] a.ack
          k.some_rounds k.error_apart refl tt a.is_error refl
        ∙ rw a.no_error refl)

  -- A request that is acknowledged goes on with the rest of the operation, and closes its socket.
  pub exchange_then-Acknowledged :
      (s : State World) (ty flags : ℕ) (fill : NlMsg → Outcome NlMsg)
      (rest : M (State World) (Unit {0})) (o : Opens env k.reporting s) (msg : NlMsg)
      → then_do (init_message headers o.nl ty flags).0 fill ≡ ok msg
      → (a : Acknowledged env o.nl.nl_sock o.opened.world msg.req msg.req.hdr.nlmsg_len)
      → (u : State World) → rest (at o.opened a.after) ≡ (ok tt, u)
      → exchange_then env ty flags fill rest s ≡ (ok tt, destroy sys o.nl u)
  unfolding exchange_then with_netlink
  exchange_then-Acknowledged s ty flags fill rest o msg filled a u done =
      let nl' : Netlink = (init_message headers o.nl ty flags).1 in
      let same : nl'.nl_sock ≡ o.nl.nl_sock =
        ap (λ (x : Netlink). x.nl_sock) (init_message-Makes headers o.nl ty flags).1 in
      let sent : send_message_sync sys headers none rounds nl' msg tt o.opened
          ≡ (ok tt, at o.opened a.after) =
        subst
          (λ fd.
            (b : Acknowledged env fd o.opened.world msg.req msg.req.hdr.nlmsg_len)
            → send_message_sync sys headers none rounds nl' msg tt o.opened
              ≡ (ok tt, at o.opened b.after))
          same (sync-Acknowledged nl' msg o.opened) a in
      rw o.opens (rw filled (rw sent (rw done refl)))

  sets_mtu_of :
      (fd : ℤ) (w : World) (req : NlReq) (n : ℕ) (l : Link) (h : Host Address) (mtu : ℕ)
      → k.host w ≡ h
      → req.hdr.nlmsg_type ≡ headers.rtm_newlink
      → req.hdr.nlmsg_flags ≡ headers.request_ack
      → req.ifinfo.ifi_index ≡ l.index
      → req.ifinfo.ifi_flags ≡ 0
      → req.ifinfo.ifi_change ≡ 0xffffffff
      → mtu < 2 ^ 32
      → k.allows l mtu ≡ true
      → HasAttribute headers req n headers.sizeof_ifinfomsg headers.ifla_mtu 4
          (headers.store_u32 mtu)
      → (at : At l h.links)
      → (a : Acknowledged env fd w req n) × ((k.host a.after).links ≡ with_mtu at mtu)
        × Fewer (OnLink6 asio (to_u32 l.index)) h.assigned (k.host a.after).assigned
  sets_mtu_of fd w req n l h mtu same t f i g c small allowed attribute =
      subst
        (λ x.
          (at : At l x.links)
          → (a : Acknowledged env fd w req n) × ((k.host a.after).links ≡ with_mtu at mtu)
            × Fewer (OnLink6 asio (to_u32 l.index)) x.assigned (k.host a.after).assigned)
        same (λ at. k.sets_mtu fd w req n l at mtu t f i g c small allowed attribute)

  pub At-with_mtu :
      {l : Link} {links : List Link} (at : At l links) (mtu : ℕ)
      → At (record l { mtu = mtu; up = false }) (with_mtu at mtu)
  At-with_mtu at mtu = record {
    before = at.before;
    after = at.after;
    split = refl;
    others_before = at.others_before;
    others_after = at.others_after;
  }

  -- The condition of set_mtu passes on a host whose link has the MTU.
  mtu_is_At :
      (t : State World) (l : Link)
      → At l (k.host t.world).links
      → l.mtu < 2 ^ 32
      → (u : State World) × (mtu_is env l.name l.mtu t ≡ (ok true, u))
        × (k.host u.world ≡ k.host t.world)
  mtu_is_At t l at small =
      let (u, read, kept) = get_mtu_At env k.reporting t l at small in
      (u, rw read (ap (λ b. (ok b, u)) (==_refl l.mtu)), kept)

  -- Where the kernel keeps its promises, set_mtu returns for every uint32_t that the interface's device
  -- can have: the host's link of this name has this MTU, and it is down, since the request clears the
  -- link's flags; no other link is changed, and of the host's addresses at most IPv6 addresses of this
  -- link are gone, which a kernel drops from a link that it takes down.
  pub set_mtu_At :
      (s : State World) (l : Link) (at : At l (k.host s.world).links) (mtu : ℕ)
      → mtu < 2 ^ 32
      → k.allows l mtu ≡ true
      → (s' : State World) × (set_mtu env l.name mtu s ≡ (ok tt, s'))
        × ((k.host s'.world).links ≡ with_mtu at mtu)
        × Fewer (OnLink6 asio (to_u32 l.index)) (k.host s.world).assigned (k.host s'.world).assigned
  unfolding set_mtu
  set_mtu_At s l at_l mtu small allowed =
      let (s1, i, kept1) = get_index_At env k.reporting s l at_l in
      let o = construct-Opens env k.reporting s1 in
      let (blank_msg, made, blank) =
        init_message-known headers o.nl headers.rtm_newlink headers.request_ack
          (known_newlink env) in
      let (msg, fills, same_type, same_flags, index, attribute, flags, mask) =
        fill_mtu-HasAttribute env l.index mtu blank_msg blank.no_attributes in
      let (a, changed, fewer) =
        sets_mtu_of o.nl.nl_sock o.opened.world msg.req msg.req.hdr.nlmsg_len l (k.host s.world) mtu
          (o.kept ∙ kept1) (same_type ∙ blank.same_type) (same_flags ∙ blank.same_flags) index flags
          mask small allowed (attribute (blank.link_length (ground arith))) at_l in
      let l' : Link = record l { mtu = mtu; up = false } in
      let (u, passes, kept) =
        mtu_is_At (at o.opened a.after) l' (subst (At l') (sym changed) (At-with_mtu at_l mtu))
          small in
      (
        destroy sys o.nl u,
        rw i (
            exchange_then-Acknowledged s1 headers.rtm_newlink headers.request_ack
              (fill_mtu env l.index mtu) _ o msg (rw made fills) a u
              (wait_for_at_once (clock env) tries 500 50 _ (mtu_is env l.name mtu)
                (at o.opened a.after) u k.some_tries passes)),
        ap (λ (h : Host Address). h.links) (k.close_keeps o.nl.nl_sock u.world ∙ kept) ∙ changed,
        subst
            (λ (h : Host Address).
              Fewer (OnLink6 asio (to_u32 l.index)) (k.host s.world).assigned h.assigned)
            (sym (k.close_keeps o.nl.nl_sock u.world ∙ kept)) fewer,
      )
