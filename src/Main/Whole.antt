-- ===== src/Main/Whole.antt =====
-- `main` on a host whose kernel refuses nothing.
use fnc.Prelude.{
  ◌≡◌, sym, ap, subst, ◌∙◌, arith, ℤ, pos, Bool, true, false, List, [], ◌∷◌, All, length, Text,
  codes,
}
use fnc.Exceptions.{ok, then_do, catch_network_exception, catch_std_exception}
use fnc.IpAddress.Build.{IsAsio}
use fnc.IpAddress.Sockets.{IsInet}
use fnc.Logging.{Loggers}
use fnc.MacAddress.Bytes.{IsByte}
use fnc.Netlink.Kernel.{State}
use fnc.Netiface.{Env, get_mtu, get_mac_address}
use fnc.Netiface.Callbacks.{to_u32}
use fnc.Netiface.Change.{set_mtu}
use fnc.Netiface.Class.{netiface}
use fnc.Netiface.Host.{Link, Host, At, with_mtu, holds, has}
use fnc.Netiface.Host.Kernel.{Rtnetlink}
use fnc.Netiface.Host.Changes.{At-with_mtu, set_mtu_At}
use fnc.Netiface.Host.Reads.{get_mtu_At, get_mac_address_At}
use fnc.Main.{Parsed, parsed, handled, set_literal, configure, run, main, start_logging}
use fnc.Netiface.Host.Once.{Once, AtMostOnce}
use fnc.Netiface.Host.Fewer.{Fewer-has}
use fnc.Netiface.Host.Elsewhere.{
  Elsewhere, same-Elsewhere, trans-Elsewhere, wider-Elsewhere, relink-Elsewhere,
  Untouched-Elsewhere, down-Elsewhere,
}
use fnc.Main.Begins.{middle_calls, first_calls_of}
use fnc.Exceptions.Laws.{>>=-ok}
use fnc.Main.Steps.{carried, Reads, del_literal_rare}
use fnc.Main.Changes.{
  OnlyAs, later-OnlyAs, free_four, four-ne-six, is_four, literal_At, last_calls_At,
}

module _ {World Address : Type 0} (env : Env World Address) (k : Rtnetlink env)
    (law : IsAsio env.asio) where
  open env use {sys, headers, asio, inet}

  module _ (scoped : Address → Bool) (net : IsInet asio inet scoped) where
    middle_calls_At :
        (s : State World) (l : Link) (at : At l (k.host s.world).links) (one two six : Address)
        → All IsByte l.hwaddr
        → length l.hwaddr ≡ 6
        → k.allows l 1500 ≡ true
        → k.allows (record l { mtu = 1500; up = false }) 8000 ≡ true
        → Reads env k.reporting (codes "1.1.1.1") one 32
        → Reads env k.reporting (codes "2.2.2.2") two 32
        → Reads env k.reporting (codes "2001:db8:8714:3a90::12") six 64
        → scoped one ≡ false
        → scoped two ≡ false
        → scoped six ≡ false
        → k.takes one 32 ≡ true
        → k.takes two 32 ≡ true
        → k.takes six 64 ≡ true
        → asio.equal one two ≡ false
        → has asio (k.host s.world).assigned (to_u32 l.index) two ≡ false
        → OnlyAs env k law l six 64 (k.host s.world)
        → (s' : State World) × (middle_calls env l.name s ≡ (ok tt, s'))
          × ((k.host s'.world).links ≡ with_mtu at 8000)
          × (holds asio (k.host s'.world).assigned (to_u32 l.index) 32 one ≡ true)
          × (holds asio (k.host s'.world).assigned (to_u32 l.index) 32 two ≡ true)
          × (holds asio (k.host s'.world).assigned (to_u32 l.index) 64 six ≡ true)
          × Once env l two (k.host s'.world).assigned
          × OnlyAs env k law l six 64 (k.host s'.world)
          × Elsewhere env law k.same_network two l
              (one ∷ two ∷ six ∷ [])
              (k.host s.world)
              (k.host s'.world)
    middle_calls_At s l at one two six bytes six_bytes allowed then_allowed read_one read_two
          read_six bare_one bare_two bare_six takes_one takes_two takes_six differ none only =
        let (s1, sets, changed, fewer) = set_mtu_At env k s l at 1500 (omega arith) allowed in
        let l' : Link = record l { mtu = 1500; up = false } in
        let at1 : At l' (k.host s1.world).links =
          subst (At l') (sym changed) (At-with_mtu env k at 1500) in
        let down =
          down-Elsewhere env law k.same_network two l (k.host s.world) (k.host s1.world) fewer in
        let (s2, run2, links2, there2, _, grown2) =
          literal_At env k law scoped net s1 l' (codes "1.1.1.1") one 32 at1 read_one bare_one
            takes_one
            (free_four env k law scoped net (k.host s1.world) l' (codes "1.1.1.1") one read_one) in
        let set2 =
          Untouched-Elsewhere env law k.same_network two l (one ∷ []) (k.host s1.world)
            (k.host s2.world) grown2.elsewhere in
        let at2 = subst (At l') (sym links2) at1 in
        let (s3, mtu, kept3) = get_mtu_At env k.reporting s2 l' at2 (omega arith) in
        let at3 = carried env k.reporting l' (k.host s2.world) (k.host s3.world) kept3 at2 in
        let (s4, found, mac, same, kept4) =
          get_mac_address_At env k.reporting s3 l' at3 bytes six_bytes in
        let links4 : (k.host s4.world).links ≡ with_mtu at 1500 =
          ap (λ (h : Host Address). h.links) (kept4 ∙ kept3) ∙ links2 ∙ changed in
        let front : Elsewhere env law k.same_network two l (one ∷ []) (k.host s.world)
            (k.host s4.world) =
          trans-Elsewhere env law k.same_network two l (one ∷ []) (k.host s.world) (k.host s1.world)
            (k.host s4.world)
            (wider-Elsewhere env law k.same_network two l [] (one ∷ []) (k.host s.world)
              (k.host s1.world) (λ index x other. ground arith) down)
            (trans-Elsewhere env law k.same_network two l (one ∷ []) (k.host s1.world)
              (k.host s2.world) (k.host s4.world) set2
              (same-Elsewhere env law k.same_network two l (one ∷ []) (k.host s2.world)
                (k.host s4.world) (kept4 ∙ kept3))) in
        let at4 : At l' (k.host s4.world).links = record {
          before = at.before;
          after = at.after;
          split = links4;
          others_before = at.others_before;
          others_after = at.others_after;
        } in
        let none4 : has asio (k.host s4.world).assigned (to_u32 l.index) two ≡ false =
          ap (λ (h : Host Address). has asio h.assigned (to_u32 l.index) two) (kept4 ∙ kept3)
          ∙ grown2.still_none two differ (
              Fewer-has asio _ (k.host s.world).assigned (k.host s1.world).assigned (to_u32 l.index)
                two fewer none) in
        let only4 : OnlyAs env k law l six 64 (k.host s4.world) =
          later-OnlyAs env k law two six l 64 (one ∷ []) (k.host s.world) (k.host s4.world)
            (ground
              (arith, four-ne-six env k law scoped net (codes "1.1.1.1") one six read_one read_six))
            front only in
        let (s5, run5, links5, there_two, there_six, once, only5, keeps5, elsewhere5) =
          last_calls_At env k law scoped net s4 l' at4 two six then_allowed read_two read_six
            bare_two bare_six takes_two takes_six none4 only4 in
        (
          s5,
          >>=-ok (set_mtu env l.name 1500) _ _ s s1 _ sets (
              >>=-ok (set_literal (netiface env) asio l.name (codes "1.1.1.1")) _ _ s1 s2 _ run2 (
                >>=-ok (get_mtu env l.name) _ _ s2 s3 _ mtu
                  (>>=-ok (get_mac_address env l.name) _ _ s3 s4 _ mac run5))),
          links5,
          keeps5 32 one (is_four env k law scoped net (codes "1.1.1.1") one read_one) (
              ap (λ (h : Host Address). holds asio h.assigned (to_u32 l.index) 32 one)
                (kept4 ∙ kept3)
              ∙ there2),
          there_two,
          there_six,
          once,
          only5,
          trans-Elsewhere env law k.same_network two l (one ∷ two ∷ six ∷ []) (k.host s.world)
              (k.host s4.world) (k.host s5.world)
              (wider-Elsewhere env law k.same_network two l (one ∷ []) (one ∷ two ∷ six ∷ [])
                (k.host s.world) (k.host s4.world) (λ index x other. ground (arith, other)) front)
              (wider-Elsewhere env law k.same_network two l (two ∷ six ∷ []) (one ∷ two ∷ six ∷ [])
                (k.host s4.world) (k.host s5.world) (λ index x other. ground (arith, other))
                (relink-Elsewhere env law k.same_network two l 1500 false (two ∷ six ∷ [])
                  (k.host s4.world) (k.host s5.world) elsewhere5)),
        )

    run_eq :
        (iface_name : Text) (s s' : State World)
        → configure (netiface env) asio iface_name s ≡ (ok tt, s')
        → run (netiface env) asio iface_name s ≡ (ok tt, s')
    unfolding run handled
    run_eq iface_name s s' e =
        ap (λ p. (handled (catch_network_exception ∷ catch_std_exception ∷ []) p.0, p.1)) e

    main_eq :
        (parse : List Text → Parsed) (args : List Text) (ls : Loggers) (iface_name : Text)
        (debug : ℤ) (s s' : State World)
        → parse args ≡ parsed iface_name debug
        → run (netiface env) asio iface_name s ≡ (ok tt, s')
        → main (netiface env) asio parse args ls s ≡ (ok (pos 0), start_logging debug ls, s')
    unfolding main
    main_eq parse args ls iface_name debug s s' e r =
        rw (e, main) (ap (λ p. (then_do p.0 (λ _. ok (pos 0)), start_logging debug ls, p.1)) r)

    -- Where the kernel keeps its promises, and boost reads the program's three literals as two different
    -- IPv4 addresses and one IPv6 address without scope ids, which the kernel takes for a host: `main`
    -- returns 0 for the name of a host's interface with a MAC address of six bytes that allows the MTUs
    -- 1500 and then 8000, if 2.2.2.2 is on it at most once, with any prefix length, and the IPv6 address
    -- with none but 64. The loggers are set as -d says; of the host's links only this one is changed:
    -- its MTU is 8000, and it is down, since set_mtu clears its flags. The interface has the three
    -- addresses, with the prefix lengths 32, 32 and 64, 2.2.2.2 exactly once and the IPv6 address with no
    -- other prefix length. Beside them no address is new; those of other interfaces, and the IPv4
    -- addresses that are not in the network of 2.2.2.2, are there with exactly the prefix lengths with
    -- which they were.
    pub main_returns :
        (parse : List Text → Parsed) (args : List Text) (ls : Loggers) (debug : ℤ) (s : State World)
        (l : Link) (at : At l (k.host s.world).links) (one two six : Address)
        → parse args ≡ parsed l.name debug
        → All IsByte l.hwaddr
        → length l.hwaddr ≡ 6
        → k.allows l 1500 ≡ true
        → k.allows (record l { mtu = 1500; up = false }) 8000 ≡ true
        → Reads env k.reporting (codes "1.1.1.1") one 32
        → Reads env k.reporting (codes "2.2.2.2") two 32
        → Reads env k.reporting (codes "2001:db8:8714:3a90::12") six 64
        → scoped one ≡ false
        → scoped two ≡ false
        → scoped six ≡ false
        → k.takes one 32 ≡ true
        → k.takes two 32 ≡ true
        → k.takes six 64 ≡ true
        → asio.equal one two ≡ false
        → AtMostOnce env l two (k.host s.world).assigned
        → OnlyAs env k law l six 64 (k.host s.world)
        → (s' : State World) × (main (netiface env) asio parse args ls s
            ≡ (ok (pos 0), start_logging debug ls, s'))
          × ((k.host s'.world).links ≡ with_mtu at 8000)
          × (holds asio (k.host s'.world).assigned (to_u32 l.index) 32 one ≡ true)
          × (holds asio (k.host s'.world).assigned (to_u32 l.index) 32 two ≡ true)
          × (holds asio (k.host s'.world).assigned (to_u32 l.index) 64 six ≡ true)
          × Once env l two (k.host s'.world).assigned
          × OnlyAs env k law l six 64 (k.host s'.world)
          × Elsewhere env law k.same_network two l
              (one ∷ two ∷ six ∷ [])
              (k.host s.world)
              (k.host s'.world)
    main_returns parse args ls debug s l at one two six named bytes six_bytes allowed then_allowed
          read_one read_two read_six bare_one bare_two bare_six takes_one takes_two takes_six differ
          rare only =
        let (s1, reads, same, (none, elsewhere)) =
          first_calls_of env k.reporting law
            (λ h.
              (has asio h.assigned (to_u32 l.index) two ≡ false)
              × Elsewhere env law k.same_network two l (two ∷ []) (k.host s.world) h)
            s l at
            λ s3 kept.
              let (s4, del, links4, gone, elsewhere4) =
                del_literal_rare env k law scoped net s3 l (codes "2.2.2.2") two
                  (carried env k.reporting l (k.host s.world) (k.host s3.world) kept at) read_two
                  bare_two
                  (subst (λ (h : Host Address). AtMostOnce env l two h.assigned) (sym kept) rare) in
              (
                s4,
                del,
                links4 ∙ ap (λ (h : Host Address). h.links) kept,
                (
                  gone,
                  trans-Elsewhere env law k.same_network two l (two ∷ []) (k.host s.world)
                      (k.host s3.world) (k.host s4.world)
                      (same-Elsewhere env law k.same_network two l (two ∷ []) (k.host s.world)
                        (k.host s3.world) kept)
                      elsewhere4,
                ),
              ) in
        let at1 : At l (k.host s1.world).links = record {
          before = at.before;
          after = at.after;
          split = same ∙ at.split;
          others_before = at.others_before;
          others_after = at.others_after;
        } in
        let only1 : OnlyAs env k law l six 64 (k.host s1.world) =
          later-OnlyAs env k law two six l 64 (two ∷ []) (k.host s.world) (k.host s1.world)
            (ground
              (arith, four-ne-six env k law scoped net (codes "2.2.2.2") two six read_two read_six))
            elsewhere only in
        let (s2, changes, links, there_one, there_two, there_six, once, only2, elsewhere2) =
          middle_calls_At s1 l at1 one two six bytes six_bytes allowed then_allowed read_one
            read_two read_six bare_one bare_two bare_six takes_one takes_two takes_six differ none
            only1 in
        (
          s2,
          main_eq parse args ls l.name debug s s2 named (run_eq l.name s s2 (reads ∙ changes)),
          links,
          there_one,
          there_two,
          there_six,
          once,
          only2,
          trans-Elsewhere env law k.same_network two l (one ∷ two ∷ six ∷ []) (k.host s.world)
              (k.host s1.world) (k.host s2.world)
              (wider-Elsewhere env law k.same_network two l (two ∷ []) (one ∷ two ∷ six ∷ [])
                (k.host s.world) (k.host s1.world) (λ index x other. ground (arith, other))
                elsewhere)
              elsewhere2,
        )
