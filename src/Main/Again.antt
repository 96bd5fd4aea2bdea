-- ===== src/Main/Again.antt =====
-- The program, executed again and again on one host.
use fnc.Prelude.{
  ℕ, ◌≡◌, ap, ◌∙◌, ℤ, pos, Bool, true, false, inr, List, [], ◌∷◌, All, length, map, Text, codes,
}
use fnc.Exceptions.{Outcome, ok}
use fnc.IpAddress.{Asio}
use fnc.IpAddress.Build.{IsAsio}
use fnc.IpAddress.Sockets.{IsInet}
use fnc.Logging.{Loggers, at_start}
use fnc.MacAddress.Bytes.{IsByte}
use fnc.Netlink.Kernel.{State}
use fnc.Netiface.{Env}
use fnc.Netiface.Callbacks.{to_u32}
use fnc.Netiface.Class.{NetifaceClass, netiface}
use fnc.Netiface.Host.{Link, Host, At, with_mtu, holds}
use fnc.Netiface.Host.Kernel.{Rtnetlink}
use fnc.Netiface.Host.Elsewhere.{Elsewhere, trans-Elsewhere, relink-Elsewhere}
use fnc.Main.Changes.{OnlyAs}
use fnc.Netiface.Host.Once.{Once, AtMostOnce}
use fnc.Main.{Parsed, parsed, main}
use fnc.Main.Steps.{Reads}
use fnc.Main.Whole.{main_returns}

module _ {World Address : Type 0} (class : NetifaceClass World Address) (asio : Asio Address)
    (parse : List Text → Parsed) where
  -- One process behind the other, each with its arguments: every one begins with its static variables
  -- as they are initialised, on what the one before has left outside.
  pub executions : List (List Text) → World → List (Outcome ℤ) × World
  executions [] w = ([], w)
  executions (args ∷ rest) w =
      let (r, ls, s) = main class asio parse args at_start (record { session = 0; world = w }) in
      let (rs, w') = executions rest s.world in (r ∷ rs, w')

  executed :
      (args : List Text) (rest : List (List Text)) (w : World) (s : State World) (ls : Loggers)
      (result : Outcome ℤ) (results : List (Outcome ℤ)) (w' : World)
      → main class asio parse args at_start (record { session = 0; world = w }) ≡ (result, ls, s)
      → executions rest s.world ≡ (results, w')
      → executions (args ∷ rest) w ≡ (result ∷ results, w')
  unfolding executions
  executed args rest w s ls result results w' run again =
      ap (λ p. (p.0 ∷ (executions rest p.2.world).0, (executions rest p.2.world).1)) run
      ∙ ap (λ q. (result ∷ q.0, q.1)) again

module _ {World Address : Type 0} (env : Env World Address) (law : IsAsio env.asio)
    (same_network : ℕ → Address → Address → Bool) where
  open env use {asio}

  -- What executions leave of the host that was there before them.
  pub record Configured (l : Link) {links : List Link} (at : At l links) (one two six : Address)
      (before h : Host Address) : Type 0 where
    pub mtu_set : h.links ≡ with_mtu at 8000
    pub has_one : holds asio h.assigned (to_u32 l.index) 32 one ≡ true
    pub has_two : holds asio h.assigned (to_u32 l.index) 32 two ≡ true
    pub has_six : holds asio h.assigned (to_u32 l.index) 64 six ≡ true
    pub once_two : Once env l two h.assigned
    pub elsewhere : Elsewhere env law same_network two l (one ∷ two ∷ six ∷ []) before h

module _ {World Address : Type 0} (env : Env World Address) (k : Rtnetlink env)
    (law : IsAsio env.asio) (scoped : Address → Bool) (net : IsInet env.asio env.inet scoped) where
  open env use {asio}

  -- Where the kernel keeps its promises, and boost reads the program's three literals as two different
  -- IPv4 addresses and one IPv6 address without scope ids, which the kernel takes for a host: however
  -- often the program is executed for a host's interface that has a MAC address of six bytes and allows
  -- the MTUs 1500 and 8000, up or down and whatever its MTU is, and that has 2.2.2.2 at most once and the
  -- IPv6 address with no prefix length but 64 at the start, every execution returns 0. Behind them the
  -- interface has the MTU 8000 and is down, it has the three addresses, with the prefix lengths 32, 32
  -- and 64, and 2.2.2.2 exactly once, and no other link of the host is changed. Beside these no address
  -- is new; those of other interfaces, and the IPv4 addresses that are not in the network of 2.2.2.2, are
  -- there with exactly the prefix lengths with which they were at the start.
  pub executions_return :
      (parse : List Text → Parsed) (l : Link) (one two six : Address)
      → All IsByte l.hwaddr
      → length l.hwaddr ≡ 6
      → ((mtu : ℕ) (up : Bool)
          → (k.allows (record l { mtu = mtu; up = up }) 1500 ≡ true)
            × (k.allows (record l { mtu = mtu; up = up }) 8000 ≡ true))
      → Reads env k.reporting (codes "1.1.1.1") one 32
      → Reads env k.reporting (codes "2.2.2.2") two 32
      → Reads env k.reporting (codes "2001:db8:8714:3a90::12") six 64
      → scoped one ≡ false
      → scoped two ≡ false
      → scoped six ≡ false
      → k.takes one 32 ≡ true
      → k.takes two 32 ≡ true
      → k.takes six 64 ≡ true
      → asio.equal one two ≡ false
      → (args : List Text) (rest : List (List Text))
      → All (λ a. (debug : ℤ) × (parse a ≡ parsed l.name debug)) (args ∷ rest)
      → (w : World) (at : At l (k.host w).links) → AtMostOnce env l two (k.host w).assigned
      → OnlyAs env k law l six 64 (k.host w)
      → (w' : World) × (executions (netiface env) asio parse (args ∷ rest) w
          ≡ (map (λ a. ok (pos 0)) (args ∷ rest), w'))
        × Configured env law k.same_network l at one two six (k.host w) (k.host w')
  unfolding executions
  executions_return parse l one two six bytes six_bytes allowed r1 r2 r6 b1 b2 b6 t1 t2 t6 differ
        args [] ((debug, named), _) w at rare only =
      let (s', run, links, has_one, has_two, has_six, once, _, elsewhere) =
        main_returns env k law scoped net parse args at_start debug
          (record { session = 0; world = w }) l at one two six named bytes six_bytes
          (allowed l.mtu l.up).0 (allowed 1500 false).1 r1 r2 r6 b1 b2 b6 t1 t2 t6 differ rare
          only in
      (
        s'.world,
        ap (λ p. (p.0 ∷ [], p.2.world)) run,
        record {
          mtu_set = links;
          has_one = has_one;
          has_two = has_two;
          has_six = has_six;
          once_two = once;
          elsewhere = elsewhere;
        },
      )
  executions_return parse l one two six bytes six_bytes allowed r1 r2 r6 b1 b2 b6 t1 t2 t6 differ
        args (next ∷ rest) ((debug, named), more) w at rare only =
      let (s', run, links, _, _, _, once, only', elsewhere) =
        main_returns env k law scoped net parse args at_start debug
          (record { session = 0; world = w }) l at one two six named bytes six_bytes
          (allowed l.mtu l.up).0 (allowed 1500 false).1 r1 r2 r6 b1 b2 b6 t1 t2 t6 differ rare
          only in
      let l' : Link = record l { mtu = 8000; up = false } in
      let at' : At l' (k.host s'.world).links = record {
        before = at.before;
        after = at.after;
        split = links;
        others_before = at.others_before;
        others_after = at.others_after;
      } in
      let (w', again, left) =
        executions_return parse l' one two six bytes six_bytes allowed r1 r2 r6 b1 b2 b6 t1 t2 t6
          differ next rest more s'.world at' (inr once) only' in
      (
        w',
        executed (netiface env) asio parse args (next ∷ rest) w s' _ _ _ _ run again,
        record {
          mtu_set = left.mtu_set;
          has_one = left.has_one;
          has_two = left.has_two;
          has_six = left.has_six;
          once_two = left.once_two;
          elsewhere =
              trans-Elsewhere env law k.same_network two l (one ∷ two ∷ six ∷ []) (k.host w)
                (k.host s'.world) (k.host w') elsewhere
                (relink-Elsewhere env law k.same_network two l 8000 false (one ∷ two ∷ six ∷ [])
                  (k.host s'.world) (k.host w') left.elsewhere);
        },
      )
