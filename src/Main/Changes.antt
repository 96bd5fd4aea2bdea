-- ===== src/Main/Changes.antt =====
-- The last calls of `main` on a host: the second MTU and the last two addresses.
use fnc.Prelude.{
  ℕ, ◌≡◌, refl, ◌⊎◌, ◌==◌, ==_iff, ◌&&◌, ◌||◌, List, ◌++◌, sym, ap, subst, ◌∙◌, arith, Bool, true,
  false, Bool-cases, inl, inr, [], ◌∷◌, Text, codes, if◌then◌else◌,
}
use fnc.Exceptions.{ok, catch_permission_denied, catch_std_exception}
use fnc.IpAddress.Build.{IsAsio}
use fnc.IpAddress.Sockets.{IsInet}
use fnc.Netlink.Kernel.{State}
use fnc.Netiface.{Env, get_mtu}
use fnc.Netiface.Callbacks.{to_u32}
use fnc.Netiface.Change.{set_mtu}
use fnc.Netiface.Class.{netiface}
use fnc.Netiface.Host.{Link, Host, At, with_mtu, Fewer, OnLink6, conflicts, holds, has}
use fnc.Netiface.Host.Once.{Once}
use fnc.Netiface.Host.Kernel.{Rtnetlink}
use fnc.Netiface.Host.Assigning.{WithAddress, assigned_to}
use fnc.Netiface.Host.Changes.{At-with_mtu, set_mtu_At}
use fnc.Netiface.Host.Reads.{get_mtu_At}
use fnc.Netiface.Host.Untouched.{is_one}
use fnc.Netiface.Host.Fewer.{Fewer-has, Fewer-stays}
use fnc.Netiface.Host.Holds.{has-some}
use fnc.Netiface.Addresses.{Assigned}
use fnc.Netiface.Host.Elsewhere.{
  Elsewhere, same-Elsewhere, trans-Elsewhere, wider-Elsewhere, Untouched-Elsewhere, down-Elsewhere,
}
use fnc.Netiface.Host.Twice.{links_same, then_holds}
use fnc.Main.{handled, set_literal, try_ipv6}
use fnc.Main.Begins.{last_calls}
use fnc.Main.Grown.{Grown, WithAddress-Grown}
use fnc.Exceptions.Laws.{>>=-ok}
use fnc.Main.Steps.{carried, Reads, set_literal_At}

module _ {World Address : Type 0} (env : Env World Address) (k : Rtnetlink env)
    (law : IsAsio env.asio) where
  open env use {sys, headers, asio, inet}

  -- The link has the address with no other prefix length.
  abbrev pub OnlyAs : Link → Address → ℕ → Host Address → Type 0
  OnlyAs l ip m h = (n : ℕ) → holds asio h.assigned (to_u32 l.index) n ip ≡ true → n ≡ m

  pub later-OnlyAs :
      (two ip : Address) (l : Link) (m : ℕ) (ips : List Address) (h h' : Host Address)
      → is_one env l ips (to_u32 l.index) ip ≡ false
      → Elsewhere env law k.same_network two l ips h h'
      → OnlyAs l ip m h
      → OnlyAs l ip m h'
  later-OnlyAs two ip l m ips h h' other elsewhere only n there =
      elim (Bool-cases (holds asio h.assigned (to_u32 l.index) n ip)) [
        | inl e ↦ only n e
        | inr e ↦ absurd (apart (elsewhere.none_new (to_u32 l.index) n ip other e))
      ]
    where
      apart : holds asio h'.assigned (to_u32 l.index) n ip ≡ false → ⊥
      apart e = cc

  -- It is assigned with this one.
  set-OnlyAs :
      (ip : Address) (l : Link) (m : ℕ) (h h' : Host Address)
      → WithAddress env h (assigned_to env l m ip) ip h'
      → OnlyAs l ip m h
      → OnlyAs l ip m h'
  set-OnlyAs ip l m h h' (inl (_, same)) only n there =
      only n
        (ap (λ (y : Host Address). holds asio y.assigned (to_u32 l.index) n ip) (sym same) ∙ there)
  set-OnlyAs ip l m h h' (inr (_, _, (before, after, old, new))) only n there =
      elim (Bool-cases (m == n)) [
        | inl e ↦ sym ((==_iff m n).0 e)
        | inr e ↦ only n (
            ap (λ es. holds asio es (to_u32 l.index) n ip) old
            ∙ sym (skip before after e)
            ∙ ap (λ es. holds asio es (to_u32 l.index) n ip) (sym new)
            ∙ there)
      ]
    where
      skip :
          (before after : List (Assigned × Address))
          → (m == n) ≡ false
          → holds asio (before ++ ((assigned_to env l m ip, ip) ∷ after)) (to_u32 l.index) n ip
            ≡ holds asio (before ++ after) (to_u32 l.index) n ip
      skip [] after e = ground (arith, e)
      skip ((b, y) ∷ before) after e =
          ap (λ r. (b.index == to_u32 l.index && (b.prefixlen == n && asio.equal y ip)) || r)
            (skip before after e)

  module _ (scoped : Address → Bool) (net : IsInet asio inet scoped) where
    -- set_literal, with what is left of it on the host.
    pub literal_At :
        (s : State World) (l : Link) (literal : Text) (ip : Address) (n : ℕ)
        → At l (k.host s.world).links
        → Reads env k.reporting literal ip n
        → scoped ip ≡ false
        → k.takes ip n ≡ true
        → (holds asio (k.host s.world).assigned (to_u32 l.index) n ip ≡ true)
          ⊎ (conflicts asio (k.host s.world).assigned (to_u32 l.index) n ip ≡ false)
        → (s' : State World) × (set_literal (netiface env) asio l.name literal s ≡ (ok tt, s'))
          × ((k.host s'.world).links ≡ (k.host s.world).links)
          × (holds asio (k.host s'.world).assigned (to_u32 l.index) n ip ≡ true)
          × (OnlyAs l ip n (k.host s.world) → OnlyAs l ip n (k.host s'.world))
          × Grown env l ip (k.host s.world) (k.host s'.world)
    literal_At s l literal ip n at r bare taken free =
        let (s', run, change) =
          set_literal_At env k law scoped net s l literal ip n at r bare taken free in
        let a = assigned_to env l n ip in
        (
          s',
          run,
          links_same env law (k.host s.world) (k.host s'.world) a ip change,
          then_holds env law (k.host s.world) (k.host s'.world) a ip change,
          set-OnlyAs ip l n (k.host s.world) (k.host s'.world) change,
          WithAddress-Grown env (k.host s.world) (k.host s'.world) l n ip change,
        )

    -- An IPv4 address can always be assigned, if it is not there with the same prefix length.
    pub free_four :
        (h : Host Address) (l : Link) (literal : Text) (ip : Address)
        → Reads env k.reporting literal ip 32
        → (holds asio h.assigned (to_u32 l.index) 32 ip ≡ true)
          ⊎ (conflicts asio h.assigned (to_u32 l.index) 32 ip ≡ false)
    free_four h l literal ip r = elim (Bool-cases (holds asio h.assigned (to_u32 l.index) 32 ip)) [
      | inl e ↦ inl e
      | inr e ↦ elim (Bool-cases (asio.is_v4 ip)) [
        | inl is4 ↦ inr (rw is4 e)
        | inr is6 ↦ absurd (too_long (sym r.prefix_length ∙ rw is6 refl))
      ]
    ]
      where
        too_long : ◌≡◌ {A = ℕ} 32 64 → ⊥
        too_long e = omega (arith, e)

    -- and an IPv6 address, if it is not there with another one.
    free_six :
        (h : Host Address) (l : Link) (six : Address)
        → Reads env k.reporting (codes "2001:db8:8714:3a90::12") six 64
        → OnlyAs l six 64 h
        → (holds asio h.assigned (to_u32 l.index) 64 six ≡ true)
          ⊎ (conflicts asio h.assigned (to_u32 l.index) 64 six ≡ false)
    free_six h l six r only = elim (Bool-cases (has asio h.assigned (to_u32 l.index) six)) [
      | inl e ↦
          let (n, there) = has-some asio h.assigned (to_u32 l.index) six e in
          inl
            (subst (λ m. holds asio h.assigned (to_u32 l.index) m six ≡ true) (only n there) there)
      | inr e ↦ elim (Bool-cases (asio.is_v4 six)) [
        | inr is6 ↦ inr (rw is6 e)
        | inl is4 ↦ absurd (too_short (sym r.prefix_length ∙ rw is4 refl))
      ]
    ]
      where
        too_short : ◌≡◌ {A = ℕ} 64 32 → ⊥
        too_short e = omega (arith, e)

    ipv6_At :
        (s : State World) (l : Link) (six : Address)
        → At l (k.host s.world).links
        → Reads env k.reporting (codes "2001:db8:8714:3a90::12") six 64
        → scoped six ≡ false
        → k.takes six 64 ≡ true
        → OnlyAs l six 64 (k.host s.world)
        → (s' : State World) × (try_ipv6 (netiface env) asio l.name s ≡ (ok tt, s'))
          × ((k.host s'.world).links ≡ (k.host s.world).links)
          × (holds asio (k.host s'.world).assigned (to_u32 l.index) 64 six ≡ true)
          × OnlyAs l six 64 (k.host s'.world)
          × Grown env l six (k.host s.world) (k.host s'.world)
    unfolding try_ipv6 handled
    ipv6_At s l six at r bare taken only =
        let (s', run, links, there, onlys, grown) =
          literal_At s l (codes "2001:db8:8714:3a90::12") six 64 at r bare taken
            (free_six (k.host s.world) l six r only) in
        (
          s',
          ap (λ p. (handled (catch_permission_denied ∷ catch_std_exception ∷ []) p.0, p.1)) run,
          links,
          there,
          onlys only,
          grown,
        )

    -- The addresses of the literals with 32 and with 64 bits differ.
    six-ne-four :
        (two six : Address)
        → Reads env k.reporting (codes "2.2.2.2") two 32
        → Reads env k.reporting (codes "2001:db8:8714:3a90::12") six 64
        → asio.equal six two ≡ false
    six-ne-four two six r r6 = elim (Bool-cases (asio.equal six two)) [
      | inl e ↦
          let same : six ≡ two = (law.equal_iff six two).0 e in
          let sizes : ◌≡◌ {A = ℕ} 64 32 =
            sym r6.prefix_length
            ∙ ap (λ a. if asio.is_v4 a then 32 else 64) same
            ∙ r.prefix_length in
          absurd (omega arith)
      | inr e ↦ e
    ]

    pub four-ne-six :
        (literal : Text) (ip six : Address)
        → Reads env k.reporting literal ip 32
        → Reads env k.reporting (codes "2001:db8:8714:3a90::12") six 64
        → asio.equal ip six ≡ false
    four-ne-six literal ip six r r6 = elim (Bool-cases (asio.equal ip six)) [
      | inl e ↦
          let same : ip ≡ six = (law.equal_iff ip six).0 e in
          let sizes : ◌≡◌ {A = ℕ} 64 32 =
            sym r6.prefix_length
            ∙ ap (λ a. if asio.is_v4 a then 32 else 64) (sym same)
            ∙ r.prefix_length in
          absurd (omega arith)
      | inr e ↦ e
    ]

    pub is_four :
        (literal : Text) (ip : Address) → Reads env k.reporting literal ip 32 → asio.is_v4 ip ≡ true
    is_four literal ip r = ground (arith, r.prefix_length)

    -- An IPv4 address stays on a link that is taken down.
    down_keeps :
        (h h1 h2 : Host Address) (l : Link) (n : ℕ) (x : Address)
        → Fewer (OnLink6 asio (to_u32 l.index)) h.assigned h1.assigned
        → h2 ≡ h1
        → asio.is_v4 x ≡ true
        → holds asio h.assigned (to_u32 l.index) n x ≡ true
        → holds asio h2.assigned (to_u32 l.index) n x ≡ true
    down_keeps h h1 h2 l n x fewer kept four e =
        ap (λ (y : Host Address). holds asio y.assigned (to_u32 l.index) n x) kept
        ∙ Fewer-stays asio _ h.assigned h1.assigned (to_u32 l.index) n x fewer (λ a y q.
          elim (Bool-cases (asio.equal y x)) [
            | inl same ↦ absurd (apart y q.1 ((law.equal_iff y x).0 same))
            | inr other ↦ ground (arith, other)
          ])
        ∙ e
      where
        apart : (y : Address) → asio.is_v4 y ≡ false → y ≡ x → ⊥
        apart y six same = let is : asio.is_v4 y ≡ asio.is_v4 x = ap asio.is_v4 same in cc

    pub last_calls_At :
        (s : State World) (l : Link) (at : At l (k.host s.world).links) (two six : Address)
        → k.allows l 8000 ≡ true
        → Reads env k.reporting (codes "2.2.2.2") two 32
        → Reads env k.reporting (codes "2001:db8:8714:3a90::12") six 64
        → scoped two ≡ false
        → scoped six ≡ false
        → k.takes two 32 ≡ true
        → k.takes six 64 ≡ true
        → has asio (k.host s.world).assigned (to_u32 l.index) two ≡ false
        → OnlyAs l six 64 (k.host s.world)
        → (s' : State World) × (last_calls env l.name s ≡ (ok tt, s'))
          × ((k.host s'.world).links ≡ with_mtu at 8000)
          × (holds asio (k.host s'.world).assigned (to_u32 l.index) 32 two ≡ true)
          × (holds asio (k.host s'.world).assigned (to_u32 l.index) 64 six ≡ true)
          × Once env l two (k.host s'.world).assigned
          × OnlyAs l six 64 (k.host s'.world)
          × ((n : ℕ) (x : Address)
              → asio.is_v4 x ≡ true
              → holds asio (k.host s.world).assigned (to_u32 l.index) n x ≡ true
              → holds asio (k.host s'.world).assigned (to_u32 l.index) n x ≡ true)
          × Elsewhere env law k.same_network two l
              (two ∷ six ∷ [])
              (k.host s.world)
              (k.host s'.world)
    last_calls_At s l at two six allowed read_two read_six bare_two bare_six takes_two takes_six
          none only =
        let (s1, sets, changed, fewer) = set_mtu_At env k s l at 8000 (omega arith) allowed in
        let l' : Link = record l { mtu = 8000; up = false } in
        let at1 : At l' (k.host s1.world).links =
          subst (At l') (sym changed) (At-with_mtu env k at 8000) in
        let down =
          down-Elsewhere env law k.same_network two l (k.host s.world) (k.host s1.world) fewer in
        let (s2, reads, kept2) = get_mtu_At env k.reporting s1 l' at1 (omega arith) in
        let down2 : Elsewhere env law k.same_network two l [] (k.host s.world) (k.host s2.world) =
          trans-Elsewhere env law k.same_network two l [] (k.host s.world) (k.host s1.world)
            (k.host s2.world) down
            (same-Elsewhere env law k.same_network two l [] (k.host s1.world) (k.host s2.world)
              kept2) in
        let none2 : has asio (k.host s2.world).assigned (to_u32 l.index) two ≡ false =
          ap (λ (h : Host Address). has asio h.assigned (to_u32 l.index) two) kept2
          ∙ Fewer-has asio _ (k.host s.world).assigned (k.host s1.world).assigned (to_u32 l.index)
              two fewer none in
        let (s3, run3, links3, there3, _, grown3) =
          literal_At s2 l' (codes "2.2.2.2") two 32
            (carried env k.reporting l' (k.host s1.world) (k.host s2.world) kept2 at1) read_two
            bare_two takes_two (free_four (k.host s2.world) l' (codes "2.2.2.2") two read_two) in
        let set3 =
          Untouched-Elsewhere env law k.same_network two l (two ∷ []) (k.host s2.world)
            (k.host s3.world) grown3.elsewhere in
        let only3 : OnlyAs l six 64 (k.host s3.world) =
          later-OnlyAs two six l 64 (two ∷ []) (k.host s2.world) (k.host s3.world)
            (ground (arith, four-ne-six (codes "2.2.2.2") two six read_two read_six)) set3
            (later-OnlyAs two six l 64 [] (k.host s.world) (k.host s2.world) (ground arith) down2
              only) in
        let (s4, run4, links4, there4, only4, grown4) =
          ipv6_At s3 l' six
            (subst (At l') (sym links3)
              (carried env k.reporting l' (k.host s1.world) (k.host s2.world) kept2 at1))
            read_six bare_six takes_six only3 in
        let set4 =
          Untouched-Elsewhere env law k.same_network two l (six ∷ []) (k.host s3.world)
            (k.host s4.world) grown4.elsewhere in
        (
          s4,
          >>=-ok (set_mtu env l.name 8000) _ _ s s1 _ sets (
              >>=-ok (get_mtu env l.name) _ _ s1 s2 _ reads (
                >>=-ok (set_literal (netiface env) asio l.name (codes "2.2.2.2")) _ _ s2 s3 _ run3
                  run4)),
          links4 ∙ links3 ∙ ap (λ (h : Host Address). h.links) kept2 ∙ changed,
          grown4.keeps (to_u32 l.index) 32 two there3,
          there4,
          grown4.others two (six-ne-four two six read_two read_six) (grown3.itself none2),
          only4,
          λ n x four e. grown4.keeps (to_u32 l.index) n x (
              grown3.keeps (to_u32 l.index) n x (
                down_keeps (k.host s.world) (k.host s1.world) (k.host s2.world) l n x fewer kept2
                  four e)),
          trans-Elsewhere env law k.same_network two l (two ∷ six ∷ []) (k.host s.world)
              (k.host s2.world) (k.host s4.world)
              (wider-Elsewhere env law k.same_network two l [] (two ∷ six ∷ []) (k.host s.world)
                (k.host s2.world) (λ index x other. ground arith) down2)
              (trans-Elsewhere env law k.same_network two l (two ∷ six ∷ []) (k.host s2.world)
                (k.host s3.world) (k.host s4.world)
                (wider-Elsewhere env law k.same_network two l (two ∷ []) (two ∷ six ∷ [])
                  (k.host s2.world) (k.host s3.world) (λ index x other. ground (arith, other)) set3)
                (wider-Elsewhere env law k.same_network two l (six ∷ []) (two ∷ six ∷ [])
                  (k.host s3.world) (k.host s4.world) (λ index x other. ground (arith, other))
                  set4)),
        )
