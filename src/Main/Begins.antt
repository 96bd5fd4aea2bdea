-- ===== src/Main/Begins.antt =====
-- The calls with which `main` begins, on a host that the kernel reports.
use fnc.Prelude.{ℕ, ◌≡◌, refl, sym, ap, subst, ◌∙◌, false, Bool-cases, inl, inr, Text, codes}
use fnc.Exceptions.{ok, M, ◌>>◌}
use fnc.IpAddress.Build.{IsAsio}
use fnc.Netlink.Kernel.{State}
use fnc.Netiface.{
  Env, get_index, get_mtu, get_iface_names, construct_netiface, get_ip_addresses, get_mac_address,
}
use fnc.Netiface.Callbacks.{to_u32, family_v4, family_v6, family_all}
use fnc.Netiface.Change.{set_mtu}
use fnc.Netiface.Class.{netiface}
use fnc.Netiface.Host.{Link, Host, At, has}
use fnc.Netiface.Host.Kernel.{Reporting}
use fnc.Netiface.Host.Deleting.{found_on}
use fnc.Netiface.Host.Reads.{get_index_At}
use fnc.Netiface.Host.Holds.{has-holds}
use fnc.Main.{set_literal, del_literal, configure}
use fnc.Exceptions.Laws.{>>=-ok}
use fnc.Main.Steps.{carried, Reads, construct_At, get_ip_addresses_At, del_literal_absent}
use fnc.Main.{try_ipv6}

module _ {World Address : Type 0} (env : Env World Address) where
  open env use {asio}

  -- What main does after it has read the MAC address.
  abbrev pub last_calls : Text → M (State World) (Unit {0})
  last_calls nic =
      set_mtu env nic 8000
      >> (get_mtu env nic
          >> (set_literal (netiface env) asio nic (codes "2.2.2.2")
              >> try_ipv6 (netiface env) asio nic))

  -- What main does after the reads with which it begins.
  abbrev pub middle_calls : Text → M (State World) (Unit {0})
  middle_calls nic =
      set_mtu env nic 1500
      >> (set_literal (netiface env) asio nic (codes "1.1.1.1")
          >> (get_mtu env nic >> (get_mac_address env nic >> last_calls nic)))

module _ {World Address : Type 0} (env : Env World Address) (k : Reporting env)
    (law : IsAsio env.asio) where
  open env use {sys, headers, asio, inet}

  not-found :
      (h : Host Address) (l : Link) (ip : Address) (n : ℕ)
      → has asio h.assigned (to_u32 l.index) ip ≡ false
      → found_on env h l ip n ≡ false
  not-found h l ip n absent = elim (Bool-cases (asio.is_v4 ip)) [
    | inl e ↦ rw e absent
    | inr e ↦ rw e (has-holds asio h.assigned (to_u32 l.index) n ip absent)
  ]

  -- The reads leave the host as the deletion has left it.
  pub first_calls_of :
      (P : Host Address → Type 0) (s : State World) (l : Link)
      → At l (k.host s.world).links
      → ((s3 : State World)
          → k.host s3.world ≡ k.host s.world
          → (s4 : State World) × (del_literal (netiface env) asio l.name (codes "2.2.2.2") s3
              ≡ (ok tt, s4))
            × ((k.host s4.world).links ≡ (k.host s.world).links)
            × P (k.host s4.world))
      → (s' : State World) × (configure (netiface env) asio l.name s ≡ middle_calls env l.name s')
        × ((k.host s'.world).links ≡ (k.host s.world).links)
        × P (k.host s'.world)
  unfolding configure
  first_calls_of P s l at deletes =
      let (s1, names, _, kept1) = construct_At env k s l at in
      let at1 = carried env k l (k.host s.world) (k.host s1.world) kept1 at in
      let (s2, _, construct, kept2) = construct_At env k s1 l at1 in
      let at2 = carried env k l (k.host s1.world) (k.host s2.world) kept2 at1 in
      let (s3, index, kept3) = get_index_At env k s2 l at2 in
      let (s4, del, links4, holds4) = deletes s3 (kept3 ∙ kept2 ∙ kept1) in
      let at4 = subst (At l) (sym links4) at in
      let (_, s5, all, kept5) = get_ip_addresses_At env k s4 l family_all at4 in
      let at5 = carried env k l (k.host s4.world) (k.host s5.world) kept5 at4 in
      let (_, s6, v4, kept6) = get_ip_addresses_At env k s5 l family_v4 at5 in
      let at6 = carried env k l (k.host s5.world) (k.host s6.world) kept6 at5 in
      let (_, s7, v6, kept7) = get_ip_addresses_At env k s6 l family_v6 at6 in
      let kept : k.host s7.world ≡ k.host s4.world = kept7 ∙ kept6 ∙ kept5 in
      (
        s7,
        >>=-ok (get_iface_names env) _ _ s s1 _ names (
            >>=-ok (construct_netiface env l.name) _ _ s1 s2 _ construct (
              >>=-ok (get_index env l.name) _ _ s2 s3 _ index (
                >>=-ok (del_literal (netiface env) asio l.name (codes "2.2.2.2")) _ _ s3 s4 _ del (
                  >>=-ok (get_ip_addresses env l.name family_all) _ _ s4 s5 _ all (
                    >>=-ok (get_ip_addresses env l.name family_v4) _ _ s5 s6 _ v4
                      (>>=-ok (get_ip_addresses env l.name family_v6) _ _ s6 s7 _ v6 refl)))))),
        ap (λ (h : Host Address). h.links) kept ∙ links4,
        subst P (sym kept) holds4,
      )

  -- Without the address that is deleted, the host stays as it is.
  pub first_calls :
      (s : State World) (l : Link) (two : Address)
      → At l (k.host s.world).links
      → Reads env k (codes "2.2.2.2") two 32
      → has asio (k.host s.world).assigned (to_u32 l.index) two ≡ false
      → (s' : State World) × (configure (netiface env) asio l.name s ≡ middle_calls env l.name s')
        × (k.host s'.world ≡ k.host s.world)
  first_calls s l two at r absent =
      let (s', run, _, kept) =
        first_calls_of (λ h. h ≡ k.host s.world) s l at
          λ s3 same.
            let (s4, del, kept4) =
              del_literal_absent env k law s3 l (codes "2.2.2.2") two 32
                (carried env k l (k.host s.world) (k.host s3.world) same at) r
                (not-found (k.host s3.world) l two 32 (
                  ap (λ (h : Host Address). has asio h.assigned (to_u32 l.index) two) same
                  ∙ absent)) in
            (s4, del, ap (λ (h : Host Address). h.links) (kept4 ∙ same), kept4 ∙ same) in
      (s', run, kept)
