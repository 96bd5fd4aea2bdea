-- ===== src/Netiface/Host/Deleting.antt =====
-- The steps of del_ip_address on a host, and that it leaves alone a host without the address.
use fnc.Prelude.{
  ℕ, ◌<◌, ◌≡◌, refl, sym, ap, subst, ◌∙◌, ◌⊎◌, arith, pos, Bool, true, false, not, Bool-cases, inl,
  inr, if◌then◌else◌,
}
use fnc.Exceptions.{ok, pure, lift, ◌>>=◌}
use fnc.ContainerUtil.{contains}
use fnc.IpAddress.{build, ip_eq}
use fnc.IpAddress.Build.{IsAsio, without_prefix_lem}
use fnc.Netlink.Kernel.{State}
use fnc.Netiface.{Env, get_ip_addresses, get_ip_addresses_impl}
use fnc.Netiface.Addresses.{all_returned}
use fnc.Netiface.Callbacks.{family_all, to_u32}
use fnc.Netiface.Change.{still_there, is_gone, delete_prefix, remove_address, del_ip_address}
use fnc.Netiface.Change.Deletion.{still_there_lem}
use fnc.Netiface.Host.{Link, Host, At, holds, has}
use fnc.Netiface.Host.Kernel.{Reporting}
use fnc.Netiface.Host.Holds.{contains-holds, any-has, contains-has}
use fnc.Netiface.Host.Reads.{get_ip_addresses_impl_At}

module _ {World Address : Type 0} (env : Env World Address) where
  open env use {headers, asio, inet}

  -- The test of del_ip_address on a host: an IPv4 address of any prefix length, an IPv6 address of this one.
  abbrev pub found_on : Host Address → Link → Address → ℕ → Bool
  found_on h l ip n =
      if asio.is_v4 ip
      then has asio h.assigned (to_u32 l.index) ip
      else holds asio h.assigned (to_u32 l.index) n ip

  -- The prefix length of the request.
  abbrev pub sent_prefix : Address → ℕ → ℕ
  sent_prefix ip n = if asio.is_v4 ip then 32 else n

  pub delete_prefix_eq :
      (ip : Address) (n : ℕ) → delete_prefix env (build asio ip (pos n)) ≡ pos (sent_prefix ip n)
  unfolding build
  delete_prefix_eq ip n = elim (Bool-cases (asio.is_v4 ip)) [
    | inl e ↦ rw e refl
    | inr e ↦ rw e refl
  ]

  pub sent_prefix-256 : (ip : Address) (n : ℕ) → n < 256 → sent_prefix ip n < 256
  sent_prefix-256 ip n small = ground (arith, small)

  pub prefix_matches :
      (ip : Address) (n m : ℕ)
      → (asio.is_v4 ip ≡ true) ⊎ (n ≡ m)
      → (asio.is_v4 ip ≡ true) ⊎ (sent_prefix ip n ≡ m)
  prefix_matches ip n m (inl e) = inl e
  prefix_matches ip n m (inr e) = elim (Bool-cases (asio.is_v4 ip)) [
    | inl f ↦ inl f
    | inr f ↦ inr (rw f e)
  ]

module _ {World Address : Type 0} (env : Env World Address) (k : Reporting env)
    (law : IsAsio env.asio) where
  open env use {sys, headers, asio, inet}

  still_there_At :
      (h : Host Address) (l : Link) (ip : Address) (n : ℕ)
      → still_there env
          (build asio ip (pos n))
          (all_returned headers asio inet family_all true (to_u32 l.index) h.assigned)
        ≡ ok (found_on env h l ip n)
  unfolding build
  still_there_At h l ip n =
      still_there_lem env law (build asio ip (pos n)) _
      ∙ ap ok (
          ap
            (λ b.
              if asio.is_v4 ip
              then b
              else contains (ip_eq asio)
                  (all_returned headers asio inet family_all true (to_u32 l.index) h.assigned)
                  (build asio ip (pos n)))
            (any-has asio law headers inet h.assigned ip (to_u32 l.index))
          ∙ ap (λ b. if asio.is_v4 ip then has asio h.assigned (to_u32 l.index) ip else b)
              (contains-holds asio law headers inet h.assigned ip (to_u32 l.index) n))

  -- The condition that del_ip_address waits for, on a host.
  pub is_gone_At :
      (t : State World) (l : Link) (ip : Address) (n : ℕ)
      → At l (k.host t.world).links
      → (u : State World) × (is_gone env l.name (build asio ip (pos n)) t
          ≡ (ok (not (has asio (k.host t.world).assigned (to_u32 l.index) ip)), u))
        × (k.host u.world ≡ k.host t.world)
  unfolding build
  is_gone_At t l ip n at =
      let (u, read, kept) = get_ip_addresses_impl_At env k t l family_all false at in
      (
        u,
        subst
            (λ r.
              (get_ip_addresses_impl env l.name family_all false >>= λ ips.
              lift r >>= λ bare. pure (not (contains (ip_eq asio) ips bare)))
                t
              ≡ (ok (not (has asio (k.host t.world).assigned (to_u32 l.index) ip)), u))
            (sym (without_prefix_lem asio law (build asio ip (pos n))))
            (rw read (
              ap (λ b. (ok (not b), u))
                (contains-has asio law headers inet (k.host t.world).assigned ip
                  (to_u32 l.index)))),
        kept,
      )

  -- The addresses are asked for twice before the test.
  pub tested :
      (s : State World) (l : Link) (ip : Address) (n : ℕ)
      → At l (k.host s.world).links
      → (s2 : State World) × (del_ip_address env l.name (build asio ip (pos n)) s
          ≡ (if found_on env (k.host s.world) l ip n
                then remove_address env l.name (build asio ip (pos n))
                else pure tt)
              s2)
        × (k.host s2.world ≡ k.host s.world)
  unfolding del_ip_address get_ip_addresses
  tested s l ip n at_l =
      let (s1, read1, kept1) = get_ip_addresses_impl_At env k s l family_all true at_l in
      let (s2, read2, kept2) =
        get_ip_addresses_impl_At env k s1 l family_all true
          (subst (λ h. At l h.links) (sym kept1) at_l) in
      (
        s2,
        rw (read1, read2, still_there_At (k.host s1.world) l ip n)
            (ap
              (λ h.
                (if found_on env h l ip n
                    then remove_address env l.name (build asio ip (pos n))
                    else pure tt)
                  s2)
              kept1),
        kept2 ∙ kept1,
      )

  -- Where the kernel keeps its promises, del_ip_address returns and changes nothing of the host, if the
  -- interface does not have the address, an IPv4 address with any prefix length or an IPv6 address
  -- with the one that is asked for.
  pub del_ip_address_absent :
      (s : State World) (l : Link) (ip : Address) (n : ℕ)
      → At l (k.host s.world).links
      → found_on env (k.host s.world) l ip n ≡ false
      → (s' : State World) × (del_ip_address env l.name (build asio ip (pos n)) s ≡ (ok tt, s'))
        × (k.host s'.world ≡ k.host s.world)
  del_ip_address_absent s l ip n at_l absent =
      let (s2, run, kept) = tested s l ip n at_l in (s2, run ∙ rw absent refl, kept)
