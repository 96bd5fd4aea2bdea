-- ===== src/Netiface/Change/Deletion.antt =====
-- What holds when del_ip_address returns, whatever the kernel does.
use fnc.Prelude.{
  ◌≡◌, ap, subst, ◌∙◌, ◌⊎◌, inl, inr, arith, negsuc, Bool, true, false, not, Bool-cases, List, any,
  Text, if◌then◌else◌,
}
use fnc.Exceptions.{Outcome, ok, pure, lift, ◌>>=◌}
use fnc.Exceptions.Laws.{>>=-eq-ok}
use fnc.ContainerUtil.{contains}
use fnc.ContainerUtil.Laws.{contains_if-any}
use fnc.IpAddress.{IpAddress, ip_eq, build}
use fnc.IpAddress.Equality.{ip_eq-build}
use fnc.IpAddress.Build.{IsAsio, without_prefix_lem}
use fnc.Netlink.Kernel.{State}
use fnc.Netiface.{Env, get_index, get_ip_addresses, get_ip_addresses_impl, clock}
use fnc.Netiface.Callbacks.{family_all}
use fnc.Netiface.Change.{still_there, same_without_prefix, is_gone, remove_address, del_ip_address}
use fnc.Netiface.Change.Outcomes.{wait_for-eq-ok, tested-eq-ok, exchange_then-eq-ok, Closes}

not-true : (b : Bool) → not b ≡ true → b ≡ false
not-true b h = ground arith

module _ {World Address : Type 0} (env : Env World Address) where
  open env use {sys, asio, headers, rounds, tries}

  -- When del_ip_address returns, where boost's addresses are as documented, either the addresses
  -- have just been read and the test for the address has not found it, or the addresses, read
  -- without their prefixes, have just been seen not to hold it without its prefix, and since then
  -- at most a socket has been closed.
  pub del_ip_address-is_gone :
      IsAsio asio
      → (name : Text) (address : IpAddress Address) (s s' : State World)
      → del_ip_address env name address s ≡ (ok tt, s')
      → ((t : State World) × (ips : List (IpAddress Address)) × (get_ip_addresses env name
              family_all t
            ≡ (ok ips, s'))
          × (still_there env address ips ≡ ok false))
        ⊎ ((t : State World) × (u : State World) × (ips : List (IpAddress Address))
            × (get_ip_addresses_impl env name family_all false t ≡ (ok ips, u))
            × (contains (ip_eq asio) ips (build asio address.address (negsuc 0)) ≡ false)
            × Closes env u s')
  unfolding del_ip_address remove_address
  del_ip_address-is_gone law name address s s' h =
      let (_, s1, _, h1) = >>=-eq-ok (get_ip_addresses env name family_all) _ h in
      let (ips, s2, read, h2) = >>=-eq-ok (get_ip_addresses env name family_all) _ h1 in
      let (there, s3, tested, h3) = >>=-eq-ok (lift (still_there env address ips)) _ h2 in
      go ips s1 s2 read there s3 tested h3
    where
      gone :
          (t u : State World)
          → is_gone env name address t ≡ (ok true, u)
          → (ips : List (IpAddress Address)) × (get_ip_addresses_impl env name family_all false t
              ≡ (ok ips, u))
            × (contains (ip_eq asio) ips (build asio address.address (negsuc 0)) ≡ false)
      gone t u passed =
          let (ips, read, missing) =
            tested-eq-ok (get_ip_addresses_impl env name family_all false)
              (λ ips. not (contains (ip_eq asio) ips (build asio address.address (negsuc 0)))) true
              t u
              (subst
                (λ r.
                  (get_ip_addresses_impl env name family_all false >>= λ ips.
                  lift r >>= λ bare. pure (not (contains (ip_eq asio) ips bare)))
                    t
                  ≡ (ok true, u))
                (without_prefix_lem asio law address) passed) in
          (ips, read, not-true _ missing)

      go :
          (ips : List (IpAddress Address)) (s1 s2 : State World)
          → get_ip_addresses env name family_all s1 ≡ (ok ips, s2)
          → (there : Bool) (s3 : State World)
          → lift (still_there env address ips) s2 ≡ (ok there, s3)
          → (if there then remove_address env name address else pure tt) s3 ≡ (ok tt, s')
          → ((t : State World) × (ips : List (IpAddress Address)) × (get_ip_addresses env name
                  family_all t
                ≡ (ok ips, s'))
              × (still_there env address ips ≡ ok false))
            ⊎ ((t : State World) × (u : State World) × (ips : List (IpAddress Address))
                × (get_ip_addresses_impl env name family_all false t ≡ (ok ips, u))
                × (contains (ip_eq asio) ips (build asio address.address (negsuc 0)) ≡ false)
                × Closes env u s')
      go ips s1 s2 read true s3 tested k =
          let (idx, s4, _, k1) = >>=-eq-ok (get_index env name) _ k in
          let (s5, u, k2, closes) = exchange_then-eq-ok env _ _ _ _ s4 s' k1 in
          let (t, passed) =
            wait_for-eq-ok (clock env) tries 500 50 _ (is_gone env name address) s5 u k2 in
          let (ips, read, missing) = gone t u passed in inr (t, u, ips, read, missing, closes)
      go ips s1 s2 read false s3 tested k =
          let at_end : s2 ≡ s' =
            ap (λ (r : Outcome Bool × State World). r.1) tested
            ∙ ap (λ (r : Outcome (Unit {0}) × State World). r.1) k in
          inl (
            s1,
            ips,
            subst (λ u. get_ip_addresses env name family_all s1 ≡ (ok ips, u)) at_end read,
            ap (λ (r : Outcome Bool × State World). r.0) tested,
          )

  -- What the test of del_ip_address finds, where boost's addresses are as documented: for an IPv4
  -- address, whether the list holds an address with the same boost address, whatever its prefix
  -- length and scope; for an IPv6 address, whether it holds this address with this prefix length
  -- and scope.
  pub still_there_lem :
      IsAsio asio
      → (address : IpAddress Address) (ips : List (IpAddress Address))
      → still_there env address ips
        ≡ ok (
            if asio.is_v4 address.address
            then any (λ x. asio.equal x.address address.address) ips
            else contains (ip_eq asio) ips address)
  unfolding still_there
  still_there_lem law address ips = elim (Bool-cases (asio.is_v4 address.address)) [
    | inl is4 ↦ rw is4 (
        contains_if-any ips address (same_without_prefix env address)
          (λ x. asio.equal x.address address.address) same)
    | inr is6 ↦ rw is6
  ]
    where
      same :
          (x : IpAddress Address)
          → same_without_prefix env address x ≡ ok (asio.equal x.address address.address)
      same x =
          unfold same_without_prefix in
          rw (without_prefix_lem asio law x, without_prefix_lem asio law address)
            (ap ok (ip_eq-build asio law x.address address.address))
