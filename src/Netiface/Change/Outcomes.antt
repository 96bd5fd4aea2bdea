-- ===== src/Netiface/Change/Outcomes.antt =====
-- What holds when set_mtu and set_ip_address return, whatever the kernel does.
use fnc.Prelude.{
  ℕ, none, ◌≡◌, ap, subst, ◌⊎◌, inl, inr, is_neg, String, Bool, true, false, Bool-cases, ==_iff,
  List, ◌==◌, Text, if◌then◌else◌,
}
use fnc.Exceptions.{Outcome, ok, throw, netex, then_do, M, pure, raise, continue, ◌>>=◌, ◌>>◌}
use fnc.Exceptions.Laws.{>>=-eq-ok, continue-eq-ok}
use fnc.ContainerUtil.{contains}
use fnc.RetryWait.{Clock, wait_for}
use fnc.RetryWait.Laws.{Ends, wait_for-Ends}
use fnc.IpAddress.{IpAddress, ip_eq}
use fnc.Netlink.Kernel.{State, NlMsg}
use fnc.Netlink.{Netlink, construct, destroy, with_netlink, init_message, send_message_sync}
use fnc.Netiface.{Env, exchange_then, get_index, get_mtu, get_ip_addresses, clock}
use fnc.Netiface.Callbacks.{family_all}
use fnc.Netiface.Change.{mtu_is, set_mtu, fill_address, has_address, add_address, set_ip_address}

-- A wait that returns has just seen its condition pass.
pub wait_for-eq-ok :
    {S : Type 0} (c : Clock S) (fuel limit wait : ℕ) (message : String) (condition : M S Bool)
    (s s' : S)
    → wait_for c fuel limit message condition wait s ≡ (ok tt, s')
    → (t : S) × (condition t ≡ (ok true, s'))
wait_for-eq-ok c fuel limit wait message condition s s' h =
    subst (λ r. Ends c limit message condition (c.now s) r.0 r.1) h
      (wait_for-Ends c limit message condition fuel wait s)

-- A test of a value that was read has passed.
pub tested-eq-ok :
    {S A : Type 0} (m : M S A) (test : A → Bool) (b : Bool) (s s' : S)
    → (m >>= λ a. pure (test a)) s ≡ (ok b, s')
    → (a : A) × (m s ≡ (ok a, s')) × (test a ≡ b)
tested-eq-ok {S} m test b s s' h =
    let (a, t, read, passed) = >>=-eq-ok m (λ a. pure (test a)) h in
    let at_end : t ≡ s' = ap (λ (r : Outcome Bool × S). r.1) passed in
    (
      a,
      subst (λ u. m s ≡ (ok a, u)) at_end read,
      ok-injective _ _ (ap (λ (r : Outcome Bool × S). r.0) passed),
    )
  where
    ok-injective : (x y : Bool) → ok x ≡ ok y → x ≡ y
    ok-injective x y e = cc

module _ {World Address : Type 0} (env : Env World Address) where
  open env use {sys, asio, headers, rounds, tries}

  -- From the one state to the other nothing has happened, but that a socket may have been closed.
  abbrev pub Closes : State World → State World → Type 0
  Closes u s' = (u ≡ s') ⊎ ((nl : Netlink) × (destroy sys nl u ≡ s'))

  pub exchange_then-eq-ok :
      (ty flags : ℕ) (fill : NlMsg → Outcome NlMsg) (rest : M (State World) (Unit {0}))
      (s s' : State World)
      → exchange_then env ty flags fill rest s ≡ (ok tt, s')
      → (t : State World) × (u : State World) × (rest t ≡ (ok tt, u)) × Closes u s'
  unfolding exchange_then with_netlink
  exchange_then-eq-ok ty flags fill rest s s' h =
      let (nl, s1, _, h1) = >>=-eq-ok (construct sys) _ h in
      let nl' : Netlink = (init_message headers nl ty flags).1 in
      let made : Outcome NlMsg = (init_message headers nl ty flags).0 in
      let go : NlMsg → M (State World) (Unit {0}) =
        λ msg. send_message_sync sys headers none rounds nl' msg tt >> rest in
      let q : Outcome (Unit {0}) × State World = continue (then_do made fill) go s1 in
      let inner : continue (then_do made fill) go s1 ≡ (ok tt, q.1) =
        ap (λ (r : Outcome (Unit {0}) × State World). (r.0, q.1)) h1 in
      let (msg, _, h2) = continue-eq-ok (then_do made fill) go inner in
      let (_, s2, _, h3) =
        >>=-eq-ok (send_message_sync sys headers none rounds nl' msg tt) (λ _. rest) h2 in
      (s2, q.1, h3, inr (nl, ap (λ (r : Outcome (Unit {0}) × State World). r.1) h1))

  -- When set_mtu returns, get_mtu has just read the MTU that was set; since then at most a socket
  -- has been closed.
  set_mtu-get_mtu :
      (name : Text) (mtu : ℕ) (s s' : State World)
      → set_mtu env name mtu s ≡ (ok tt, s')
      → (t : State World) × (u : State World) × (get_mtu env name t ≡ (ok mtu, u)) × Closes u s'
  unfolding set_mtu
  set_mtu-get_mtu name mtu s s' h =
      let (idx, s1, _, h1) = >>=-eq-ok (get_index env name) _ h in
      let (s2, u, h2, closes) = exchange_then-eq-ok _ _ _ _ s1 s' h1 in
      let (t, passed) = wait_for-eq-ok (clock env) tries 500 50 _ (mtu_is env name mtu) s2 u h2 in
      let (m, read, same) = tested-eq-ok (get_mtu env name) (λ m. m == mtu) true t u passed in
      (t, u, subst (λ v. get_mtu env name t ≡ (ok v, u)) ((==_iff m mtu).0 same) read, closes)

  -- The answer of get_ip_addresses that `has_address` looks at.
  has_address-eq-ok :
      (name : Text) (address : IpAddress Address) (b : Bool) (t s' : State World)
      → has_address env name address t ≡ (ok b, s')
      → (ips : List (IpAddress Address)) × (get_ip_addresses env name family_all t ≡ (ok ips, s'))
        × (contains (ip_eq asio) ips address ≡ b)
  has_address-eq-ok name address b t s' h =
      tested-eq-ok (get_ip_addresses env name family_all) (λ ips. contains (ip_eq asio) ips address)
        b t s' h

  add_address-eq-ok :
      (name : Text) (address : IpAddress Address) (s s' : State World)
      → add_address env name address s ≡ (ok tt, s')
      → (t : State World) × (u : State World) × (has_address env name address t ≡ (ok true, u))
        × Closes u s'
  unfolding add_address
  add_address-eq-ok name address s s' h =
      let (present, s1, asked, h1) = >>=-eq-ok (has_address env name address) _ h in
      go present s1 asked h1
    where
      go :
          (present : Bool) (s1 : State World)
          → has_address env name address s ≡ (ok present, s1)
          → (if present
                then pure tt
                else (get_index env name >>= λ iface_idx.
                    exchange_then env headers.rtm_newaddr headers.request_create_excl_ack
                      (fill_address env iface_idx address address.prefix)
                      (wait_for
                        (clock env)
                        tries
                        500
                        "Failed to add IP address={} to iface={}"
                        (has_address env name address)
                        50)))
              s1
            ≡ (ok tt, s')
          → (t : State World) × (u : State World) × (has_address env name address t ≡ (ok true, u))
            × Closes u s'
      go true s1 asked k =
          (s, s1, asked, inl (ap (λ (r : Outcome (Unit {0}) × State World). r.1) k))
      go false s1 asked k =
          let (idx, s2, _, k1) = >>=-eq-ok (get_index env name) _ k in
          let (s3, u, k2, closes) = exchange_then-eq-ok _ _ _ _ s2 s' k1 in
          let (t, passed) =
            wait_for-eq-ok (clock env) tries 500 50 _ (has_address env name address) s3 u k2 in
          (t, u, passed, closes)

  -- When set_ip_address returns, the address's prefix length is not negative, and get_ip_addresses
  -- has just listed the address; since then at most a socket has been closed.
  set_ip_address-get_ip_addresses :
      (name : Text) (address : IpAddress Address) (s s' : State World)
      → set_ip_address env name address s ≡ (ok tt, s')
      → (is_neg address.prefix ≡ false)
        × ((t : State World) × (u : State World) × (ips : List (IpAddress Address))
            × (get_ip_addresses env name family_all t ≡ (ok ips, u))
            × (contains (ip_eq asio) ips address ≡ true)
            × Closes u s')
  unfolding set_ip_address
  set_ip_address-get_ip_addresses name address s s' h = go (Bool-cases (is_neg address.prefix)) h
    where
      go :
          (is_neg address.prefix ≡ true) ⊎ (is_neg address.prefix ≡ false)
          → (if is_neg address.prefix
                then raise (netex "Invalid or unspecified prefix length for address={}")
                else add_address env name address)
              s
            ≡ (ok tt, s')
          → (is_neg address.prefix ≡ false)
            × ((t : State World) × (u : State World) × (ips : List (IpAddress Address))
                × (get_ip_addresses env name family_all t ≡ (ok ips, u))
                × (contains (ip_eq asio) ips address ≡ true)
                × Closes u s')
      go (inl neg) h = absurd (raised (rw neg at h))
        where
          raised :
              {x : State World}
              → ◌≡◌ {A = Outcome (Unit {0}) × State World}
                  (throw (netex "Invalid or unspecified prefix length for address={}"), x)
                  (ok tt, s')
              → ⊥
          raised e = cc
      go (inr fine) h =
          let (t, u, found, closes) = add_address-eq-ok name address s s' (rw fine at h) in
          let (ips, read, listed) = has_address-eq-ok name address true t u found in
          (fine, (t, u, ips, read, listed, closes))

  -- An address that get_ip_addresses lists is left as it is: set_ip_address returns at once, in the
  -- state in which the list was read.
  pub set_ip_address_present :
      (name : Text) (address : IpAddress Address) (s s' : State World)
      (ips : List (IpAddress Address))
      → is_neg address.prefix ≡ false
      → get_ip_addresses env name family_all s ≡ (ok ips, s')
      → contains (ip_eq asio) ips address ≡ true
      → set_ip_address env name address s ≡ (ok tt, s')
  unfolding set_ip_address add_address
  set_ip_address_present name address s s' ips fine read listed = rw fine (rw read (rw listed))
