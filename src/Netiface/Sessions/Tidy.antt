-- ===== src/Netiface/Sessions/Tidy.antt =====
-- The open sockets behind every operation of an interface.
use fnc.Prelude.{
  ℕ, zero, suc, ◌-◌, refl, is_neg, Bool, true, false, none, Text, text_eq, String, ltb, Bool-cases,
  inl, inr,
}
use fnc.Exceptions.{Outcome, then_do, M, pure, lift, continue}
use fnc.ContainerUtil.{contains}
use fnc.RetryWait.{sleep, wait_loop, wait_for}
use fnc.IpAddress.{IpAddress}
use fnc.Netlink.Kernel.{State, NlMsg}
use fnc.Netlink.{Callback, init_message}
use fnc.Netlink.Sockets.{Descriptors, send_message_sync-Keeps}
use fnc.Netlink.Sockets.Tidy.{IsTidy, >>=-IsTidy, elim-IsTidy, with_netlink-IsTidy}
use fnc.Netiface.{
  Env, exchange, exchange_then, get_iface_names, construct_netiface, get_index, get_mtu,
  get_mac_address, get_ip_addresses, get_ip_addresses_impl, clock,
}
use fnc.Netiface.Change.{
  mtu_is, set_mtu, has_address, add_address, set_ip_address, still_there, is_gone, remove_address,
  del_ip_address,
}
use fnc.Netiface.Sessions.{body-Keeps}

module _ {World Address : Type 0} (env : Env World Address) (d : Descriptors env.sys) where
  open env use {sys, headers, asio, rounds, tries}

  lift-IsTidy : {A : Type 0} (r : Outcome A) → IsTidy sys d (lift r)
  lift-IsTidy r s = inl refl

  exchange-IsTidy :
      {L : Type 0} (ty flags : ℕ) (fill : NlMsg → Outcome NlMsg) (callback : Callback L) (l : L)
      → IsTidy sys d (exchange env ty flags fill callback l)
  unfolding exchange
  exchange-IsTidy ty flags fill callback l =
      with_netlink-IsTidy sys d _ (λ nl s. inl (body-Keeps env d ty flags fill callback l nl s))

  exchange_then-IsTidy :
      (ty flags : ℕ) (fill : NlMsg → Outcome NlMsg) (rest : M (State World) (Unit {0}))
      → IsTidy sys d rest
      → IsTidy sys d (exchange_then env ty flags fill rest)
  unfolding exchange_then
  exchange_then-IsTidy ty flags fill rest tidy = with_netlink-IsTidy sys d _ (λ nl.
      continue-IsTidy (then_do (init_message headers nl ty flags).0 fill) _ (λ msg.
        >>=-IsTidy sys d _ _
          (λ s. inl (
            send_message_sync-Keeps sys d headers none rounds (init_message headers nl ty flags).1
              msg tt s))
          (λ _. tidy)))
    where
      continue-IsTidy :
          (made : Outcome NlMsg) (go : NlMsg → M (State World) (Unit {0}))
          → ((msg : NlMsg) → IsTidy sys d (go msg))
          → IsTidy sys d (continue made go)
      continue-IsTidy made go tidy_go = >>=-IsTidy sys d (lift made) go (lift-IsTidy made) tidy_go

  wait_loop-IsTidy :
      (fuel start_time limit : ℕ) (message : String) (condition : M (State World) Bool) (wait : ℕ)
      → IsTidy sys d condition
      → IsTidy sys d (wait_loop (clock env) fuel start_time limit message condition wait)
  unfolding wait_loop
  wait_loop-IsTidy zero start_time limit message condition wait tidy = λ s. inl refl
  wait_loop-IsTidy (suc fuel) start_time limit message condition wait tidy =
      >>=-IsTidy sys d condition _ tidy (λ passed.
        elim-IsTidy sys d passed (pure tt) _ (λ s. inl refl)
          (λ t. elim (Bool-cases (ltb limit ((clock env).now t - start_time))) [
            | inl late ↦ rw late (inl refl)
            | inr early ↦ rw early (
                >>=-IsTidy sys d (sleep (clock env) wait)
                  (λ _. wait_loop (clock env) fuel start_time limit message condition wait)
                  (λ u. inl (d.sleep_keeps wait u.world))
                  (λ _. wait_loop-IsTidy fuel start_time limit message condition wait tidy) t)
          ]))

  wait_for-IsTidy :
      (message : String) (condition : M (State World) Bool)
      → IsTidy sys d condition
      → IsTidy sys d (wait_for (clock env) tries 500 message condition 50)
  unfolding wait_for
  wait_for-IsTidy message condition tidy s =
      wait_loop-IsTidy tries ((clock env).now s) 500 message condition 50 tidy s

  pub get_iface_names-IsTidy : IsTidy sys d (get_iface_names env)
  unfolding get_iface_names
  get_iface_names-IsTidy = exchange-IsTidy _ _ _ _ _

  pub construct_netiface-IsTidy : (name : Text) → IsTidy sys d (construct_netiface env name)
  unfolding construct_netiface
  construct_netiface-IsTidy name =
      >>=-IsTidy sys d _ _ get_iface_names-IsTidy (λ names.
        elim-IsTidy sys d (contains text_eq names name) _ _ (λ s. inl refl) (λ s. inl refl))

  pub get_index-IsTidy : (name : Text) → IsTidy sys d (get_index env name)
  unfolding get_index
  get_index-IsTidy name = exchange-IsTidy _ _ _ _ _

  pub get_mtu-IsTidy : (name : Text) → IsTidy sys d (get_mtu env name)
  unfolding get_mtu
  get_mtu-IsTidy name =
      >>=-IsTidy sys d _ _ (get_index-IsTidy name) (λ i. exchange-IsTidy _ _ _ _ _)

  pub get_mac_address-IsTidy : (name : Text) → IsTidy sys d (get_mac_address env name)
  unfolding get_mac_address
  get_mac_address-IsTidy name =
      >>=-IsTidy sys d _ _ (get_index-IsTidy name) (λ i. exchange-IsTidy _ _ _ _ _)

  get_ip_addresses_impl-IsTidy :
      (name : Text) (ip_family : ℕ) (include_prefix : Bool)
      → IsTidy sys d (get_ip_addresses_impl env name ip_family include_prefix)
  unfolding get_ip_addresses_impl
  get_ip_addresses_impl-IsTidy name ip_family include_prefix =
      >>=-IsTidy sys d _ _ (get_index-IsTidy name) (λ i. exchange-IsTidy _ _ _ _ _)

  pub get_ip_addresses-IsTidy :
      (name : Text) (ip_family : ℕ) → IsTidy sys d (get_ip_addresses env name ip_family)
  unfolding get_ip_addresses
  get_ip_addresses-IsTidy name ip_family = get_ip_addresses_impl-IsTidy name ip_family true

  pub set_mtu-IsTidy : (name : Text) (mtu : ℕ) → IsTidy sys d (set_mtu env name mtu)
  unfolding set_mtu
  set_mtu-IsTidy name mtu = >>=-IsTidy sys d _ _ (get_index-IsTidy name) (λ i.
      exchange_then-IsTidy _ _ _ _ (
        wait_for-IsTidy _ (mtu_is env name mtu)
          (>>=-IsTidy sys d _ _ (get_mtu-IsTidy name) (λ m s. inl refl))))

  has_address-IsTidy :
      (name : Text) (address : IpAddress Address) → IsTidy sys d (has_address env name address)
  has_address-IsTidy name address =
      >>=-IsTidy sys d _ _ (get_ip_addresses-IsTidy name _) (λ ips s. inl refl)

  pub set_ip_address-IsTidy :
      (name : Text) (address : IpAddress Address) → IsTidy sys d (set_ip_address env name address)
  unfolding set_ip_address add_address
  set_ip_address-IsTidy name address =
      elim-IsTidy sys d (is_neg address.prefix) _ (add_address env name address) (λ s. inl refl)
        (>>=-IsTidy sys d _ _ (has_address-IsTidy name address) (λ present.
          elim-IsTidy sys d present (pure tt) _ (λ s. inl refl)
            (>>=-IsTidy sys d _ _ (get_index-IsTidy name) (λ i. exchange_then-IsTidy _ _ _ _ (
              wait_for-IsTidy _ (has_address env name address)
                (has_address-IsTidy name address))))))

  is_gone-IsTidy :
      (name : Text) (address : IpAddress Address) → IsTidy sys d (is_gone env name address)
  is_gone-IsTidy name address =
      >>=-IsTidy sys d _ _ (get_ip_addresses_impl-IsTidy name _ false)
        (λ ips. >>=-IsTidy sys d _ _ (lift-IsTidy _) (λ bare s. inl refl))

  pub del_ip_address-IsTidy :
      (name : Text) (address : IpAddress Address) → IsTidy sys d (del_ip_address env name address)
  unfolding del_ip_address remove_address
  del_ip_address-IsTidy name address = >>=-IsTidy sys d _ _ (get_ip_addresses-IsTidy name _) (λ _.
      >>=-IsTidy sys d _ _ (get_ip_addresses-IsTidy name _) (λ ips.
        >>=-IsTidy sys d _ _ (lift-IsTidy (still_there env address ips)) (λ there.
          elim-IsTidy sys d there (remove_address env name address) (pure tt)
            (>>=-IsTidy sys d _ _ (get_index-IsTidy name) (λ i.
              exchange_then-IsTidy _ _ _ _
                (wait_for-IsTidy _ (is_gone env name address) (is_gone-IsTidy name address))))
            (λ s. inl refl))))
