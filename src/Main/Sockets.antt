-- ===== src/Main/Sockets.antt =====
-- The open sockets behind a run of the program.
use fnc.Prelude.{◌≡◌, ◌⊎◌, refl, negsuc, inl, inr, List, Text, codes, subst}
use fnc.Exceptions.{Outcome, ok, throw, stuck, M, lift, continue, ◌>>=◌}
use fnc.IpAddress
use fnc.Logging.{Loggers}
use fnc.Netlink.Kernel.{State}
use fnc.Netlink.Sockets.{Descriptors}
use fnc.Netlink.Sockets.Tidy.{Leaks, Left, IsTidy, >>=-IsTidy}
use fnc.Netiface.{Env}
use fnc.Netiface.Class.{netiface}
use fnc.Netiface.Callbacks.{family_v4, family_v6, family_all}
use fnc.Netiface.Sessions.Tidy.{
  get_iface_names-IsTidy, construct_netiface-IsTidy, get_index-IsTidy, get_mtu-IsTidy,
  get_mac_address-IsTidy, get_ip_addresses-IsTidy, set_mtu-IsTidy, set_ip_address-IsTidy,
  del_ip_address-IsTidy,
}
use fnc.Main.{Parsed, exits, parsed, del_literal, set_literal, try_ipv6, configure, run, main}

module _ {World Address : Type 0} (env : Env World Address) (d : Descriptors env.sys) where
  open env use {sys, asio}

  abbrev AtMostOne : {A : Type 0} → M (State World) A → Type 0
  AtMostOne m =
      (s : State World)
      → (d.open_sockets (m s).1.world ≡ d.open_sockets s.world)
        ⊎ Leaks sys d (d.open_sockets s.world) (d.open_sockets (m s).1.world)

  >>=-AtMostOne :
      {A B : Type 0} (m : M (State World) A) (f : A → M (State World) B)
      → IsTidy sys d m
      → ((a : A) → AtMostOne (f a))
      → AtMostOne (m >>= f)
  >>=-AtMostOne {A} {B} m f tidy rest s = go (m s).0 (m s).1 (tidy s)
    where
      go :
          (r : Outcome A) (t : State World)
          → Left sys d r (d.open_sockets s.world) (d.open_sockets t.world)
          → (d.open_sockets (continue r f t).1.world ≡ d.open_sockets s.world)
            ⊎ Leaks sys d (d.open_sockets s.world) (d.open_sockets (continue r f t).1.world)
      go (ok a) t (inl e) =
          subst
            (λ o.
              (d.open_sockets (f a t).1.world ≡ o) ⊎ Leaks sys d o (d.open_sockets (f a t).1.world))
            e (rest a t)
      go (ok a) t (inr (_, bad)) = absurd bad
      go (throw x) t (inl e) = inl e
      go (throw x) t (inr l) = inr l.0
      go stuck t (inl e) = inl e
      go stuck t (inr l) = inr l.0

  IsTidy-AtMostOne : {A : Type 0} (m : M (State World) A) → IsTidy sys d m → AtMostOne m
  IsTidy-AtMostOne m tidy s = elim (tidy s) [ inl e ↦ inl e | inr l ↦ inr l.0 ]

  set_literal-IsTidy :
      (nic literal : Text) → IsTidy sys d (set_literal (netiface env) asio nic literal)
  set_literal-IsTidy nic literal =
      >>=-IsTidy sys d (lift (IpAddress.from_string asio literal (negsuc 0))) _ (λ s. inl refl)
        (λ address. set_ip_address-IsTidy env d nic address)

  del_literal-IsTidy :
      (nic literal : Text) → IsTidy sys d (del_literal (netiface env) asio nic literal)
  del_literal-IsTidy nic literal =
      >>=-IsTidy sys d (lift (IpAddress.from_string asio literal (negsuc 0))) _ (λ s. inl refl)
        (λ address. del_ip_address-IsTidy env d nic address)

  try_ipv6-AtMostOne : (nic : Text) → AtMostOne (try_ipv6 (netiface env) asio nic)
  unfolding try_ipv6
  try_ipv6-AtMostOne nic =
      IsTidy-AtMostOne (set_literal (netiface env) asio nic (codes "2001:db8:8714:3a90::12"))
        (set_literal-IsTidy nic (codes "2001:db8:8714:3a90::12"))

  configure-AtMostOne : (name : Text) → AtMostOne (configure (netiface env) asio name)
  unfolding configure
  configure-AtMostOne name = >>=-AtMostOne _ _ (get_iface_names-IsTidy env d) (λ _.
      >>=-AtMostOne _ _ (construct_netiface-IsTidy env d name) (λ nic.
        >>=-AtMostOne _ _ (get_index-IsTidy env d nic) (λ _.
          >>=-AtMostOne _ _ (del_literal-IsTidy nic (codes "2.2.2.2")) (λ _.
            >>=-AtMostOne _ _ (get_ip_addresses-IsTidy env d nic family_all) (λ _.
              >>=-AtMostOne _ _ (get_ip_addresses-IsTidy env d nic family_v4) (λ _.
                >>=-AtMostOne _ _ (get_ip_addresses-IsTidy env d nic family_v6) (λ _.
                  >>=-AtMostOne _ _ (set_mtu-IsTidy env d nic 1500) (λ _.
                    >>=-AtMostOne _ _ (set_literal-IsTidy nic (codes "1.1.1.1")) (λ _.
                      >>=-AtMostOne _ _ (get_mtu-IsTidy env d nic) (λ _.
                        >>=-AtMostOne _ _ (get_mac_address-IsTidy env d nic) (λ _.
                          >>=-AtMostOne _ _ (set_mtu-IsTidy env d nic 8000) (λ _.
                            >>=-AtMostOne _ _ (get_mtu-IsTidy env d nic) (λ _.
                              >>=-AtMostOne _ _ (set_literal-IsTidy nic (codes "2.2.2.2"))
                                (λ _. try_ipv6-AtMostOne nic))))))))))))))

  -- Where the system calls open and close descriptors as documented, and whatever else they do or fail to
  -- do: however `main` ends, its sockets are closed, except that at most one stays open, which a constructor
  -- of `netlink` has opened that did not return.
  pub main-closes :
      (parse : List Text → Parsed) (args : List Text) (ls : Loggers) (s : State World)
      → let s' = (main (netiface env) asio parse args ls s).2 in
        (d.open_sockets s'.world ≡ d.open_sockets s.world)
        ⊎ Leaks sys d (d.open_sockets s.world) (d.open_sockets s'.world)
  unfolding main run
  main-closes parse args ls s = go (parse args) refl
    where
      go :
          (p : Parsed)
          → parse args ≡ p
          → let s' = (main (netiface env) asio parse args ls s).2 in
            (d.open_sockets s'.world ≡ d.open_sockets s.world)
            ⊎ Leaks sys d (d.open_sockets s.world) (d.open_sockets s'.world)
      go (exits code) e = rw (e, main) (inl refl)
      go (parsed name debug) e = rw (e, main) (configure-AtMostOne name s)
