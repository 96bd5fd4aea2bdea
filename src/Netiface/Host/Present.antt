-- ===== src/Netiface/Host/Present.antt =====
-- The test of set_ip_address on a host.
use fnc.Prelude.{ℕ, ◌≡◌, refl, ap, pos, true}
use fnc.Exceptions.{ok}
use fnc.IpAddress.{build}
use fnc.IpAddress.Build.{IsAsio}
use fnc.Netlink.Kernel.{State}
use fnc.Netiface.{Env, get_ip_addresses}
use fnc.Netiface.Callbacks.{family_all, to_u32}
use fnc.Netiface.Change.{has_address, add_address}
use fnc.Netiface.Host.{Link, At, holds}
use fnc.Netiface.Host.Kernel.{Reporting}
use fnc.Netiface.Host.Holds.{contains-holds}
use fnc.Netiface.Host.Reads.{get_ip_addresses_impl_At}

module _ {World Address : Type 0} (env : Env World Address) (k : Reporting env)
    (law : IsAsio env.asio) where
  open env use {sys, headers, asio, inet}

  -- The condition of set_ip_address, on a host.
  pub has_address_At :
      (t : State World) (l : Link) (ip : Address) (n : ℕ)
      → At l (k.host t.world).links
      → (u : State World) × (has_address env l.name (build asio ip (pos n)) t
          ≡ (ok (holds asio (k.host t.world).assigned (to_u32 l.index) n ip), u))
        × (k.host u.world ≡ k.host t.world)
  unfolding get_ip_addresses
  has_address_At t l ip n at =
      let (u, read, kept) = get_ip_addresses_impl_At env k t l family_all true at in
      (
        u,
        rw read (
            ap (λ b. (ok b, u))
              (contains-holds asio law headers inet (k.host t.world).assigned ip (to_u32 l.index)
                n)),
        kept,
      )

  pub present :
      (s s1 : State World) (l : Link) (ip : Address) (n : ℕ)
      → has_address env l.name (build asio ip (pos n)) s ≡ (ok true, s1)
      → add_address env l.name (build asio ip (pos n)) s ≡ (ok tt, s1)
  unfolding add_address
  present s s1 l ip n asked = rw asked refl
