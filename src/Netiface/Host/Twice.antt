-- ===== src/Netiface/Host/Twice.antt =====
-- set_ip_address, called again.
use fnc.Prelude.{Bool, ℕ, ◌≤◌, ◌≡◌, sym, ap, subst, ◌∙◌, pos, true, false, inl, inr, ◌⊎◌}
use fnc.Exceptions.{ok}
use fnc.IpAddress.{build}
use fnc.IpAddress.Build.{IsAsio}
use fnc.IpAddress.Sockets.{IsInet}
use fnc.Netlink.Kernel.{State}
use fnc.Netiface.{Env}
use fnc.Netiface.Addresses.{Assigned}
use fnc.Netiface.Change.{set_ip_address}
use fnc.Netiface.Host.{Link, Host, At, width, holds, conflicts}
use fnc.Netiface.Callbacks.{to_u32}
use fnc.Netiface.Host.Kernel.{Rtnetlink}
use fnc.Netiface.Host.Assigning.{WithAddress, assigned_to, set_ip_address_At}
use fnc.Netiface.Host.Holds.{holds-Inserted}

module _ {World Address : Type 0} (env : Env World Address) (law : IsAsio env.asio) where
  open env use {asio}

  pub links_same :
      (h h' : Host Address) (a : Assigned) (ip : Address)
      → WithAddress env h a ip h'
      → h'.links ≡ h.links
  links_same h h' a ip (inl (there, same)) = ap (λ (x : Host Address). x.links) same
  links_same h h' a ip (inr (absent, links, inserted)) = links

  pub then_holds :
      (h h' : Host Address) (a : Assigned) (ip : Address)
      → WithAddress env h a ip h'
      → holds asio h'.assigned a.index a.prefixlen ip ≡ true
  then_holds h h' a ip (inl (there, same)) =
      ap (λ (x : Host Address). holds asio x.assigned a.index a.prefixlen ip) same ∙ there
  then_holds h h' a ip (inr (absent, links, (before, after, old, new))) =
      ap (λ es. holds asio es a.index a.prefixlen ip) new
      ∙ holds-Inserted asio law before after a ip

  stays :
      (h h' : Host Address) (a : Assigned) (ip : Address)
      → holds asio h.assigned a.index a.prefixlen ip ≡ true
      → WithAddress env h a ip h'
      → h' ≡ h
  stays h h' a ip there (inl (again, same)) = same
  stays h h' a ip there (inr (absent, links, inserted)) = cc

  module _ (k : Rtnetlink env) (scoped : Address → Bool) (net : IsInet asio env.inet scoped) where
    -- Where the kernel keeps its promises, set_ip_address returns both times when it is called twice with
    -- an address as set_ip_address takes it:
    -- after the first call the host has the address on the interface, and the second call changes
    -- nothing.
    set_ip_address-twice :
        (s : State World) (l : Link) (ip : Address) (n : ℕ)
        → At l (k.host s.world).links
        → scoped ip ≡ false
        → n ≤ width asio ip
        → k.takes ip n ≡ true
        → (holds asio (k.host s.world).assigned (to_u32 l.index) n ip ≡ true)
          ⊎ (conflicts asio (k.host s.world).assigned (to_u32 l.index) n ip ≡ false)
        → (s1 s2 : State World) × (set_ip_address env l.name (build asio ip (pos n)) s
            ≡ (ok tt, s1))
          × (set_ip_address env l.name (build asio ip (pos n)) s1 ≡ (ok tt, s2))
          × (holds asio (k.host s1.world).assigned (assigned_to env l n ip).index n ip ≡ true)
          × (k.host s2.world ≡ k.host s1.world)
    set_ip_address-twice s l ip n at_l bare fits taken free =
        let a = assigned_to env l n ip in
        let (s1, once, first) =
          set_ip_address_At env k law scoped net s l ip n at_l bare fits taken free in
        let same = links_same (k.host s.world) (k.host s1.world) a ip first in
        let there = then_holds (k.host s.world) (k.host s1.world) a ip first in
        let (s2, again, second) =
          set_ip_address_At env k law scoped net s1 l ip n (subst (At l) (sym same) at_l) bare fits
            taken (inl there) in
        (s1, s2, once, again, there, stays (k.host s1.world) (k.host s2.world) a ip there second)
