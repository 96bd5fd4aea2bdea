-- ===== src/Netiface/Host/Simulated/TwoLinks.antt =====
-- The kernel with the links lo and eth0, of which eth0 has an address.
use fnc.Prelude.{refl, true, pos, [], ◌∷◌, codes}
use fnc.IpAddress.Simulated.{ip4}
use fnc.Netlink.Kernel.{State}
use fnc.Netiface.Host.{Link, At}
use fnc.Netiface.Host.Simulated.{Kernel}
use fnc.Netiface.Host.Simulated.Promises.{kernel, strict_kernel}

abbrev pub lo : Link
lo = record { index = pos 1; name = codes "lo"; no_nul = refl; mtu = 65536; up = true; hwaddr = [] }

abbrev pub eth0 : Link
eth0 = record {
  index = pos 2;
  name = codes "eth0";
  no_nul = refl;
  mtu = 1500;
  up = true;
  hwaddr = 2 ∷ 66 ∷ 172 ∷ 17 ∷ 0 ∷ 11 ∷ [];
}

abbrev pub at_rest : State Kernel
at_rest = record {
  session = 7;
  world = record {
    links = lo ∷ eth0 ∷ [];
    entries = record { index = 2; prefixlen = 24; ip = ip4 192 168 1 7 } ∷ [];
    answer = [];
  };
}

pub eth0_At : At eth0 (kernel.host at_rest.world).links
unfolding kernel
eth0_At = record {
  before = lo ∷ [];
  after = [];
  split = refl;
  others_before = ((refl, refl), tt);
  others_after = tt;
}

pub eth0_strict : At eth0 (strict_kernel.host at_rest.world).links
unfolding strict_kernel
eth0_strict = record {
  before = lo ∷ [];
  after = [];
  split = refl;
  others_before = ((refl, refl), tt);
  others_after = tt;
}
