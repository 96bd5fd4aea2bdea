-- ===== src/IpAddress/Tests.antt =====
-- The theorems on addresses, at the small library of addresses.
use fnc.Prelude.{◌⊎◌, ◌≡◌, refl, pos, negsuc, true, false, [], ◌∷◌, codes}
use fnc.Exceptions.{ok, stuck}
use fnc.IpAddress.{
  IpAddress, SockaddrIn, SockaddrIn6, v4, v6, to_sockaddr_in, to_sockaddr_in6, decimal, global,
  host, index, from_string, to_string, to_sockaddr, without_prefix, ip_eq, inherited, build,
}
use fnc.IpAddress.Build.{Builds, from_string-Builds, without_prefix_lem}
use fnc.IpAddress.Equality.{from_string-ne-inherited}
use fnc.IpAddress.Sockets.{Carries, to_sockaddr_in-Carries}
use fnc.IpAddress.Simulated.{Ip, ip4, ip6, asio, inet, scoped, asio-IsAsio, inet-IsInet}

abbrev office : IpAddress Ip
office = record { address = ip4 192 168 1 7; prefix = pos 24; scope = global }

abbrev local : IpAddress Ip
local = record { address = ip6 0 1; prefix = pos 128; scope = host }

shown : to_string asio office true ≡ 192 ∷ b'.' ∷ 168 ∷ b'.' ∷ 1 ∷ b'.' ∷ 7 ∷ codes "/24"
unfolding to_string decimal
shown = refl

third : index asio office (pos 2) ≡ ok 1
unfolding index
third = refl

from_string-Builds_example :
    Builds asio
      (127 ∷ b'.' ∷ 0 ∷ b'.' ∷ 0 ∷ b'.' ∷ 1 ∷ [])
      (negsuc 0)
      (from_string asio (127 ∷ b'.' ∷ 0 ∷ b'.' ∷ 0 ∷ b'.' ∷ 1 ∷ []) (negsuc 0))
from_string-Builds_example =
    from_string-Builds asio (127 ∷ b'.' ∷ 0 ∷ b'.' ∷ 0 ∷ b'.' ∷ 1 ∷ []) (negsuc 0)

without_prefix_lem_example :
    without_prefix asio office ≡ ok (build asio (ip4 192 168 1 7) (negsuc 0))
without_prefix_lem_example = without_prefix_lem asio asio-IsAsio office

parsed :
    from_string asio (127 ∷ b'.' ∷ 0 ∷ b'.' ∷ 0 ∷ b'.' ∷ 1 ∷ []) (pos 32)
    ≡ ok (build asio (ip4 127 0 0 1) (pos 32))
unfolding from_string
parsed = refl

from_string-ne-inherited_example :
    ip_eq asio (build asio (ip4 127 0 0 1) (pos 32)) (inherited asio (ip4 127 0 0 1)) ≡ false
from_string-ne-inherited_example =
    from_string-ne-inherited asio asio-IsAsio (127 ∷ b'.' ∷ 0 ∷ b'.' ∷ 0 ∷ b'.' ∷ 1 ∷ []) (pos 32)
      (build asio (ip4 127 0 0 1) (pos 32)) (ip4 127 0 0 1) parsed

to_sockaddr_in-Carries_example :
    (((sa : SockaddrIn) × (to_sockaddr_in asio inet office ≡ ok sa)
        × Carries asio inet scoped inet-IsInet office (v4 sa))
      ⊎ ((sa : SockaddrIn6) × (to_sockaddr_in6 asio inet office ≡ ok sa)
          × Carries asio inet scoped inet-IsInet office (v6 sa)))
    × (to_sockaddr asio inet office ≡ stuck)
to_sockaddr_in-Carries_example = to_sockaddr_in-Carries asio inet scoped inet-IsInet office refl
