-- ===== src/IpAddress/Class.antt =====
-- ip_address.hpp: the operations of `class ip_address` as its clients take them, with what they promise
-- of the comparison and of without_prefix, and ip_address.cpp, which keeps the promises.
use fnc.Prelude.{ℕ, ◌≡◌, ◌↔◌, ℤ, Bool, true, false, Text}
use fnc.Exceptions.{Outcome}
use fnc.IpAddress
use fnc.IpAddress.{Asio, Inet, IpAddress, Scope, SockaddrIn, SockaddrIn6, Sockaddr}
use fnc.IpAddress.Build.{IsAsio, without_prefix_iff}
use fnc.IpAddress.Equality.{ip_eq_iff}

pub record IpAddressClass (Address Ip : Type 0) (address_of : Ip → Address) : Type 0 where
  pub any_v4 : Ip
  pub loopback : Ip
  pub any_v6 : Ip
  pub loopback_v6 : Ip
  pub unspecified : Ip
  pub from_string : Text → ℤ → Outcome Ip
  pub from_sockaddr_in : SockaddrIn → ℤ → Outcome Ip
  pub eq : Ip → Ip → Bool
  pub ne : Ip → Ip → Bool
  pub to_string : Ip → Bool → Text
  pub put : Text → Ip → Text
  pub index : Ip → ℤ → Outcome ℕ
  pub to_sockaddr_in : Ip → Outcome SockaddrIn
  pub to_sockaddr_in6 : Ip → Outcome SockaddrIn6
  pub to_sockaddr : Ip → Outcome Sockaddr
  pub without_prefix : Ip → Outcome Ip
  pub get_prefix : Ip → ℤ
  pub get_scope : Ip → Scope
  pub eq_iff : (a b : Ip) → ((eq a b ≡ true) ↔ (a ≡ b)) × ((ne a b ≡ false) ↔ (a ≡ b))
  pub without_prefix_iff :
      (a b : Ip) → (without_prefix a ≡ without_prefix b) ↔ (address_of a ≡ address_of b)

unfoldable pub ip_address :
    {Address : Type 0} (asio : Asio Address)
    → IsAsio asio
    → Inet
    → IpAddressClass Address (IpAddress Address) (λ a. a.address)
ip_address asio law inet = record {
  any_v4 = IpAddress.any_v4 asio;
  loopback = IpAddress.loopback asio;
  any_v6 = IpAddress.any_v6 asio;
  loopback_v6 = IpAddress.loopback_v6 asio;
  unspecified = IpAddress.unspecified asio;
  from_string = IpAddress.from_string asio;
  from_sockaddr_in = IpAddress.from_sockaddr_in asio inet;
  eq = IpAddress.ip_eq asio;
  ne = IpAddress.ip_ne asio;
  to_string = IpAddress.to_string asio;
  put = IpAddress.put_address asio;
  index = IpAddress.index asio;
  to_sockaddr_in = IpAddress.to_sockaddr_in asio inet;
  to_sockaddr_in6 = IpAddress.to_sockaddr_in6 asio inet;
  to_sockaddr = IpAddress.to_sockaddr asio inet;
  without_prefix = IpAddress.without_prefix asio;
  get_prefix = IpAddress.get_prefix;
  get_scope = IpAddress.get_scope;
  eq_iff = ip_eq_iff asio law;
  without_prefix_iff = without_prefix_iff asio law;
}
