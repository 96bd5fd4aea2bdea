-- ===== src/IpAddress.antt =====
-- ip_address.cpp, ip_address.hpp: an address of boost::asio with a prefix length and a scope.
pub mod Build
pub mod Equality
pub mod Sockets
pub mod Class
pub mod Simulated
mod Tests
use fnc.Prelude.{
  ℕ, zero, suc, ◌+◌, ◌-◌, ◌/◌, ◌%◌, ℤ, pos, negsuc, is_neg, int_eq, Bool, true, false, not, ◌&&◌,
  ◌||◌,
}
use fnc.Prelude.{
  Option, none, some, List, [], ◌∷◌, ◌++◌, Text, codes, ltb, ◌==◌, get_elem?, if◌then◌else◌,
}
use fnc.Exceptions.{Exception, Outcome, ok, throw, stuck, netex, illegal, out_of_range, then_do}

-- enum ip_address_scope
pub data Scope : Type 0 where
  global host : Scope

-- The value of an enumerator.
abbrev pub scope_value : Scope → ℕ
scope_value global = 0
scope_value host = 254

abbrev pub scope_eq : Scope → Scope → Bool
scope_eq global global = true
scope_eq host host = true
scope_eq global host = false
scope_eq host global = false

-- What the source uses of boost::asio::ip::address, for the library's type of addresses.
-- `from_string` gives `none` where the library throws a boost::system::system_error.
pub record Asio (Address : Type 0) : Type 0 where
  pub from_string : Text → Option Address
  pub print : Address → Text
  pub is_v4 : Address → Bool
  pub is_v6 : Address → Bool
  pub is_loopback : Address → Bool
  pub equal : Address → Address → Bool
  pub bytes : Address → List ℕ
  pub unspecified : Address
  pub v4_any : Address
  pub v4_loopback : Address
  pub v6_any : Address
  pub v6_loopback : Address

-- What the source uses of <arpa/inet.h>. `inet_pton` gives `none` where it returns anything but 1,
-- and `inet_ntop` where it returns a null pointer.
pub record Inet : Type 0 where
  pub af_inet : ℕ
  pub af_inet6 : ℕ
  pub inet_pton : ℕ → Text → Option (List ℕ)
  pub inet_ntop : ℕ → List ℕ → Option Text
  pub inet_ntoa : List ℕ → Text

pub record IpAddress (Address : Type 0) : Type 0 where
  pub address : Address
  pub prefix : ℤ
  pub scope : Scope

pub record SockaddrIn : Type 0 where
  pub sin_family : ℕ
  pub sin_port : ℕ
  pub sin_addr : List ℕ

pub record SockaddrIn6 : Type 0 where
  pub sin6_family : ℕ
  pub sin6_port : ℕ
  pub sin6_scope_id : ℕ
  pub sin6_addr : List ℕ

-- A sockaddr_storage, by the structure that stands in it.
pub data Sockaddr : Type 0 where
  v4 : SockaddrIn → Sockaddr
  v6 : SockaddrIn6 → Sockaddr

-- Decimal digits of a number; `fuel` of its own size is enough.
decimal_from : ℕ → ℕ → Text
decimal_from zero n = []
decimal_from (suc fuel) n =
    let front = decimal_from fuel (n / 10) in
    if ltb n 10 then (b'0' + n) ∷ [] else front ++ ((b'0' + n % 10) ∷ [])

unfoldable pub decimal : ℕ → Text
unfolding decimal_from
decimal n = decimal_from (suc n) n

abbrev pub get_prefix : {Address : Type 0} → IpAddress Address → ℤ
get_prefix ip = ip.prefix

abbrev pub get_scope : {Address : Type 0} → IpAddress Address → Scope
get_scope ip = ip.scope

module _ {Address : Type 0} (asio : Asio Address) where
  -- The inherited constructors of boost::asio::ip::address, which leave the members at their
  -- initialisers.
  unfoldable pub inherited : Address → IpAddress Address
  inherited a = record { address = a; prefix = negsuc 0; scope = global }

  -- ip_address::UNSPECIFIED, which is default-constructed.
  abbrev pub unspecified : IpAddress Address
  unspecified = inherited asio.unspecified

  abbrev pub any_v4 : IpAddress Address
  any_v4 = inherited asio.v4_any

  abbrev pub loopback : IpAddress Address
  loopback = inherited asio.v4_loopback

  abbrev pub any_v6 : IpAddress Address
  any_v6 = inherited asio.v6_any

  abbrev pub loopback_v6 : IpAddress Address
  loopback_v6 = inherited asio.v6_loopback

  -- The body of the constructor, for the address that the text has given.
  unfoldable pub build : Address → ℤ → IpAddress Address
  build a prefix = record {
    address = a;
    prefix = if is_neg prefix then (if asio.is_v4 a then pos 32 else pos 64) else prefix;
    scope = if asio.is_loopback a then host else global;
  }

  -- ip_address(const std::string&, int), and ip_address(const char*, int) of the same text.
  unfoldable pub from_string : Text → ℤ → Outcome (IpAddress Address)
  unfolding build
  from_string text prefix = elim (asio.from_string text) [
    | none ↦ throw (illegal "Invalid IP address")
    | some a ↦ ok (build a prefix)
  ]

  -- ip_address(const sockaddr_in*, int)
  unfoldable pub from_sockaddr_in : Inet → SockaddrIn → ℤ → Outcome (IpAddress Address)
  unfolding from_string
  from_sockaddr_in inet addr prefix = from_string (inet.inet_ntoa addr.sin_addr) prefix

  -- operator==
  unfoldable pub ip_eq : IpAddress Address → IpAddress Address → Bool
  ip_eq lhs rhs =
      asio.equal lhs.address rhs.address
      && (int_eq lhs.prefix rhs.prefix && scope_eq lhs.scope rhs.scope)

  -- operator!=
  unfoldable pub ip_ne : IpAddress Address → IpAddress Address → Bool
  unfolding ip_eq
  ip_ne lhs rhs = not (ip_eq lhs rhs)

  -- "/" and the prefix, where `to_string` writes them.
  suffix : IpAddress Address → ℤ → Text
  suffix ip (negsuc n) = []
  suffix ip (pos zero) = []
  suffix ip (pos (suc n)) =
      if asio.is_v4 ip.address && not (suc n == 32) || asio.is_v6 ip.address
      then b'/' ∷ decimal (suc n)
      else []

  unfoldable pub to_string : IpAddress Address → Bool → Text
  unfolding suffix
  to_string ip include_prefix =
      asio.print ip.address ++ (if include_prefix then suffix ip ip.prefix else [])

  -- operator<<, for the text that the stream has.
  abbrev pub put_address : Text → IpAddress Address → Text
  put_address os obj = os ++ to_string obj true

  -- operator[]: std::array::at throws out of range, as which a negative index counts too.
  unfoldable pub index : IpAddress Address → ℤ → Outcome ℕ
  index ip (negsuc n) = throw (record { kind = out_of_range; message = "array::at" })
  index ip (pos i) = elim (get_elem? (asio.bytes ip.address) i) [
    | none ↦ throw (record { kind = out_of_range; message = "array::at" })
    | some b ↦ ok b
  ]

  unfoldable pub to_sockaddr_in : Inet → IpAddress Address → Outcome SockaddrIn
  unfolding to_string
  to_sockaddr_in inet ip = elim (inet.inet_pton inet.af_inet (to_string ip false)) [
    | none ↦ throw (netex "Failed to convert address={} to network format: {}")
    | some a ↦ ok (record { sin_family = inet.af_inet; sin_port = 0; sin_addr = a })
  ]

  unfoldable pub to_sockaddr_in6 : Inet → IpAddress Address → Outcome SockaddrIn6
  unfolding to_string
  to_sockaddr_in6 inet ip = elim (inet.inet_pton inet.af_inet6 (to_string ip false)) [
    | none ↦ throw (netex "Failed to convert address={} to network format: {}")
    | some a ↦ ok (record {
      sin6_family = inet.af_inet6;
      sin6_port = 0;
      sin6_scope_id = scope_value ip.scope;
      sin6_addr = a;
    })
  ]

  -- The cast reads a whole sockaddr_storage from the smaller structure, behind the end of the local.
  unfoldable pub to_sockaddr : Inet → IpAddress Address → Outcome Sockaddr
  unfolding to_sockaddr_in to_sockaddr_in6
  to_sockaddr inet ip =
      if asio.is_v4 ip.address
      then then_do (to_sockaddr_in inet ip) (λ sa. stuck)
      else then_do (to_sockaddr_in6 inet ip) (λ sa. stuck)

  unfoldable pub without_prefix : IpAddress Address → Outcome (IpAddress Address)
  unfolding to_string from_string
  without_prefix ip = from_string (to_string ip false) (negsuc 0)
