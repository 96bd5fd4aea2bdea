-- ===== src/IpAddress/Simulated.antt =====
-- A small library of addresses, a.b.c.d and ::x:y, at which the properties of an address are tried.
-- Its texts hold a number as the character of that code; a text of 22 characters is read by the last two.
use fnc.Prelude.{
  ℕ, ◌≡◌, refl, ◌↔◌, arith, Bool, true, false, not, ◌&&◌, Option, none, some, List, [], ◌∷◌, ◌==◌,
  Text, length, if◌then◌else◌,
}
use fnc.IpAddress.{Asio, Inet}
use fnc.IpAddress.Build.{IsAsio}
use fnc.IpAddress.Sockets.{IsInet}

pub data Ip : Type 0 where
  ip4 : ℕ → ℕ → ℕ → ℕ → Ip
  ip6 : ℕ → ℕ → Ip

abbrev print : Ip → Text
print (ip4 a b c d) = a ∷ b'.' ∷ b ∷ b'.' ∷ c ∷ b'.' ∷ d ∷ []
print (ip6 x y) = b':' ∷ b':' ∷ x ∷ b':' ∷ y ∷ []

abbrev read : Text → Option Ip
read (a ∷ _ ∷ b ∷ _ ∷ c ∷ _ ∷ d ∷ []) = some (ip4 a b c d)
read (_ ∷ _ ∷ x ∷ _ ∷ y ∷ []) = some (ip6 x y)
read (_ ∷ _ ∷ _ ∷ _ ∷ _ ∷ _ ∷ _ ∷ _ ∷ _ ∷ _ ∷ _ ∷ _ ∷ _ ∷ _ ∷ _ ∷ _ ∷ _ ∷ _ ∷ _ ∷ _ ∷ x ∷ y ∷ []) =
    some (ip6 x y)
read _ = none

abbrev is_four : Ip → Bool
is_four (ip4 _ _ _ _) = true
is_four (ip6 _ _) = false

abbrev bytes : Ip → List ℕ
bytes (ip4 a b c d) = a ∷ b ∷ c ∷ d ∷ []
bytes (ip6 x y) = 0 ∷ 0 ∷ 0 ∷ 0 ∷ 0 ∷ 0 ∷ 0 ∷ 0 ∷ 0 ∷ 0 ∷ 0 ∷ 0 ∷ 0 ∷ 0 ∷ x ∷ y ∷ []

abbrev same : Ip → Ip → Bool
same (ip4 a b c d) (ip4 e f g h) = a == e && (b == f && (c == g && d == h))
same (ip4 _ _ _ _) (ip6 _ _) = false
same (ip6 _ _) (ip4 _ _ _ _) = false
same (ip6 x y) (ip6 z w) = x == z && y == w

abbrev is_loopback : Ip → Bool
is_loopback (ip4 a _ _ _) = a == 127
is_loopback (ip6 x y) = x == 0 && y == 1

abbrev pub asio : Asio Ip
asio = record {
  from_string = read;
  print = print;
  is_v4 = is_four;
  is_v6 = λ a. not (is_four a);
  is_loopback = is_loopback;
  equal = same;
  bytes = bytes;
  unspecified = ip4 0 0 0 0;
  v4_any = ip4 0 0 0 0;
  v4_loopback = ip4 127 0 0 1;
  v6_any = ip6 0 0;
  v6_loopback = ip6 0 1;
}

abbrev bytes_if : Bool → Ip → Option (List ℕ)
bytes_if true a = some (bytes a)
bytes_if false a = none

abbrev pton : ℕ → Option Ip → Option (List ℕ)
pton family none = none
pton family (some (ip4 a b c d)) = bytes_if (family == 2) (ip4 a b c d)
pton family (some (ip6 x y)) = bytes_if (family == 10) (ip6 x y)

abbrev pub ntop : List ℕ → Text
ntop (a ∷ b ∷ c ∷ d ∷ []) = print (ip4 a b c d)
ntop (_ ∷ _ ∷ _ ∷ _ ∷ _ ∷ _ ∷ _ ∷ _ ∷ _ ∷ _ ∷ _ ∷ _ ∷ _ ∷ _ ∷ x ∷ y ∷ _) = print (ip6 x y)
ntop _ = []

abbrev pub inet : Inet
inet = record {
  af_inet = 2;
  af_inet6 = 10;
  inet_pton = λ family text. pton family (read text);
  inet_ntop = λ family data_bytes. some (ntop data_bytes);
  inet_ntoa = ntop;
}

abbrev pub scoped : Ip → Bool
scoped _ = false

same_iff : (a b : Ip) → (same a b ≡ true) ↔ (a ≡ b)
same_iff a b = ground arith

pub asio-IsAsio : IsAsio asio
asio-IsAsio = record { equal_iff = same_iff; is_v6_iff = λ a. refl; reads = reads }
  where
    reads : (a : Ip) → read (print a) ≡ some a
    reads (ip4 a b c d) = refl
    reads (ip6 x y) = refl

pub inet-IsInet : IsInet asio inet scoped
inet-IsInet = record {
  pton_v4 = λ a h. pton_v4 a;
  pton_v6 = λ a h. pton_v6 a;
  bytes_length = bytes_length;
}
  where
    pton_v4 : (a : Ip) → pton 2 (read (print a)) ≡ (if is_four a then some (bytes a) else none)
    pton_v4 (ip4 a b c d) = refl
    pton_v4 (ip6 x y) = refl

    pton_v6 : (a : Ip) → pton 10 (read (print a)) ≡ (if is_four a then none else some (bytes a))
    pton_v6 (ip4 a b c d) = refl
    pton_v6 (ip6 x y) = refl

    bytes_length : (a : Ip) → length (bytes a) ≡ (if is_four a then 4 else 16)
    bytes_length (ip4 a b c d) = refl
    bytes_length (ip6 x y) = refl
