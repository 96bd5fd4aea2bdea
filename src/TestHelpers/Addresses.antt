-- ===== src/TestHelpers/Addresses.antt =====
-- What random_ipv4 and random_ipv6 return.
use fnc.Prelude.{
  ℕ, zero, suc, ◌+◌, ◌<◌, ◌≤◌, ◌≡◌, refl, ap, arith, negsuc, Bool, true, false, some, List, length,
}
use fnc.Exceptions.{ok}
use fnc.IpAddress.{Asio, IpAddress, build, inherited}
use fnc.IpAddress.Build.{from_string_read}
use fnc.TestHelpers.{Random, addr_bytes, dotted, random_ipv4, random_ipv6}

-- What <random> and boost document: the numbers lie between their bounds, four numbers below 256 with
-- dots between them are the text of an IPv4 address, and sixteen bytes make an IPv6 address; neither
-- has a scope id.
pub record IsRandom {S Address : Type 0} (random : Random S) (asio : Asio Address)
    (scoped : Address → Bool) (address_v6 : List ℕ → Address) : Type 0 where
  pub in_bounds :
      (min max : ℕ) (s : S)
      → min ≤ max
      → (min ≤ (random.uniform_int min max s).0) × ((random.uniform_int min max s).0 ≤ max)
  pub reads_dotted :
      (a b c d : ℕ)
      → a < 256
      → b < 256
      → c < 256
      → d < 256
      → (x : Address) × (asio.from_string (dotted random asio a b c d) ≡ some x)
        × (asio.is_v4 x ≡ true)
        × (scoped x ≡ false)
  pub is_six : (bytes : List ℕ) → length bytes ≡ 16 → asio.is_v4 (address_v6 bytes) ≡ false
  pub no_scope : (bytes : List ℕ) → length bytes ≡ 16 → scoped (address_v6 bytes) ≡ false

module _ {S Address : Type 0} (random : Random S) (asio : Asio Address) (scoped : Address → Bool)
    (address_v6 : List ℕ → Address) (law : IsRandom random asio scoped address_v6) where
  below_256 : (s : S) → (random.uniform_int 1 255 s).0 < 256
  below_256 s = omega (arith, (law.in_bounds 1 255 s (omega arith)).1)

  pub random_ipv4_lem :
      (s : S)
      → (ip : IpAddress Address) × (s' : S) × (random_ipv4 random asio s ≡ (ok ip, s'))
        × (asio.is_v4 ip.address ≡ true)
        × (scoped ip.address ≡ false)
  unfolding random_ipv4 build
  random_ipv4_lem s =
      let (a, s1) = random.uniform_int 1 255 s in
      let (b, s2) = random.uniform_int 1 255 s1 in
      let (c, s3) = random.uniform_int 1 255 s2 in
      let (d, s4) = random.uniform_int 1 255 s3 in
      let (x, reads, is4, bare) =
        law.reads_dotted a b c d (below_256 s) (below_256 s1) (below_256 s2) (below_256 s3) in
      (
        build asio x (negsuc 0),
        s4,
        ap (λ r. (r, s4)) (from_string_read asio (dotted random asio a b c d) (negsuc 0) x reads),
        is4,
        bare,
      )

  length-addr_bytes :
      (count idx upper lower : ℕ) → length (addr_bytes random count idx upper lower) ≡ count
  unfolding addr_bytes
  length-addr_bytes zero idx upper lower = refl
  length-addr_bytes (suc count) idx upper lower =
      omega (arith, length-addr_bytes count (idx + 1) upper lower)

  pub random_ipv6_lem :
      (s : S)
      → (ip : IpAddress Address) × (s' : S) × (random_ipv6 random asio address_v6 s ≡ (ok ip, s'))
        × (asio.is_v4 ip.address ≡ false)
        × (scoped ip.address ≡ false)
  unfolding random_ipv6 inherited
  random_ipv6_lem s =
      let (upper, s1) = random.word s in
      let (lower, s2) = random.word s1 in
      let bytes = addr_bytes random 16 0 upper lower in
      let sixteen = length-addr_bytes 16 0 upper lower in
      (
        inherited asio (address_v6 bytes),
        s2,
        refl,
        law.is_six bytes sixteen,
        law.no_scope bytes sixteen,
      )
