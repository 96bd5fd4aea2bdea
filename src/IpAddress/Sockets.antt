-- ===== src/IpAddress/Sockets.antt =====
-- The socket structures of an address, and its bytes.
use fnc.Prelude.{
  ℕ, zero, suc, ◌≤◌, ◌<◌, ◌≡◌, refl, subst, append-nil, ◌++◌, ◌∙◌, ◌⊎◌, arith, ℤ, pos, negsuc, Bool,
  true, false, none, some, if◌then◌else◌, Bool-cases, Option-cases, inl, inr, List, [], ◌∷◌, length,
  get_elem?,
}
use fnc.Exceptions.{Outcome, ok, throw, stuck, netex, Exception, out_of_range}
use fnc.IpAddress.{
  Asio, Inet, IpAddress, Sockaddr, SockaddrIn, SockaddrIn6, v4, v6, scope_value, index,
  to_sockaddr_in, to_sockaddr_in6, to_sockaddr,
}

-- What <arpa/inet.h> documents: `inet_pton` reads the text of an address that has no scope id, as the
-- address's bytes, if it is asked for the address's own family, and else refuses it.
pub record IsInet {Address : Type 0} (asio : Asio Address) (inet : Inet) (scoped : Address → Bool)
    : Type 0 where
  pub pton_v4 :
      (a : Address)
      → scoped a ≡ false
      → inet.inet_pton inet.af_inet (asio.print a)
        ≡ (if asio.is_v4 a then some (asio.bytes a) else none)
  pub pton_v6 :
      (a : Address)
      → scoped a ≡ false
      → inet.inet_pton inet.af_inet6 (asio.print a)
        ≡ (if asio.is_v4 a then none else some (asio.bytes a))
  pub bytes_length : (a : Address) → length (asio.bytes a) ≡ (if asio.is_v4 a then 4 else 16)

get_elem?_bounds : (xs : List ℕ) (i : ℕ) → get_elem? xs i ≡ none → length xs ≤ i
get_elem?_bounds [] i h = omega arith
get_elem?_bounds (x ∷ xs) zero h = cc
get_elem?_bounds (x ∷ xs) (suc i) h = omega (arith, get_elem?_bounds xs i h)

get_elem?-lt : (xs : List ℕ) (i : ℕ) {b : ℕ} → get_elem? xs i ≡ some b → i < length xs
get_elem?-lt [] i h = cc
get_elem?-lt (x ∷ xs) zero h = omega arith
get_elem?-lt (x ∷ xs) (suc i) h = omega (arith, get_elem?-lt xs i h)

module _ {Address : Type 0} (asio : Asio Address) (inet : Inet) (scoped : Address → Bool)
    (law : IsInet asio inet scoped) where
  -- `[i]` is a byte for i from 0 to 3 or 15, and throws std::out_of_range for any other i.
  abbrev Indexes : IpAddress Address → ℤ → Outcome ℕ → Type 0
  Indexes ip (pos i) (ok b) =
      (i < (if asio.is_v4 ip.address then 4 else 16))
      × (get_elem? (asio.bytes ip.address) i ≡ some b)
  Indexes ip (pos i) (throw e) =
      ((if asio.is_v4 ip.address then 4 else 16) ≤ i) × (e.kind ≡ out_of_range)
  Indexes ip (negsuc n) (ok b) = ⊥
  Indexes ip (negsuc n) (throw e) = e.kind ≡ out_of_range
  Indexes ip (pos i) stuck = ⊥
  Indexes ip (negsuc n) stuck = ⊥

  pub index_some :
      (ip : IpAddress Address) (i b : ℕ)
      → get_elem? (asio.bytes ip.address) i ≡ some b
      → index asio ip (pos i) ≡ ok b
  unfolding index
  index_some ip i b e = rw (e, index)

  index_none :
      (ip : IpAddress Address) (i : ℕ)
      → get_elem? (asio.bytes ip.address) i ≡ none
      → index asio ip (pos i) ≡ throw (record { kind = out_of_range; message = "array::at" })
  unfolding index
  index_none ip i e = rw (e, index)

  -- Where an IPv4 address has four bytes and any other sixteen, `[]` gives the byte at every index
  -- from 0 to 3 or 15, and throws std::out_of_range at any other index.
  index-Indexes : (ip : IpAddress Address) (i : ℤ) → Indexes ip i (index asio ip i)
  index-Indexes ip (negsuc n) = unfold index in refl
  index-Indexes ip (pos i) = elim (Option-cases (get_elem? (asio.bytes ip.address) i)) [
    | inl e ↦
        rw (index_none ip i e)
          (subst (λ w. w ≤ i) (law.bytes_length ip.address) (get_elem?_bounds _ i e), refl)
    | inr (b, e) ↦
        rw (index_some ip i b e)
          (subst (λ w. i < w) (law.bytes_length ip.address) (get_elem?-lt _ i e), e)
  ]

  -- A socket structure carries the address: its family, port 0 and, byte by byte, what `[i]` gives.
  abbrev pub Carries : IpAddress Address → Sockaddr → Type 0
  Carries ip (v4 sa) =
      (asio.is_v4 ip.address ≡ true)
      × (sa.sin_family ≡ inet.af_inet)
      × (sa.sin_port ≡ 0)
      × (length sa.sin_addr ≡ 4)
      × ((i b : ℕ) → get_elem? sa.sin_addr i ≡ some b → index asio ip (pos i) ≡ ok b)
  Carries ip (v6 sa) =
      (asio.is_v4 ip.address ≡ false)
      × (sa.sin6_family ≡ inet.af_inet6)
      × (sa.sin6_port ≡ 0)
      × (sa.sin6_scope_id ≡ scope_value ip.scope)
      × (length sa.sin6_addr ≡ 16)
      × ((i b : ℕ) → get_elem? sa.sin6_addr i ≡ some b → index asio ip (pos i) ≡ ok b)

  pub in_read :
      (ip : IpAddress Address) (a : List ℕ)
      → inet.inet_pton inet.af_inet (asio.print ip.address) ≡ some a
      → to_sockaddr_in asio inet ip
        ≡ ok (record { sin_family = inet.af_inet; sin_port = 0; sin_addr = a })
  unfolding to_sockaddr_in
  in_read ip a e =
      let e' : inet.inet_pton inet.af_inet (asio.print ip.address ++ []) ≡ some a =
        rw append-nil e in
      rw (e', to_sockaddr_in)

  pub in6_read :
      (ip : IpAddress Address) (a : List ℕ)
      → inet.inet_pton inet.af_inet6 (asio.print ip.address) ≡ some a
      → to_sockaddr_in6 asio inet ip
        ≡ ok (record {
          sin6_family = inet.af_inet6;
          sin6_port = 0;
          sin6_scope_id = scope_value ip.scope;
          sin6_addr = a;
        })
  unfolding to_sockaddr_in6
  in6_read ip a e =
      let e' : inet.inet_pton inet.af_inet6 (asio.print ip.address ++ []) ≡ some a =
        rw append-nil e in
      rw (e', to_sockaddr_in6)

  abbrev refused : Exception
  refused = netex "Failed to convert address={} to network format: {}"

  in_refused :
      (ip : IpAddress Address)
      → inet.inet_pton inet.af_inet (asio.print ip.address) ≡ none
      → to_sockaddr_in asio inet ip ≡ throw refused
  unfolding to_sockaddr_in
  in_refused ip e =
      let e' : inet.inet_pton inet.af_inet (asio.print ip.address ++ []) ≡ none = rw append-nil e in
      rw (e', to_sockaddr_in)

  in6_refused :
      (ip : IpAddress Address)
      → inet.inet_pton inet.af_inet6 (asio.print ip.address) ≡ none
      → to_sockaddr_in6 asio inet ip ≡ throw refused
  unfolding to_sockaddr_in6
  in6_refused ip e =
      let e' : inet.inet_pton inet.af_inet6 (asio.print ip.address ++ []) ≡ none =
        rw append-nil e in
      rw (e', to_sockaddr_in6)

  -- For an address with no scope id, where inet_pton is as documented: an IPv4 address is converted by
  -- to_sockaddr_in and any other by to_sockaddr_in6, to a structure with its family, port 0, the scope for
  -- IPv6, and 4 or 16 bytes, each of which is what `[]` gives at its index; to_sockaddr, which calls the
  -- same one, then reads behind the end of the structure.
  pub to_sockaddr_in-Carries :
      (ip : IpAddress Address)
      → scoped ip.address ≡ false
      → (((sa : SockaddrIn) × (to_sockaddr_in asio inet ip ≡ ok sa) × Carries ip (v4 sa))
          ⊎ ((sa : SockaddrIn6) × (to_sockaddr_in6 asio inet ip ≡ ok sa) × Carries ip (v6 sa)))
        × (to_sockaddr asio inet ip ≡ stuck)
  to_sockaddr_in-Carries ip h = elim (Bool-cases (asio.is_v4 ip.address)) [
    | inl is4 ↦
        let a = asio.bytes ip.address in
        let e : inet.inet_pton inet.af_inet (asio.print ip.address) ≡ some a =
          law.pton_v4 ip.address h ∙ rw is4 in
        (
          inl (
            record { sin_family = inet.af_inet; sin_port = 0; sin_addr = a },
            in_read ip a e,
            (is4, refl, refl, law.bytes_length ip.address ∙ rw is4, index_some ip),
          ),
          unfold to_sockaddr in rw (is4, in_read ip a e) refl,
        )
    | inr is6 ↦
        let a = asio.bytes ip.address in
        let e : inet.inet_pton inet.af_inet6 (asio.print ip.address) ≡ some a =
          law.pton_v6 ip.address h ∙ rw is6 in
        (
          inr (
            record {
              sin6_family = inet.af_inet6;
              sin6_port = 0;
              sin6_scope_id = scope_value ip.scope;
              sin6_addr = a;
            },
            in6_read ip a e,
            (is6, refl, refl, refl, law.bytes_length ip.address ∙ rw is6, index_some ip),
          ),
          unfold to_sockaddr in rw (is6, in6_read ip a e) refl,
        )
  ]

  -- Asked for the structure of the other version, the conversion throws a network_exception.
  pub to_sockaddr_other :
      (ip : IpAddress Address)
      → scoped ip.address ≡ false
      → let refused = netex "Failed to convert address={} to network format: {}" in
        (asio.is_v4 ip.address ≡ false → to_sockaddr_in asio inet ip ≡ throw refused)
        × (asio.is_v4 ip.address ≡ true → to_sockaddr_in6 asio inet ip ≡ throw refused)
  to_sockaddr_other ip h = (
    λ is6. in_refused ip (law.pton_v4 ip.address h ∙ rw is6),
    λ is4. in6_refused ip (law.pton_v6 ip.address h ∙ rw is4),
  )
