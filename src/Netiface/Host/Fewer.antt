-- ===== src/Netiface/Host/Fewer.antt =====
-- What stays of a host's addresses when some are gone.
use fnc.Prelude.{ℕ, ◌≡◌, ap, ◌∙◌, ◌&&◌, ◌||◌, arith, false, inl, inr, List, [], ◌∷◌, ◌==◌}
use fnc.IpAddress.{Asio}
use fnc.Netiface.Addresses.{Assigned}
use fnc.Netiface.Host.{Fewer, holds, has}

module _ {Address : Type 0} (asio : Asio Address) (Q : Assigned × Address → Type 0) where
  -- Nothing is added.
  pub Fewer-has :
      (xs ys : List (Assigned × Address)) (index : ℕ) (ip : Address)
      → Fewer Q xs ys
      → has asio xs index ip ≡ false
      → has asio ys index ip ≡ false
  Fewer-has [] ys index ip same none = ap (λ es. has asio es index ip) same
  Fewer-has ((a, x) ∷ xs) ys index ip (inl (is, fewer)) none =
      Fewer-has xs ys index ip fewer (ground (arith, none))
  Fewer-has ((a, x) ∷ xs) ys index ip (inr (rest, same, fewer)) none =
      let ih = Fewer-has xs rest index ip fewer (ground (arith, none)) in
      ap (λ es. has asio es index ip) same ∙ ground (arith, none, ih)

  pub Fewer-holds :
      (xs ys : List (Assigned × Address)) (index n : ℕ) (ip : Address)
      → Fewer Q xs ys
      → holds asio xs index n ip ≡ false
      → holds asio ys index n ip ≡ false
  Fewer-holds [] ys index n ip same none = ap (λ es. holds asio es index n ip) same
  Fewer-holds ((a, x) ∷ xs) ys index n ip (inl (is, fewer)) none =
      Fewer-holds xs ys index n ip fewer (ground (arith, none))
  Fewer-holds ((a, x) ∷ xs) ys index n ip (inr (rest, same, fewer)) none =
      let ih = Fewer-holds xs rest index n ip fewer (ground (arith, none)) in
      ap (λ es. holds asio es index n ip) same ∙ ground (arith, none, ih)

  -- An address of which nothing can go is there as before.
  pub Fewer-stays :
      (xs ys : List (Assigned × Address)) (index n : ℕ) (ip : Address)
      → Fewer Q xs ys
      → ((a : Assigned) (x : Address)
          → Q (a, x)
          → (a.index == index && (a.prefixlen == n && asio.equal x ip)) ≡ false)
      → holds asio ys index n ip ≡ holds asio xs index n ip
  Fewer-stays [] ys index n ip same other = ap (λ es. holds asio es index n ip) same
  Fewer-stays ((a, x) ∷ xs) ys index n ip (inl (is, fewer)) other =
      Fewer-stays xs ys index n ip fewer other ∙ ground (arith, other a x is)
  Fewer-stays ((a, x) ∷ xs) ys index n ip (inr (rest, same, fewer)) other =
      ap (λ es. holds asio es index n ip) same
      ∙ ap (λ r. (a.index == index && (a.prefixlen == n && asio.equal x ip)) || r)
          (Fewer-stays xs rest index n ip fewer other)
