-- ===== src/Netiface/Host/Holds.antt =====
-- The address that a client looks for in the list, and the one that the host has.
use fnc.Prelude.{
  ℤ, negsuc, false, ℕ, ◌≡◌, refl, ◌∙◌, arith, pos, Bool, true, ◌&&◌, ◌||◌, Bool-cases, inl, inr,
  List, [], ◌∷◌, ◌++◌, ◌==◌, ==_iff, any,
}
use fnc.ContainerUtil.{contains}
use fnc.IpAddress.{Asio, Inet, build, ip_eq, Scope, global, host, scope_eq}
use fnc.IpAddress.Equality.{ip_eq-build}
use fnc.IpAddress.Build.{IsAsio}
use fnc.Netlink.Kernel.{Headers}
use fnc.Netiface.Addresses.{Assigned, asked_for, returned, all_returned}
use fnc.Netiface.Callbacks.{family_all}
use fnc.Netiface.Host.{holds, has}

scope_eq_refl : (s : Scope) → scope_eq s s ≡ true
scope_eq_refl global = refl
scope_eq_refl host = refl

any-append :
    {A : Type 0} (p : A → Bool) (xs ys : List A) → any p (xs ++ ys) ≡ (any p xs || any p ys)
any-append p [] ys = refl
any-append p (x ∷ xs) ys = ground (arith, any-append p xs ys)

module _ {Address : Type 0} (asio : Asio Address) (law : IsAsio asio) where
  -- Addresses that are built with prefix lengths are equal when boost's addresses and the lengths are.
  pub ip_eq-build_pos :
      (x ip : Address) (p n : ℕ)
      → ip_eq asio (build asio x (pos p)) (build asio ip (pos n)) ≡ (asio.equal x ip && p == n)
  ip_eq-build_pos x ip p n = elim (Bool-cases (asio.equal x ip)) [
    | inl e ↦
        let same : x ≡ ip = (law.equal_iff x ip).0 e in
        unfold ip_eq build in rw (e, same, scope_eq_refl) (ground arith)
    | inr e ↦ unfold ip_eq build in rw e refl
  ]

  module _ (h : Headers) (inet : Inet) where
    asked_for_all :
        (include_prefix : Bool) (family : ℕ)
        → asked_for h asio inet family_all include_prefix family ≡ true
    asked_for_all include_prefix family = ground arith

    returned-holds :
        (a : Assigned) (x ip : Address) (index n : ℕ)
        → any
            (λ y. ip_eq asio y (build asio ip (pos n)))
            (returned h asio inet family_all true index a x)
          ≡ (a.index == index && (a.prefixlen == n && asio.equal x ip))
    returned-holds a x ip index n = elim (Bool-cases (a.index == index)) [
      | inl e ↦
          rw (e, asked_for_all true a.family, ip_eq-build_pos x ip a.prefixlen n) (ground arith)
      | inr e ↦ rw e refl
    ]

    -- Among the addresses of all families that an interface returns is the one that is looked for,
    -- exactly if the host has it with this interface's index and this prefix length.
    pub contains-holds :
        (es : List (Assigned × Address)) (ip : Address) (index n : ℕ)
        → contains
            (ip_eq asio)
            (all_returned h asio inet family_all true index es)
            (build asio ip (pos n))
          ≡ holds asio es index n ip
    contains-holds [] ip index n = refl
    contains-holds ((a, x) ∷ es) ip index n =
        any-append _ (returned h asio inet family_all true index a x)
          (all_returned h asio inet family_all true index es)
        ∙ rw (returned-holds a x ip index n, contains-holds es ip index n) refl

-- An address that has been assigned is there, among whichever addresses.
pub holds-Inserted :
    {Address : Type 0} (asio : Asio Address)
    → IsAsio asio
    → (before after : List (Assigned × Address)) (a : Assigned) (ip : Address)
    → holds asio (before ++ ((a, ip) ∷ after)) a.index a.prefixlen ip ≡ true
holds-Inserted asio law [] after a ip =
    rw
      (
        (==_iff a.index a.index).1 refl,
        (==_iff a.prefixlen a.prefixlen).1 refl,
        (law.equal_iff ip ip).1 refl,
      )
      refl
holds-Inserted asio law ((b, x) ∷ before) after a ip =
    ground (arith, holds-Inserted asio law before after a ip)

-- What an address of any prefix length is among, in two parts.
pub has-append :
    {Address : Type 0} (asio : Asio Address) (xs ys : List (Assigned × Address)) (index : ℕ)
    (ip : Address)
    → has asio (xs ++ ys) index ip ≡ (has asio xs index ip || has asio ys index ip)
has-append asio [] ys index ip = refl
has-append asio ((a, x) ∷ xs) ys index ip = ground (arith, has-append asio xs ys index ip)

pub has-Inserted :
    {Address : Type 0} (asio : Asio Address)
    → IsAsio asio
    → (before after : List (Assigned × Address)) (a : Assigned) (ip : Address)
    → has asio (before ++ ((a, ip) ∷ after)) a.index ip ≡ true
has-Inserted asio law before after a ip =
    has-append asio before ((a, ip) ∷ after) a.index ip
    ∙ rw ((==_iff a.index a.index).1 refl, (law.equal_iff ip ip).1 refl) (ground arith)

module _ {Address : Type 0} (asio : Asio Address) (law : IsAsio asio) (h : Headers)
    (inet : Inet) where
  build-address : (x : Address) (prefix : ℤ) → (build asio x prefix).address ≡ x
  unfolding build
  build-address x prefix = refl

  -- The test of del_ip_address for an IPv4 address.
  pub any-has :
      (es : List (Assigned × Address)) (ip : Address) (index : ℕ)
      → any (λ x. asio.equal x.address ip) (all_returned h asio inet family_all true index es)
        ≡ has asio es index ip
  any-has [] ip index = refl
  any-has ((a, x) ∷ es) ip index =
      any-append _ (returned h asio inet family_all true index a x)
        (all_returned h asio inet family_all true index es)
      ∙ rw (any-has es ip index) (elim (Bool-cases (a.index == index)) [
        | inl e ↦
            rw (e, asked_for_all asio law h inet true a.family, build-address x (pos a.prefixlen))
              (ground arith)
        | inr e ↦ rw e refl
      ])

  -- The condition that del_ip_address waits for.
  pub contains-has :
      (es : List (Assigned × Address)) (ip : Address) (index : ℕ)
      → contains
          (ip_eq asio)
          (all_returned h asio inet family_all false index es)
          (build asio ip (negsuc 0))
        ≡ has asio es index ip
  contains-has [] ip index = refl
  contains-has ((a, x) ∷ es) ip index =
      any-append _ (returned h asio inet family_all false index a x)
        (all_returned h asio inet family_all false index es)
      ∙ rw (contains-has es ip index) (elim (Bool-cases (a.index == index)) [
        | inl e ↦
            rw (e, asked_for_all asio law h inet false a.family, ip_eq-build asio law x ip)
              (ground arith)
        | inr e ↦ rw e refl
      ])

pub has-holds :
    {Address : Type 0} (asio : Asio Address) (es : List (Assigned × Address)) (index n : ℕ)
    (ip : Address)
    → has asio es index ip ≡ false
    → holds asio es index n ip ≡ false
has-holds asio [] index n ip h = refl
has-holds asio ((a, x) ∷ es) index n ip h = ground (arith, h, has-holds asio es index n ip)

pub has-some :
    {Address : Type 0} (asio : Asio Address) (es : List (Assigned × Address)) (index : ℕ)
    (ip : Address)
    → has asio es index ip ≡ true
    → (n : ℕ) × (holds asio es index n ip ≡ true)
has-some asio [] index ip h = cc
has-some asio ((a, x) ∷ es) index ip h = elim (Bool-cases (a.index == index && asio.equal x ip)) [
  | inl e ↦ (a.prefixlen, ground (arith, e))
  | inr e ↦
      let (n, there) = has-some asio es index ip (ground (arith, h, e)) in
      (n, ground (arith, there))
]
