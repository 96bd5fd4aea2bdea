-- ===== src/Netiface/Addresses.antt =====
-- get_ip_addresses: the interface's addresses of the wanted families, in the kernel's order.
use fnc.Prelude.{
  ℕ, ◌%◌, ◌/◌, ◌≡◌, refl, sym, ap, ◌≢◌, ◌∙◌, ◌↔◌, arith, ℤ, pos, negsuc, Bool, true, false, not,
  ◌&&◌, Bool-cases, inl, inr, some, List, [], ◌∷◌, ◌++◌, ◌==◌, All, Text, if◌then◌else◌,
  append_assoc, append-nil,
}
use fnc.Prelude.Bits.{bit_and-one, bit_and-two}
use fnc.Exceptions.{ok}
use fnc.Bitmask.{mask_and}
use fnc.IpAddress.{Asio, Inet, IpAddress, build}
use fnc.IpAddress
use fnc.IpAddress.Build.{from_string_read}
use fnc.Netlink.Kernel.{Headers, State, Reply, Attribute}
use fnc.Netlink.Response.{calls}
use fnc.Netiface.{Env, get_index, get_ip_addresses_impl, set_ifaddr}
use fnc.Netiface.Answer.{Dumps, exchange-Dumps}
use fnc.Netiface.Callbacks.{
  to_u32, wants_v4, wants_v6, is_unwanted, address_of, address_loop, address_callback,
}

-- The family is tested by its bits: IPv4 addresses are wanted exactly for an odd value, IPv6 addresses
-- exactly if the next bit is set. So `v4`, `v6` and `all` want what they say, and every value of a
-- mask is given a meaning.
wants_iff :
    (ip_family : ℕ)
    → ((wants_v4 ip_family ≡ true) ↔ (ip_family % 2 ≡ 1))
      × ((wants_v6 ip_family ≡ true) ↔ (ip_family / 2 % 2 ≡ 1))
unfolding wants_v4 wants_v6 mask_and
wants_iff ip_family = ground (arith, bit_and-one ip_family, bit_and-two ip_family)

-- An address that the kernel has: the index of its interface, its family and prefix length.
pub record Assigned : Type 0 where
  pub index : ℕ
  pub family : ℕ
  pub prefixlen : ℕ

module _ {Address : Type 0} (h : Headers) (asio : Asio Address) (inet : Inet) where
  -- The message reports the address: it is of type RTM_NEWADDR, and among attributes of other types it
  -- has one IFA_ADDRESS.
  pub record Reports (m : Reply) (a : Assigned) (ip : Address) : Type 0 where
    pub is_newaddr : (m.nlmsg_type == h.rtm_newaddr) ≡ true
    pub same_index : m.ifa_index ≡ a.index
    pub same_family : m.ifa_family ≡ a.family
    pub same_prefixlen : m.ifa_prefixlen ≡ a.prefixlen
    pub before : List Attribute
    pub attribute : Attribute
    pub after : List Attribute
    pub split : m.attributes ≡ before ++ (attribute ∷ after)
    pub others_before : All (λ x. (x.rta_type == h.ifa_address) ≡ false) before
    pub is_address : (attribute.rta_type == h.ifa_address) ≡ true
    pub others_after : All (λ x. (x.rta_type == h.ifa_address) ≡ false) after
    -- inet_ntop writes it as a text that boost reads as `ip`.
    pub text : Text
    pub written : inet.inet_ntop a.family attribute.rta_data ≡ some text
    pub reads : asio.from_string text ≡ some ip

  module _ (ip_family : ℕ) (include_prefix : Bool) where
    abbrev pub prefix_of : Assigned → ℤ
    prefix_of a = if include_prefix then pos a.prefixlen else negsuc 0

    loop_others :
        (m : Reply) (attrs : List Attribute) (l : List (IpAddress Address))
        → All (λ x. (x.rta_type == h.ifa_address) ≡ false) attrs
        → address_loop h asio inet ip_family include_prefix m attrs l ≡ ok l
    unfolding address_loop
    loop_others m [] l d = refl
    loop_others m (a ∷ attrs) l (d, ds) = rw d (loop_others m attrs l ds)

    loop_before :
        (m : Reply) (before attrs : List Attribute) (l : List (IpAddress Address))
        → All (λ x. (x.rta_type == h.ifa_address) ≡ false) before
        → address_loop h asio inet ip_family include_prefix m (before ++ attrs) l
          ≡ address_loop h asio inet ip_family include_prefix m attrs l
    unfolding address_loop
    loop_before m [] attrs l d = refl
    loop_before m (a ∷ before) attrs l (d, ds) = rw d (loop_before m before attrs l ds)

    -- Whether addresses of a family are asked for: those of IPv4 by the lowest bit, those of IPv6 by the
    -- next one, all others always.
    abbrev pub asked_for : ℕ → Bool
    asked_for family =
        if family == inet.af_inet
        then ip_family % 2 == 1
        else if family == inet.af_inet6
        then ip_family / 2 % 2 == 1
        else true

    -- The address as it is returned, for an interface's index.
    abbrev pub returned : ℕ → Assigned → Address → List (IpAddress Address)
    returned index a ip =
        if a.index == index && asked_for a.family then build asio ip (prefix_of a) ∷ [] else []

    module _ (apart : inet.af_inet ≢ inet.af_inet6) where
      is_unwanted-asked_for :
          (family : ℕ) → is_unwanted inet ip_family family ≡ not (asked_for family)
      unfolding is_unwanted wants_v4 wants_v6 mask_and
      is_unwanted-asked_for family = ground (arith, bit_and-one ip_family, bit_and-two ip_family)

      address_of_written :
          (m : Reply) (bytes : List ℕ) (text : Text)
          → inet.inet_ntop m.ifa_family bytes ≡ some text
          → address_of asio inet include_prefix m bytes
            ≡ IpAddress.from_string asio text
                (if include_prefix then pos m.ifa_prefixlen else negsuc 0)
      unfolding address_of
      address_of_written m bytes text e = rw (e, address_of) refl

      loop_reported :
          (m : Reply) (a : Assigned) (ip : Address) (l : List (IpAddress Address))
          → Reports m a ip
          → address_loop h asio inet ip_family include_prefix m m.attributes l
            ≡ ok (l ++ (if asked_for a.family then build asio ip (prefix_of a) ∷ [] else []))
      loop_reported m a ip l r =
          ap (λ t. address_loop h asio inet ip_family include_prefix m t l) r.split
          ∙ loop_before m r.before (r.attribute ∷ r.after) l r.others_before
          ∙ at_address
        where
          made :
              address_of asio inet include_prefix m r.attribute.rta_data
              ≡ ok (build asio ip (prefix_of a))
          made =
              address_of_written m r.attribute.rta_data r.text
                (ap (λ f. inet.inet_ntop f r.attribute.rta_data) r.same_family ∙ r.written)
              ∙ ap
                  (λ p.
                    IpAddress.from_string asio r.text (if include_prefix then pos p else negsuc 0))
                  r.same_prefixlen
              ∙ from_string_read asio _ _ ip r.reads

          test : is_unwanted inet ip_family m.ifa_family ≡ not (asked_for a.family)
          test = ap (is_unwanted inet ip_family) r.same_family ∙ is_unwanted-asked_for a.family

          at_address :
              address_loop h asio inet ip_family include_prefix m (r.attribute ∷ r.after) l
              ≡ ok (l ++ (if asked_for a.family then build asio ip (prefix_of a) ∷ [] else []))
          at_address = elim (Bool-cases (asked_for a.family)) [
            | inl asked ↦
                unfold address_loop in
                rw (r.is_address, test, asked, made) (loop_others m r.after _ r.others_after)
            | inr ignored ↦
                unfold address_loop in rw (r.is_address, test, ignored) (ap ok (sym (append-nil l)))
          ]

      callback_reported :
          (idx : ℤ) (m : Reply) (a : Assigned) (ip : Address) (l : List (IpAddress Address))
          → Reports m a ip
          → address_callback h asio inet ip_family include_prefix idx m l
            ≡ ok (l ++ returned (to_u32 idx) a ip)
      unfolding address_callback
      callback_reported idx m a ip l r = elim (Bool-cases (a.index == to_u32 idx)) [
        | inl here ↦
            let test : (m.ifa_index == to_u32 idx) ≡ true =
              ap (λ n. n == to_u32 idx) r.same_index ∙ here in
            rw (r.is_newaddr, test, here) (loop_reported m a ip l r)
        | inr elsewhere ↦
            let test : (m.ifa_index == to_u32 idx) ≡ false =
              ap (λ n. n == to_u32 idx) r.same_index ∙ elsewhere in
            rw (r.is_newaddr, test, elsewhere) (ap ok (sym (append-nil l)))
      ]

    -- An answer reports these addresses, one in each message, in this order.
    abbrev pub ReportsAll : List Reply → List (Assigned × Address) → Type 0
    ReportsAll [] [] = Unit {0}
    ReportsAll [] (e ∷ es) = ⊥
    ReportsAll (m ∷ ms) [] = ⊥
    ReportsAll (m ∷ ms) ((a, ip) ∷ es) = Reports m a ip × ReportsAll ms es

    abbrev pub all_returned : ℕ → List (Assigned × Address) → List (IpAddress Address)
    all_returned index [] = []
    all_returned index ((a, ip) ∷ es) = returned index a ip ++ all_returned index es

    calls_reported :
        inet.af_inet ≢ inet.af_inet6
        → (idx : ℤ) (ms : List Reply) (es : List (Assigned × Address))
          (l : List (IpAddress Address))
        → ReportsAll ms es
        → calls h (some (address_callback h asio inet ip_family include_prefix idx)) ms l
          ≡ ok (l ++ all_returned (to_u32 idx) es)
    calls_reported apart idx [] [] l r = ap ok (sym (append-nil l))
    calls_reported apart idx [] (e ∷ es) l r = absurd r
    calls_reported apart idx (m ∷ ms) [] l r = absurd r
    calls_reported apart idx (m ∷ ms) ((a, ip) ∷ es) l (r, rs) =
        rw (callback_reported apart idx m a ip l r) (
          calls_reported apart idx ms es (l ++ returned (to_u32 idx) a ip) rs
          ∙ ap ok (append_assoc l _ _))

module _ {World Address : Type 0} (env : Env World Address) where
  open env use {headers, inet, asio}

  -- When get_index has returned, and the kernel answers with a dump that reports its addresses,
  -- one in each message: get_ip_addresses_impl returns those of its interface whose family is
  -- asked for, in the kernel's order, with the kernel's prefix lengths or, without
  -- `include_prefix`, with those that the constructor puts. AF_INET and AF_INET6 differ.
  pub get_ip_addresses_impl-all_returned :
      inet.af_inet ≢ inet.af_inet6
      → (name : Text) (ip_family : ℕ) (include_prefix : Bool) (s s1 s' : State World) (idx : ℤ)
        (ms : List Reply) (es : List (Assigned × Address))
      → get_index env name s ≡ (ok idx, s1)
      → Dumps env s1 headers.rtm_getaddr headers.request_match
          (λ msg. ok (set_ifaddr (record (msg.req.ifaddr) { ifa_index = to_u32 idx }) msg))
          ms
          s'
      → ReportsAll headers asio inet ip_family include_prefix ms es
      → get_ip_addresses_impl env name ip_family include_prefix s
        ≡ (ok (all_returned headers asio inet ip_family include_prefix (to_u32 idx) es), s')
  unfolding get_ip_addresses_impl
  get_ip_addresses_impl-all_returned apart name ip_family include_prefix s s1 s' idx ms es i d r =
      rw i (
        exchange-Dumps env (some (address_callback headers asio inet ip_family include_prefix idx))
          _ _ _ ms s1 s' [] _ d
          (calls_reported headers asio inet ip_family include_prefix apart idx ms es [] r))
