-- ===== src/Netiface/Link.antt =====
-- get_mtu and get_mac_address: an attribute of the link that has the interface's index.
use fnc.Prelude.{
  ℕ, ◌≤◌, ◌<◌, ◌≡◌, refl, subst, ◌∙◌, arith, ℤ, int_eq, Bool, true, false, ◌&&◌, Bool-cases, inl,
  inr, Option, none, some, List, [], ◌∷◌, ◌++◌, ◌==◌, All, Option-cases, length, take, Text,
  if◌then◌else◌,
}
use fnc.Exceptions.{ok}
use fnc.MacAddress.{MacAddress, from_bytes, get_bytes, default_mac}
use fnc.MacAddress.Bytes.{IsByte, Reads, get_bytes-from_bytes}
use fnc.Netlink.Kernel.{Headers, State, Reply, Attribute}
use fnc.Netlink.Response.{calls, calls-append}
use fnc.Netiface.{Env, get_index, get_mtu, get_mac_address}
use fnc.Netiface.Answer.{Dumps, exchange-Dumps}
use fnc.Netiface.Callbacks.{mtu_loop, mtu_callback, mac_loop, mac_callback}

module _ (h : Headers) where
  -- The payload of the first attribute of a type.
  abbrev pub find_attribute : ℕ → List Attribute → Option (List ℕ)
  find_attribute t [] = none
  find_attribute t (a ∷ rest) =
      let on = find_attribute t rest in if a.rta_type == t then some a.rta_data else on

  -- The message describes the link of this index.
  abbrev pub is_link : ℤ → Reply → Bool
  is_link idx m = m.nlmsg_type == h.rtm_newlink && int_eq m.ifi_index idx

  mtu_loop_found :
      (attrs : List Attribute) (mtu : ℕ) (data_bytes : List ℕ)
      → find_attribute h.ifla_mtu attrs ≡ some data_bytes
      → mtu_loop h attrs mtu ≡ h.load_u32 data_bytes
  unfolding mtu_loop
  mtu_loop_found [] mtu data_bytes e = cc
  mtu_loop_found (a ∷ rest) mtu data_bytes e = ground (arith, mtu_loop_found rest mtu data_bytes)

  calls_mtu_other :
      (idx : ℤ) (ms : List Reply) (mtu : ℕ)
      → All (λ m. is_link idx m ≡ false) ms
      → calls h (some (mtu_callback h idx)) ms mtu ≡ ok mtu
  unfolding mtu_callback
  calls_mtu_other idx [] mtu d = refl
  calls_mtu_other idx (m ∷ ms) mtu (d, ds) = rw d (calls_mtu_other idx ms mtu ds)

  calls_mtu_found :
      (idx : ℤ) (before after : List Reply) (m : Reply) (mtu : ℕ) (data_bytes : List ℕ)
      → All (λ x. is_link idx x ≡ false) before
      → is_link idx m ≡ true
      → All (λ x. is_link idx x ≡ false) after
      → find_attribute h.ifla_mtu m.attributes ≡ some data_bytes
      → calls h (some (mtu_callback h idx)) (before ++ (m ∷ after)) mtu ≡ ok (h.load_u32 data_bytes)
  calls_mtu_found idx before after m mtu data_bytes b e a f =
      calls-append h (some (mtu_callback h idx)) before (m ∷ after) mtu
      ∙ rw (calls_mtu_other idx before mtu b) (at_link ∙ calls_mtu_other idx after _ a)
    where
      at_link :
          calls h (some (mtu_callback h idx)) (m ∷ after) mtu
          ≡ calls h (some (mtu_callback h idx)) after (h.load_u32 data_bytes)
      at_link = unfold mtu_callback in rw (e, mtu_loop_found m.attributes mtu data_bytes f)

  mac_loop_found :
      (attrs : List Attribute) (mac found : MacAddress) (data_bytes : List ℕ)
      → find_attribute h.ifla_address attrs ≡ some data_bytes
      → from_bytes data_bytes ≡ some found
      → mac_loop h attrs mac ≡ ok found
  unfolding mac_loop
  mac_loop_found [] mac found data_bytes e f = cc
  mac_loop_found (a ∷ rest) mac found data_bytes e f =
      elim (Bool-cases (a.rta_type == h.ifla_address)) [
        | inl here ↦
            let same : a.rta_data ≡ data_bytes = ground arith in
            let read : from_bytes a.rta_data ≡ some found = rw same f in rw (here, read)
        | inr there ↦ rw there (mac_loop_found rest mac found data_bytes (ground arith) f)
      ]

  calls_mac_other :
      (idx : ℤ) (ms : List Reply) (mac : MacAddress)
      → All (λ m. is_link idx m ≡ false) ms
      → calls h (some (mac_callback h idx)) ms mac ≡ ok mac
  unfolding mac_callback
  calls_mac_other idx [] mac d = refl
  calls_mac_other idx (m ∷ ms) mac (d, ds) = rw d (calls_mac_other idx ms mac ds)

  calls_mac_found :
      (idx : ℤ) (before after : List Reply) (m : Reply) (mac found : MacAddress)
      (data_bytes : List ℕ)
      → All (λ x. is_link idx x ≡ false) before
      → is_link idx m ≡ true
      → All (λ x. is_link idx x ≡ false) after
      → find_attribute h.ifla_address m.attributes ≡ some data_bytes
      → from_bytes data_bytes ≡ some found
      → calls h (some (mac_callback h idx)) (before ++ (m ∷ after)) mac ≡ ok found
  calls_mac_found idx before after m mac found data_bytes b e a f g =
      calls-append h (some (mac_callback h idx)) before (m ∷ after) mac
      ∙ rw (calls_mac_other idx before mac b) (at_link ∙ calls_mac_other idx after found a)
    where
      at_link :
          calls h (some (mac_callback h idx)) (m ∷ after) mac
          ≡ calls h (some (mac_callback h idx)) after found
      at_link = unfold mac_callback in rw (e, mac_loop_found m.attributes mac found data_bytes f g)

module _ {World Address : Type 0} (env : Env World Address) where
  open env use {headers, junk}

  -- When get_index has returned, on a dump of links of which `m` alone has the interface's index
  -- and has an attribute IFLA_MTU, get_mtu returns the MTU in the first of these.
  pub get_mtu_found :
      (name : Text) (s s1 s' : State World) (idx : ℤ) (before after : List Reply) (m : Reply)
      (data_bytes : List ℕ)
      → get_index env name s ≡ (ok idx, s1)
      → Dumps env s1 headers.rtm_getlink headers.request_dump ok (before ++ (m ∷ after)) s'
      → All (λ x. is_link headers idx x ≡ false) before
      → is_link headers idx m ≡ true
      → All (λ x. is_link headers idx x ≡ false) after
      → find_attribute headers headers.ifla_mtu m.attributes ≡ some data_bytes
      → get_mtu env name s ≡ (ok (headers.load_u32 data_bytes), s')
  unfolding get_mtu
  get_mtu_found name s s1 s' idx before after m data_bytes i d b e a f = rw i (
      exchange-Dumps env (some (mtu_callback headers idx)) _ _ ok (before ++ (m ∷ after)) s1 s' junk
        (headers.load_u32 data_bytes) d
        (calls_mtu_found headers idx before after m junk data_bytes b e a f))

  -- When get_index has returned, on a dump of links of which none has the interface's index, as
  -- when it has been removed since the object was made, get_mtu returns what its uninitialised
  -- variable held.
  pub get_mtu_missing :
      (name : Text) (s s1 s' : State World) (idx : ℤ) (ms : List Reply)
      → get_index env name s ≡ (ok idx, s1)
      → Dumps env s1 headers.rtm_getlink headers.request_dump ok ms s'
      → All (λ x. is_link headers idx x ≡ false) ms
      → get_mtu env name s ≡ (ok junk, s')
  unfolding get_mtu
  get_mtu_missing name s s1 s' idx ms i d a = rw i (
      exchange-Dumps env (some (mtu_callback headers idx)) _ _ ok ms s1 s' junk junk d
        (calls_mtu_other headers idx ms junk a))

  -- When get_index has returned, on a dump of links of which `m` alone has the interface's index
  -- and has an attribute IFLA_ADDRESS with at least six bytes from its start on, get_mac_address
  -- returns the address whose bytes are the first six of these.
  pub get_mac_address_found :
      (name : Text) (s s1 s' : State World) (idx : ℤ) (before after : List Reply) (m : Reply)
      (data_bytes : List ℕ)
      → get_index env name s ≡ (ok idx, s1)
      → Dumps env s1 headers.rtm_getlink headers.request_dump ok (before ++ (m ∷ after)) s'
      → All (λ x. is_link headers idx x ≡ false) before
      → is_link headers idx m ≡ true
      → All (λ x. is_link headers idx x ≡ false) after
      → find_attribute headers headers.ifla_address m.attributes ≡ some data_bytes
      → All IsByte data_bytes
      → 6 ≤ length data_bytes
      → (found : MacAddress) × (get_mac_address env name s ≡ (ok found, s'))
        × (get_bytes found ≡ take 6 data_bytes)
  get_mac_address_found name s s1 s' idx before after m data_bytes i d b e a f bytes six =
      elim (Option-cases (from_bytes data_bytes)) [
        | inl short ↦
            absurd (
              lt_irrefl (subst (Reads data_bytes) short (get_bytes-from_bytes data_bytes bytes))
                six)
        | inr (found, read) ↦
            let (_, same, _) =
              subst (Reads data_bytes) read (get_bytes-from_bytes data_bytes bytes) in
            (found, run found read, same)
      ]
    where
      lt_irrefl : {n : ℕ} → n < 6 → 6 ≤ n → ⊥
      lt_irrefl p q = omega arith

      run :
          (found : MacAddress)
          → from_bytes data_bytes ≡ some found
          → get_mac_address env name s ≡ (ok found, s')
      run found read =
          unfold get_mac_address in
          rw i (
            exchange-Dumps env (some (mac_callback headers idx)) _ _ ok (before ++ (m ∷ after)) s1
              s' default_mac found d
              (calls_mac_found headers idx before after m default_mac found data_bytes b e a f
                read))
