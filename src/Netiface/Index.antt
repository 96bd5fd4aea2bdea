-- ===== src/Netiface/Index.antt =====
-- get_index: the index of the one link of that name, and -1 for a name that no link has.
use fnc.Prelude.{
  ◌≡◌, refl, ◌∙◌, arith, ℤ, negsuc, Bool, true, false, ◌&&◌, some, List, [], ◌∷◌, ◌++◌, ◌==◌, All,
  Text, text_eq, if◌then◌else◌,
}
use fnc.Exceptions.{ok}
use fnc.Netlink.Kernel.{Headers, State, Reply, Attribute}
use fnc.Netlink.Response.{calls, calls-append}
use fnc.Netiface.{Env, get_index}
use fnc.Netiface.Answer.{Dumps, exchange-Dumps}
use fnc.Netiface.Callbacks.{c_string, index_loop, index_callback}
use fnc.Netiface.Names.{names_end}

module _ (h : Headers) where
  -- The name in the first attribute IFLA_IFNAME is this one.
  abbrev pub attributes_name : Text → List Attribute → Bool
  attributes_name name [] = false
  attributes_name name (a ∷ rest) =
      let on = attributes_name name rest in
      if a.rta_type == h.ifla_ifname then text_eq name (c_string a.rta_data) else on

  -- The message describes the link of this name.
  abbrev pub names_link : Text → Reply → Bool
  names_link name m = m.nlmsg_type == h.rtm_newlink && attributes_name name m.attributes

  index_loop_named :
      (name : Text) (ifi : ℤ) (attrs : List Attribute)
      → names_end h attrs ≡ true
      → attributes_name name attrs ≡ true
      → index_loop h name ifi attrs (negsuc 0) ≡ ok ifi
  unfolding index_loop
  index_loop_named name ifi [] t e = cc
  index_loop_named name ifi (a ∷ attrs) t e = ground (arith, index_loop_named name ifi attrs)

  index_loop_other :
      (name : Text) (ifi idx : ℤ) (attrs : List Attribute)
      → names_end h attrs ≡ true
      → attributes_name name attrs ≡ false
      → index_loop h name ifi attrs idx ≡ ok idx
  unfolding index_loop
  index_loop_other name ifi idx [] t e = refl
  index_loop_other name ifi idx (a ∷ attrs) t e =
      ground (arith, index_loop_other name ifi idx attrs)

  index_callback_named :
      (name : Text) (m : Reply)
      → names_end h m.attributes ≡ true
      → names_link name m ≡ true
      → index_callback h name m (negsuc 0) ≡ ok m.ifi_index
  unfolding index_callback
  index_callback_named name m t e = ground (arith, index_loop_named name m.ifi_index m.attributes)

  index_callback_other :
      (name : Text) (m : Reply) (idx : ℤ)
      → names_end h m.attributes ≡ true
      → names_link name m ≡ false
      → index_callback h name m idx ≡ ok idx
  unfolding index_callback
  index_callback_other name m idx t e =
      ground (arith, index_loop_other name m.ifi_index idx m.attributes)

  calls_other :
      (name : Text) (ms : List Reply) (idx : ℤ)
      → All (λ m. names_end h m.attributes ≡ true) ms
      → All (λ m. names_link name m ≡ false) ms
      → calls h (some (index_callback h name)) ms idx ≡ ok idx
  calls_other name [] idx t d = refl
  calls_other name (m ∷ ms) idx (t, ts) (d, ds) =
      rw (index_callback_other name m idx t d) (calls_other name ms idx ts ds)

module _ {World Address : Type 0} (env : Env World Address) where
  open env use {headers}

  -- On a dump of links whose names end at a NUL, of which `m` alone has the name, get_index returns m's index.
  pub get_index_found :
      (name : Text) (s s' : State World) (before after : List Reply) (m : Reply)
      → Dumps env s headers.rtm_getlink headers.request_dump ok (before ++ (m ∷ after)) s'
      → All (λ x. names_end headers x.attributes ≡ true) before
      → names_end headers m.attributes ≡ true
      → All (λ x. names_end headers x.attributes ≡ true) after
      → All (λ x. names_link headers name x ≡ false) before
      → names_link headers name m ≡ true
      → All (λ x. names_link headers name x ≡ false) after
      → get_index env name s ≡ (ok m.ifi_index, s')
  unfolding get_index
  get_index_found name s s' before after m d tb tm ta b e a =
      exchange-Dumps env (some (index_callback headers name)) _ _ ok (before ++ (m ∷ after)) s s'
        (negsuc 0) m.ifi_index d
        (calls-append headers (some (index_callback headers name)) before (m ∷ after) (negsuc 0)
          ∙ rw
              (
                calls_other headers name before (negsuc 0) tb b,
                index_callback_named headers name m tm e,
              )
              (calls_other headers name after m.ifi_index ta a))

  -- On a dump of links whose names end at a NUL, of which none has the name, get_index returns -1.
  pub get_index_missing :
      (name : Text) (s s' : State World) (ms : List Reply)
      → Dumps env s headers.rtm_getlink headers.request_dump ok ms s'
      → All (λ x. names_end headers x.attributes ≡ true) ms
      → All (λ x. names_link headers name x ≡ false) ms
      → get_index env name s ≡ (ok (negsuc 0), s')
  unfolding get_index
  get_index_missing name s s' ms d t a =
      exchange-Dumps env (some (index_callback headers name)) _ _ ok ms s s' (negsuc 0) (negsuc 0) d
        (calls_other headers name ms (negsuc 0) t a)
