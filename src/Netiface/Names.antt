-- ===== src/Netiface/Names.antt =====
-- get_iface_names, and the constructor of `netiface`, which asks for them.
use fnc.Prelude.{
  ◌≡◌, sym, arith, Bool, true, ◌&&◌, All, ap, ◌∙◌, Bool-cases, inl, inr, some, List, [], ◌∷◌, ◌++◌,
  ◌==◌, Text, text_eq, if◌then◌else◌, append_assoc, append-nil,
}
use fnc.Exceptions.{ok, throw, netex}
use fnc.ContainerUtil.{contains}
use fnc.Netlink.Kernel.{Headers, State, Reply, Attribute}
use fnc.Netlink.Response.{calls}
use fnc.Netiface.{Env, get_iface_names, construct_netiface}
use fnc.Netiface.Answer.{Dumps, exchange-Dumps}
use fnc.Netiface.Callbacks.{c_string, has_nul, names_loop, names_callback}

module _ (h : Headers) where
  -- The names in a link's attributes.
  abbrev pub attribute_names : List Attribute → List Text
  attribute_names [] = []
  attribute_names (a ∷ rest) =
      let names = attribute_names rest in
      if a.rta_type == h.ifla_ifname then c_string a.rta_data ∷ names else names

  -- Every name in a link's attributes ends at a NUL, as the kernel's texts do.
  abbrev pub names_end : List Attribute → Bool
  names_end [] = true
  names_end (a ∷ rest) =
      let on = names_end rest in
      if a.rta_type == h.ifla_ifname then has_nul a.rta_data && on else on

  -- The names that an answer reports, in its order.
  abbrev pub reported_names : List Reply → List Text
  reported_names [] = []
  reported_names (m ∷ ms) =
      (if m.nlmsg_type == h.rtm_newlink then attribute_names m.attributes else [])
      ++ reported_names ms

  names_loop-append :
      (attrs : List Attribute) (names : List Text)
      → names_end attrs ≡ true
      → names_loop h attrs names ≡ ok (names ++ attribute_names attrs)
  unfolding names_loop
  names_loop-append [] names t = ap ok (sym (append-nil names))
  names_loop-append (a ∷ rest) names t = elim (Bool-cases (a.rta_type == h.ifla_ifname)) [
    | inl e ↦
        let nul : has_nul a.rta_data ≡ true = ground (arith, e, t) in
        let on : names_end rest ≡ true = ground (arith, e, t) in
        rw (e, nul)
          (names_loop-append rest (names ++ (c_string a.rta_data ∷ [])) on
            ∙ ap ok (append_assoc names _ _))
    | inr e ↦
        let on : names_end rest ≡ true = ground (arith, e, t) in
        rw e (names_loop-append rest names on)
  ]

  calls_names :
      (ms : List Reply) (names : List Text)
      → All (λ m. names_end m.attributes ≡ true) ms
      → calls h (some (names_callback h)) ms names ≡ ok (names ++ reported_names ms)
  unfolding names_callback
  calls_names [] names t = ap ok (sym (append-nil names))
  calls_names (m ∷ ms) names (t, ts) = elim (Bool-cases (m.nlmsg_type == h.rtm_newlink)) [
    | inl e ↦
        rw (e, names_loop-append m.attributes names t)
          (calls_names ms (names ++ attribute_names m.attributes) ts
            ∙ ap ok (append_assoc names _ _))
    | inr e ↦ rw e (calls_names ms names ts)
  ]

module _ {World Address : Type 0} (env : Env World Address) where
  open env use {headers}

  -- On a dump of links whose names end at a NUL get_iface_names returns the names that the links report, in their order.
  pub get_iface_names-reported_names :
      (s s' : State World) (ms : List Reply)
      → Dumps env s headers.rtm_getlink headers.request_dump ok ms s'
      → All (λ m. names_end headers m.attributes ≡ true) ms
      → get_iface_names env s ≡ (ok (reported_names headers ms), s')
  unfolding get_iface_names
  get_iface_names-reported_names s s' ms d t =
      exchange-Dumps env (some (names_callback headers)) _ _ ok ms s s' [] _ d
        (calls_names headers ms [] t)

  -- On a dump of links whose names end at a NUL the constructor accepts a name exactly if it is among those that the links
  -- report, and throws a network_exception if it is not.
  pub construct_netiface_lem :
      (name : Text) (s s' : State World) (ms : List Reply)
      → Dumps env s headers.rtm_getlink headers.request_dump ok ms s'
      → All (λ m. names_end headers m.attributes ≡ true) ms
      → construct_netiface env name s ≡ (
        (if contains text_eq (reported_names headers ms) name
            then ok name
            else throw (netex "Specified interface does not exist name={}")),
        s',
      )
  unfolding construct_netiface
  construct_netiface_lem name s s' ms d t =
      rw (get_iface_names-reported_names s s' ms d t)
        (elim (Bool-cases (contains text_eq (reported_names headers ms) name)) [
          | inl e ↦ rw e
          | inr e ↦ rw e
        ])
