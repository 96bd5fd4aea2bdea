-- ===== src/Netiface/Host/Reads.antt =====
-- What the operations read of a host.
use fnc.Prelude.{
  ℕ, ◌<◌, ◌%◌, ◌^◌, ◌≡◌, refl, sym, ap, subst, ◌∙◌, arith, ℤ, int_eq, int_eq_iff, Bool, true, List,
  [], ◌∷◌, All, map, length, Text, text_eq, text_eq_iff, if◌then◌else◌,
}
use fnc.Exceptions.{ok, throw, netex}
use fnc.ContainerUtil.{contains}
use fnc.MacAddress.{MacAddress, get_bytes}
use fnc.MacAddress.Bytes.{IsByte}
use fnc.Netlink.Kernel.{State}
use fnc.Netiface.{
  Env, get_iface_names, construct_netiface, get_index, get_mtu, get_mac_address,
  get_ip_addresses_impl,
}
use fnc.Netiface.Addresses.{all_returned, get_ip_addresses_impl-all_returned}
use fnc.Netiface.Callbacks.{to_u32}
use fnc.Netiface.Host.{Link, At}
use fnc.Netiface.Host.Kernel.{Reporting}
use fnc.Netiface.Answer.{Dumps}
use fnc.Netiface.Host.Dumped.{links-Dumps, addresses-Dumps}
use fnc.Netiface.Index.{get_index_found}
use fnc.Netiface.Link.{get_mtu_found, get_mac_address_found}
use fnc.Netiface.Names.{
  names_end, reported_names, get_iface_names-reported_names, construct_netiface_lem,
}
use fnc.Netiface.Host.Described.{
  take_all, names_link-describe, is_link-describe, others_named, others_indexed, described,
}

module _ {World Address : Type 0} (env : Env World Address) (k : Reporting env) where
  open env use {headers, inet, asio, sys}

  text_eq_refl : (t : Text) → text_eq t t ≡ true
  text_eq_refl t = (text_eq_iff t t).1 refl

  -- get_index returns the index of the host's link of this name.
  names_end-describe :
      (links : List Link) → All (λ m. names_end headers m.attributes ≡ true) (map k.describe links)
  names_end-describe [] = tt
  names_end-describe (l ∷ links) = ((k.describes l).ends, names_end-describe links)

  pub get_index_At :
      (s : State World) (l : Link)
      → At l (k.host s.world).links
      → (s' : State World) × (get_index env l.name s ≡ (ok l.index, s'))
        × (k.host s'.world ≡ k.host s.world)
  get_index_At s l at =
      let (s', d, kept) = links-Dumps env k s in
      (
        s',
        get_index_found env l.name s s' (map k.describe at.before) (map k.describe at.after)
              (k.describe l)
              (subst (λ ms. Dumps env s headers.rtm_getlink headers.request_dump ok ms s')
                (described env k at) d)
              (names_end-describe at.before) (k.describes l).ends (names_end-describe at.after)
              (others_named env k l at.before at.others_before)
              (names_link-describe env k l.name l ∙ text_eq_refl l.name)
              (others_named env k l at.after at.others_after)
            ∙ ap (λ i. (ok i, s')) (k.describes l).same_index,
        kept,
      )

  reported_names-describe :
      (links : List Link) → reported_names headers (map k.describe links) ≡ map (λ l. l.name) links
  reported_names-describe [] = refl
  reported_names-describe (l ∷ links) =
      let d = k.describes l in
      rw (d.is_newlink, d.one_name) (ap (λ t. l.name ∷ t) (reported_names-describe links))

  -- get_iface_names returns the names of the host's links, in their order, and the constructor accepts
  -- exactly these.
  pub get_iface_names-host :
      (s : State World)
      → let names = map (λ l. l.name) (k.host s.world).links in
        (s' : State World) × (get_iface_names env s ≡ (ok names, s'))
        × ((name : Text)
            → construct_netiface env name s ≡ (
              (if contains text_eq names name
                  then ok name
                  else throw (netex "Specified interface does not exist name={}")),
              s',
            ))
        × (k.host s'.world ≡ k.host s.world)
  get_iface_names-host s =
      let (s', d, kept) = links-Dumps env k s in
      let same = reported_names-describe (k.host s.world).links in
      let ends = names_end-describe (k.host s.world).links in
      (
        s',
        get_iface_names-reported_names env s s' _ d ends ∙ ap (λ names. (ok names, s')) same,
        (λ name.
            construct_netiface_lem env name s s' _ d ends
            ∙ ap
                (λ names. (
                  (if contains text_eq names name
                      then ok name
                      else throw (netex "Specified interface does not exist name={}")),
                  s',
                ))
                same),
        kept,
      )

  mod-small : (n : ℕ) → n < 2 ^ 32 → n % 2 ^ 32 ≡ n
  mod-small n small = omega (arith, small)

  int_eq_refl : (i : ℤ) → int_eq i i ≡ true
  int_eq_refl i = (int_eq_iff i i).1 refl

  -- get_mtu returns the MTU of the host's link of this name, which is a uint32_t.
  pub get_mtu_At :
      (s : State World) (l : Link)
      → At l (k.host s.world).links
      → l.mtu < 2 ^ 32
      → (s' : State World) × (get_mtu env l.name s ≡ (ok l.mtu, s'))
        × (k.host s'.world ≡ k.host s.world)
  get_mtu_At s l at small =
      let (s1, i, kept1) = get_index_At s l at in
      let at1 : At l (k.host s1.world).links = subst (λ h. At l h.links) (sym kept1) at in
      let (s', d, kept) = links-Dumps env k s1 in
      let m = k.describes l in
      (
        s',
        get_mtu_found env l.name s s1 s' l.index (map k.describe at1.before)
              (map k.describe at1.after) (k.describe l) m.mtu_bytes i
              (subst (λ ms. Dumps env s1 headers.rtm_getlink headers.request_dump ok ms s')
                (described env k at1) d)
              (others_indexed env k l at1.before at1.others_before)
              (is_link-describe env k l.index l ∙ int_eq_refl l.index)
              (others_indexed env k l at1.after at1.others_after) m.has_mtu
            ∙ ap (λ n. (ok n, s')) (m.same_mtu ∙ mod-small l.mtu small),
        kept ∙ kept1,
      )

  -- get_mac_address returns the address of the host's link of this name, if it has six bytes.
  pub get_mac_address_At :
      (s : State World) (l : Link)
      → At l (k.host s.world).links
      → All IsByte l.hwaddr
      → length l.hwaddr ≡ 6
      → (s' : State World) × (found : MacAddress) × (get_mac_address env l.name s ≡ (ok found, s'))
        × (get_bytes found ≡ l.hwaddr)
        × (k.host s'.world ≡ k.host s.world)
  get_mac_address_At s l at bytes six =
      let (s1, i, kept1) = get_index_At s l at in
      let at1 : At l (k.host s1.world).links = subst (λ h. At l h.links) (sym kept1) at in
      let (s', d, kept) = links-Dumps env k s1 in
      let m = k.describes l in
      let (found, run, same) =
        get_mac_address_found env l.name s s1 s' l.index (map k.describe at1.before)
          (map k.describe at1.after) (k.describe l) l.hwaddr i
          (subst (λ ms. Dumps env s1 headers.rtm_getlink headers.request_dump ok ms s')
            (described env k at1) d)
          (others_indexed env k l at1.before at1.others_before)
          (is_link-describe env k l.index l ∙ int_eq_refl l.index)
          (others_indexed env k l at1.after at1.others_after) m.has_hwaddr bytes
          (omega (arith, six)) in
      (s', found, run, same ∙ take_all l.hwaddr 6 six, kept ∙ kept1)

  -- get_ip_addresses_impl returns the host's addresses of its interface, of the families asked for.
  pub get_ip_addresses_impl_At :
      (s : State World) (l : Link) (ip_family : ℕ) (include_prefix : Bool)
      → At l (k.host s.world).links
      → (s' : State World) × (get_ip_addresses_impl env l.name ip_family include_prefix s ≡ (
        ok (
            all_returned headers asio inet ip_family include_prefix
              (to_u32 l.index)
              (k.host s.world).assigned),
        s',
      ))
        × (k.host s'.world ≡ k.host s.world)
  get_ip_addresses_impl_At s l ip_family include_prefix at =
      let (s1, i, kept1) = get_index_At s l at in
      let (s', ms, d, kept, reports) = addresses-Dumps env k s1 l.index in
      (
        s',
        get_ip_addresses_impl-all_returned env k.family_apart l.name ip_family include_prefix s s1
              s' l.index ms (k.host s1.world).assigned i d (reports ip_family include_prefix)
            ∙ ap
                (λ h. (
                  ok (
                      all_returned headers asio inet ip_family include_prefix (to_u32 l.index)
                        h.assigned),
                  s',
                ))
                kept1,
        kept ∙ kept1,
      )
