-- ===== src/Netiface/Host/Simulated/Promises.antt =====
-- The kernel keeps the promises that the properties on a host rest on.
use fnc.Prelude.{
  Bool, true, false, inl, inr, negsuc, ℕ, ◌≡◌, refl, sym, ap, ◌∙◌, arith, ℤ, pos, leb, List, [],
  ◌∷◌, ◌++◌, length, subst, All, map, append-nil,
}
use fnc.IpAddress.Simulated.{asio}
use fnc.Netlink.Kernel.{Reply, NlReq}
use fnc.Netlink.Response.{IsData}
use fnc.Netlink.Simulated.{headers, control}
use fnc.Netiface.Host.{Refused, IsChange, Link, with_mtu, Answered, Acknowledged}
use fnc.Netiface.Host.Kernel.{Reporting, Rtnetlink, Refusing}
use fnc.Netiface.Host.{Fewer, Secondary}
use fnc.Netiface.Host.Described.{map-append}
use fnc.Netiface.Host.Simulated.Removed.{without, map-removed_from, without-sole}
use fnc.Netiface.Host.Simulated.{
  removed_from, Entry, Kernel, entry, host, describe, report, decode, first_payload, changed,
  acknowledgement, perform, env, env_of,
}
use fnc.Netiface.Host.Simulated.Answers.{
  load-store, describes, links-IsData, entries-IsData, decode-bytes, reports_all, entry_eq,
  changed_At, first_payload-HasAttribute,
}

answered :
    (may : Bool) (fd : ℤ) (w : Kernel) (req : NlReq) (n : ℕ) (ms : List Reply)
    → All (IsData headers) ms
    → perform may req.hdr.nlmsg_type req w ≡ record w { answer = ms ++ (control 3 (pos 0) ∷ []) }
    → (a : Answered (env_of may) fd w req n ms) × (host a.after ≡ host w)
answered may fd w req n ms d e = (
  record {
    rc = n;
    sent = record w { answer = ms ++ (control 3 (pos 0) ∷ []) };
    sends = ap (λ (x : Kernel). (pos n, x)) e;
    front = [];
    pre = ms;
    done = control 3 (pos 0);
    post = [];
    between = record w { answer = ms ++ (control 3 (pos 0) ∷ []) };
    after = record w { answer = [] };
    fed = refl;
    arrives = refl;
    front_data = tt;
    pre_data = d;
    post_data = tt;
    is_done = refl;
    content = sym (append-nil ms);
    enough = omega arith;
  },
  refl,
)

acknowledged :
    (fd : ℤ) (w w' : Kernel) (req : NlReq) (n : ℕ)
    → perform true req.hdr.nlmsg_type req w ≡ record w' { answer = acknowledgement }
    → Acknowledged env fd w req n
acknowledged fd w w' req n e = record {
  rc = n;
  sent = record w' { answer = acknowledgement };
  sends = ap (λ (x : Kernel). (pos n, x)) e;
  ack = control 2 (pos 0);
  after = record w' { answer = [] };
  arrives = refl;
  is_error = refl;
  no_error = refl;
}

unfoldable pub reporting : (may : Bool) → Reporting (env_of may)
unfolding answered
reporting may = record {
  host = host;
  describe = describe;
  describes = describes;
  some_rounds = omega arith;
  some_tries = omega arith;
  error_apart = λ e. omega (arith, e);
  family_apart = λ e. omega (arith, e);
  socket_keeps = λ w. refl;
  set_rcvtimeo_works = λ fd n w. refl;
  set_rcvtimeo_keeps = λ fd n w. refl;
  bind_works = λ fd pid w. refl;
  bind_keeps = λ fd pid w. refl;
  close_keeps = λ fd w. refl;
  lists_links = λ fd w req n t f.
      answered may fd w req n (map describe w.links) (links-IsData w.links)
        (ap (λ x. perform may x req w) t);
  lists_addresses = λ fd w req n t f.
      let (a, kept) =
        answered may fd w req n (map report w.entries) (entries-IsData w.entries)
          (ap (λ x. perform may x req w) t) in
      (
        map report w.entries,
        a,
        kept,
        λ ip_family include_prefix. reports_all ip_family include_prefix w.entries,
      );
}

refused :
    (fd : ℤ) (w : Kernel) (req : NlReq) (n : ℕ)
    → perform false req.hdr.nlmsg_type req w ≡ record w { answer = control 2 (negsuc 12) ∷ [] }
    → (r : Refused (env_of false) fd w req n (negsuc 12)) × (host r.after ≡ host w)
refused fd w req n e = (
  record {
    rc = n;
    sent = record w { answer = control 2 (negsuc 12) ∷ [] };
    sends = ap (λ (x : Kernel). (pos n, x)) e;
    reply = control 2 (negsuc 12);
    after = record w { answer = [] };
    arrives = refl;
    is_error = refl;
    same_error = refl;
  },
  refl,
)

refuses_change :
    (fd : ℤ) (w : Kernel) (req : NlReq) (n : ℕ)
    → IsChange headers req.hdr.nlmsg_type
    → (r : Refused (env_of false) fd w req n (negsuc 12)) × (host r.after ≡ host w)
refuses_change fd w req n (inl e) = refused fd w req n (ap (λ x. perform false x req w) e)
refuses_change fd w req n (inr (inl e)) = refused fd w req n (ap (λ x. perform false x req w) e)
refuses_change fd w req n (inr (inr e)) = refused fd w req n (ap (λ x. perform false x req w) e)

-- The kernel, to a user without the right to a change.
unfoldable pub strict_kernel : Refusing (env_of false) (negsuc 12)
unfolding answered reporting refused refuses_change
strict_kernel = record { reporting = reporting false; is_no_ack = refl; refuses = refuses_change }

pub Fewer-all : {A : Type 0} (Q : A → Type 0) (xs : List A) → Fewer Q xs xs
Fewer-all Q [] = refl
Fewer-all Q (x ∷ xs) = inr (xs, refl, Fewer-all Q xs)

unfoldable pub kernel : Rtnetlink env
unfolding answered acknowledged reporting
kernel = record {
  reporting = reporting true;
  allows = λ l mtu. leb 68 mtu;
  takes = λ ip n. true;
  same_network = λ n x y. true;
  newaddr_apart = refl;
  deladdr_apart = refl;
  sets_mtu = λ fd w req n l at mtu t f i g c small allowed attribute.
      let w' : Kernel = record w { links = with_mtu at mtu } in
      let loads : headers.load_u32 (first_payload req.attrs) ≡ mtu =
        ap headers.load_u32 (
          first_payload-HasAttribute req n headers.sizeof_ifinfomsg 4 4 (headers.store_u32 mtu)
            attribute)
        ∙ load-store mtu
        ∙ omega (arith, small) in
      (
        acknowledged fd w w' req n (
            ap (λ x. perform true x req w) t
            ∙ ap (λ (links : List Link). record w { links = links; answer = acknowledgement })
                (ap (λ x. map (changed x (headers.load_u32 (first_payload req.attrs))) w.links) i
                  ∙ ap (λ x. map (changed l.index x) w.links) loads
                  ∙ changed_At l w.links at mtu)),
        refl,
        Fewer-all _ (map entry w.entries),
      );
  adds_address = λ fd w req n a ip t f i g p family fits taken scope attribute absent.
      let e : Entry = record {
        index = req.ifaddr.ifa_index;
        prefixlen = req.ifaddr.ifa_prefixlen;
        ip = decode (first_payload req.attrs);
      } in
      let w' : Kernel = record w { entries = w.entries ++ (e ∷ []) } in
      (
        acknowledged fd w w' req n (ap (λ x. perform true x req w) t),
        refl,
        (
          map entry w.entries,
          [],
          sym (append-nil (map entry w.entries)),
          map-append entry w.entries (e ∷ [])
              ∙ ap (λ x. map entry w.entries ++ (x ∷ []))
                  (entry_eq a ip e i p
                    (ap decode (
                        first_payload-HasAttribute req n headers.sizeof_ifaddrmsg 2
                          (length (asio.bytes ip)) (asio.bytes ip) attribute)
                      ∙ decode-bytes ip)
                    family),
        ),
      );
  deletes_address = λ fd w req n a ip before after t f i g p attribute split none_before none_after.
      let w' : Kernel = record w { entries = removed_from a.index ip w.entries } in
      (
        acknowledged fd w w' req n (
            ap (λ x. perform true x req w) t
            ∙ ap
                (λ x. record w {
                  entries = removed_from x (decode (first_payload req.attrs)) w.entries;
                  answer = acknowledgement;
                })
                i
            ∙ ap
                (λ x. record w {
                  entries = removed_from a.index x w.entries;
                  answer = acknowledgement;
                })
                (ap decode (
                    first_payload-HasAttribute req n headers.sizeof_ifaddrmsg 2
                      (length (asio.bytes ip)) (asio.bytes ip) attribute)
                  ∙ decode-bytes ip)),
        refl,
        subst (Fewer (Secondary asio (λ n x y. true) a ip) (before ++ after))
            (sym (
              map-removed_from a.index ip w.entries
              ∙ ap (without a.index ip) split
              ∙ without-sole a ip before after none_before none_after))
            (Fewer-all _ (before ++ after)),
      );
}
