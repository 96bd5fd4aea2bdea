-- ===== src/Netiface/Host/Simulated/Answers.antt =====
-- What the kernel's answers report, and what its requests change.
use fnc.Prelude.{
  ℕ, ◌≡◌, refl, sym, ap, ◌∙◌, arith, ℤ, int_eq, int_eq_iff, Bool, true, false, some, List, text_eq,
  [], ◌∷◌, ◌++◌, All, map, ◌%◌, ◌^◌,
}
use fnc.IpAddress.Simulated.{Ip, ip4, ip6, asio, inet, ntop}
use fnc.Netlink.Kernel.{NlReq}
use fnc.Netlink.Response.{IsData}
use fnc.Netlink.Simulated.{headers}
use fnc.Netiface.Addresses.{Assigned, Reports, ReportsAll}
use fnc.Netiface.Callbacks.{has_nul}
use fnc.Netiface.Host.{Link, At, with_mtu, Describes, HasAttribute}
use fnc.Netiface.Host.Described.{map-append}
use fnc.Netiface.Host.Simulated.{
  Entry, family, entry, describe, report, decode, first_payload, changed,
}

pub load-store : (n : ℕ) → headers.load_u32 (headers.store_u32 n) ≡ n % 2 ^ 32
load-store n = omega arith

pub has_nul-append : (bytes : List ℕ) → has_nul (bytes ++ (0 ∷ [])) ≡ true
has_nul-append [] = refl
has_nul-append (b ∷ bytes) = ground (arith, has_nul-append bytes)

abbrev pub describes : (l : Link) → Describes headers l (describe l)
describes l = record {
  is_newlink = refl;
  same_index = refl;
  ifname = l.name ++ (0 ∷ []);
  has_ifname = refl;
  same_name = l.no_nul;
  one_name = ap (λ t. t ∷ []) l.no_nul;
  ends = rw (has_nul-append l.name) refl;
  mtu_bytes = headers.store_u32 l.mtu;
  has_mtu = refl;
  same_mtu = load-store l.mtu;
  has_hwaddr = refl;
}

pub links-IsData : (links : List Link) → All (IsData headers) (map describe links)
links-IsData [] = tt
links-IsData (l ∷ links) = ((refl, refl), links-IsData links)

pub entries-IsData : (entries : List Entry) → All (IsData headers) (map report entries)
entries-IsData [] = tt
entries-IsData (e ∷ entries) = ((refl, refl), entries-IsData entries)

pub reads_back : (ip : Ip) → asio.from_string (ntop (asio.bytes ip)) ≡ some ip
reads_back (ip4 a b c d) = refl
reads_back (ip6 x y) = refl

pub decode-bytes : (ip : Ip) → decode (asio.bytes ip) ≡ ip
decode-bytes (ip4 a b c d) = refl
decode-bytes (ip6 x y) = refl

pub reports : (e : Entry) → Reports headers asio inet (report e) (entry e).0 e.ip
reports e = record {
  is_newaddr = refl;
  same_index = refl;
  same_family = refl;
  same_prefixlen = refl;
  before = [];
  attribute = record { rta_type = 1; rta_data = asio.bytes e.ip };
  after = [];
  split = refl;
  others_before = tt;
  is_address = refl;
  others_after = tt;
  text = ntop (asio.bytes e.ip);
  written = refl;
  reads = reads_back e.ip;
}

pub reports_all :
    (ip_family : ℕ) (include_prefix : Bool) (entries : List Entry)
    → ReportsAll headers asio inet ip_family include_prefix (map report entries) (map entry entries)
reports_all ip_family include_prefix [] = tt
reports_all ip_family include_prefix (e ∷ entries) =
    (reports e, reports_all ip_family include_prefix entries)

pub entry_eq :
    (a : Assigned) (ip : Ip) (e : Entry)
    → e.index ≡ a.index
    → e.prefixlen ≡ a.prefixlen
    → e.ip ≡ ip
    → a.family ≡ family ip
    → entry e ≡ (a, ip)
entry_eq a ip e i p d f =
    ap (λ n. (record { index = n; family = family e.ip; prefixlen = e.prefixlen }, e.ip)) i
    ∙ ap (λ n. (record { index = a.index; family = family e.ip; prefixlen = n }, e.ip)) p
    ∙ ap (λ x. (record { index = a.index; family = family x; prefixlen = a.prefixlen }, x)) d
    ∙ ap (λ n. (record { index = a.index; family = n; prefixlen = a.prefixlen }, ip)) (sym f)

pub unchanged :
    (index : ℤ) (mtu : ℕ) (l : Link) (links : List Link)
    → All (λ x. (text_eq l.name x.name ≡ false) × (int_eq x.index index ≡ false)) links
    → map (changed index mtu) links ≡ links
unchanged index mtu l [] d = refl
unchanged index mtu l (x ∷ links) ((n, i), ds) =
    rw i (ap (λ t. x ∷ t) (unchanged index mtu l links ds))

pub int_eq_refl : (i : ℤ) → int_eq i i ≡ true
int_eq_refl i = (int_eq_iff i i).1 refl

pub changed_At :
    (l : Link) (links : List Link) (at : At l links) (mtu : ℕ)
    → map (changed l.index mtu) links ≡ with_mtu at mtu
changed_At l links at mtu =
    ap (map (changed l.index mtu)) at.split
    ∙ map-append (changed l.index mtu) at.before (l ∷ at.after)
    ∙ rw
        (
          unchanged l.index mtu l at.before at.others_before,
          unchanged l.index mtu l at.after at.others_after,
          int_eq_refl l.index,
        )
        refl

pub first_payload-HasAttribute :
    (req : NlReq) (n fixed t size : ℕ) (data_bytes : List ℕ)
    → HasAttribute headers req n fixed t size data_bytes
    → first_payload req.attrs ≡ data_bytes
first_payload-HasAttribute req n fixed t size data_bytes (a, one, same_type, same, _, _, _, _) =
    ap first_payload one ∙ same
