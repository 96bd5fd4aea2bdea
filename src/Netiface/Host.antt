-- ===== src/Netiface/Host.antt =====
-- What netiface.cpp relies on of the kernel, as rtnetlink(7) documents it: a host that has links and
-- addresses, which it reports on a dump, and which a request that it acknowledges has changed.
pub mod Kernel
pub mod Dumped
pub mod Described
pub mod Reads
pub mod Holds
pub mod Changes
pub mod Requested
pub mod Present
pub mod Assigning
pub mod Fewer
pub mod Deleting
pub mod Deleted
pub mod Denied
pub mod Twice
pub mod Once
pub mod Untouched
pub mod Elsewhere
pub mod Simulated
mod Tests
use fnc.Prelude.{
  ℕ, ◌+◌, ◌<◌, ◌≤◌, ◌%◌, ◌^◌, if◌then◌else◌, ◌≡◌, ◌⊎◌, ◌≢◌, ℤ, pos, is_neg, Bool, true, false, ◌&&◌,
  ◌||◌, Option, some, List, [], ◌∷◌, ◌++◌, ◌==◌, All, any, flat, length, map, Text, text_eq, int_eq,
}
use fnc.IpAddress.{Asio}
use fnc.Netlink.Kernel.{Headers, System, NlReq, Reply, Attribute, RtAttr, received}
use fnc.Netlink.{buffer_len}
use fnc.Netlink.Response.{IsData, Feeds}
use fnc.Netiface.{Env}
use fnc.Netiface.Addresses.{Assigned, ReportsAll}
use fnc.Netiface.Callbacks.{c_string}
use fnc.Netiface.Link.{find_attribute}
use fnc.Netiface.Names.{attribute_names, names_end}

pub record Link : Type 0 where
  pub index : ℤ
  pub name : Text
  pub no_nul : c_string (name ++ (0 ∷ [])) ≡ name
  pub mtu : ℕ
  pub up : Bool
  pub hwaddr : List ℕ

pub record Host (Address : Type 0) : Type 0 where
  pub links : List Link
  pub assigned : List (Assigned × Address)

-- The link is among these, and no other has its name or its index.
pub record At (l : Link) (links : List Link) : Type 0 where
  pub before : List Link
  pub after : List Link
  pub split : links ≡ before ++ (l ∷ after)
  pub others_before :
      All (λ x. (text_eq l.name x.name ≡ false) × (int_eq x.index l.index ≡ false)) before
  pub others_after :
      All (λ x. (text_eq l.name x.name ≡ false) × (int_eq x.index l.index ≡ false)) after

-- The links after a request that sets the MTU of `l` and clears its flags, IFF_UP among them.
abbrev pub with_mtu : {l : Link} {links : List Link} → At l links → ℕ → List Link
with_mtu {l} at mtu = at.before ++ (record l { mtu = mtu; up = false } ∷ at.after)

-- The message is an RTM_NEWLINK with the link's index, name, MTU and address.
pub record Describes (h : Headers) (l : Link) (m : Reply) : Type 0 where
  pub is_newlink : (m.nlmsg_type == h.rtm_newlink) ≡ true
  pub same_index : m.ifi_index ≡ l.index
  pub ifname : List ℕ
  pub has_ifname : find_attribute h h.ifla_ifname m.attributes ≡ some ifname
  pub same_name : c_string ifname ≡ l.name
  pub one_name : attribute_names h m.attributes ≡ l.name ∷ []
  pub ends : names_end h m.attributes ≡ true
  pub mtu_bytes : List ℕ
  pub has_mtu : find_attribute h h.ifla_mtu m.attributes ≡ some mtu_bytes
  pub same_mtu : h.load_u32 mtu_bytes ≡ l.mtu % 2 ^ 32
  pub has_hwaddr : find_attribute h h.ifla_address m.attributes ≡ some l.hwaddr

-- The address is assigned with this index and prefix length.
abbrev pub holds :
    {Address : Type 0} → Asio Address → List (Assigned × Address) → ℕ → ℕ → Address → Bool
holds asio [] index prefixlen ip = false
holds asio ((a, x) ∷ es) index prefixlen ip =
    (a.index == index && (a.prefixlen == prefixlen && asio.equal x ip))
    || holds asio es index prefixlen ip

-- The address is assigned with this index.
abbrev pub has : {Address : Type 0} → Asio Address → List (Assigned × Address) → ℕ → Address → Bool
has asio [] index ip = false
has asio ((a, x) ∷ es) index ip = (a.index == index && asio.equal x ip) || has asio es index ip

-- The number of bits of an address.
abbrev pub width : {Address : Type 0} → Asio Address → Address → ℕ
width asio ip = if asio.is_v4 ip then 32 else 128

-- The second list is the first one with `x` at some place.
abbrev pub Inserted : {A : Type 0} → A → List A → List A → Type 0
Inserted {A} x xs ys =
    (before : List A) × (after : List A) × (xs ≡ before ++ after) × (ys ≡ before ++ (x ∷ after))

module _ {World Address : Type 0} (env : Env World Address) (fd : ℤ) (w : World) (req : NlReq)
    (n : ℕ) where
  open env use {sys, headers, rounds}

  -- A request is sent and answered by the messages `ms`, in less than `rounds` datagrams and one, of
  -- which the last holds DONE.
  pub record Answered (ms : List Reply) : Type 0 where
    pub rc : ℕ
    pub sent : World
    pub sends : sys.send fd req n w ≡ (pos rc, sent)
    pub front : List (List Reply)
    pub pre : List Reply
    pub done : Reply
    pub post : List Reply
    pub between : World
    pub after : World
    pub fed : Feeds sys fd sent front between
    pub arrives : sys.recvmsg fd buffer_len between ≡ (received (pre ++ (done ∷ post)), after)
    pub front_data : All (All (IsData headers)) front
    pub pre_data : All (IsData headers) pre
    pub post_data : All (IsData headers) post
    pub is_done : done.nlmsg_type ≡ headers.nlmsg_done
    pub content : ms ≡ flat front ++ (pre ++ post)
    pub enough : length front < rounds

  -- A request is sent and acknowledged.
  pub record Acknowledged : Type 0 where
    pub rc : ℕ
    pub sent : World
    pub sends : sys.send fd req n w ≡ (pos rc, sent)
    pub ack : Reply
    pub after : World
    pub arrives : sys.recvmsg fd buffer_len sent ≡ (received (ack ∷ []), after)
    pub is_error : ack.nlmsg_type ≡ headers.nlmsg_error
    pub no_error : ack.error ≡ pos 0

  -- A request is sent and refused with an error.
  pub record Refused (error : ℤ) : Type 0 where
    pub rc : ℕ
    pub sent : World
    pub sends : sys.send fd req n w ≡ (pos rc, sent)
    pub reply : Reply
    pub after : World
    pub arrives : sys.recvmsg fd buffer_len sent ≡ (received (reply ∷ []), after)
    pub is_error : reply.nlmsg_type ≡ headers.nlmsg_error
    pub same_error : reply.error ≡ error

-- The types of the requests that change a host.
abbrev pub IsChange : Headers → ℕ → Type 0
IsChange h t = (t ≡ h.rtm_newlink) ⊎ ((t ≡ h.rtm_newaddr) ⊎ (t ≡ h.rtm_deladdr))

-- The `n` bytes that are sent are a request with one attribute of this type, which holds these `size`
-- bytes, begins behind a structure of `fixed` bytes, and is the last that the request's length counts.
abbrev pub HasAttribute : Headers → NlReq → ℕ → ℕ → ℕ → ℕ → List ℕ → Type 0
HasAttribute h req n fixed rta_type size data_bytes =
    (a : RtAttr) × (req.attrs ≡ a ∷ [])
    × (a.rta_type ≡ rta_type)
    × (a.payload ≡ data_bytes)
    × (a.offset ≡ h.nlmsg_align (h.nlmsg_length fixed))
    × (a.rta_len ≡ h.rta_length size)
    × (req.hdr.nlmsg_len ≡ a.offset + a.rta_len)
    × (n ≡ req.hdr.nlmsg_len)

-- The second list is the first one without some of its elements, which are all of this kind.
abbrev pub Fewer : {A : Type 0} → (A → Type 0) → List A → List A → Type 0
Fewer Q [] ys = ys ≡ []
Fewer {A} Q (x ∷ xs) ys =
    (Q x × Fewer Q xs ys) ⊎ ((rest : List A) × (ys ≡ x ∷ rest) × Fewer Q xs rest)

-- The address cannot be assigned: an IPv4 address that is there with this prefix length, or an IPv6
-- address that is there with any.
abbrev pub conflicts :
    {Address : Type 0} → Asio Address → List (Assigned × Address) → ℕ → ℕ → Address → Bool
conflicts asio es index prefixlen ip =
    if asio.is_v4 ip then holds asio es index prefixlen ip else has asio es index ip

-- An IPv6 address of the link with this index.
abbrev pub OnLink6 : {Address : Type 0} → Asio Address → ℕ → Assigned × Address → Type 0
OnLink6 asio index (a, x) = (a.index ≡ index) × (asio.is_v4 x ≡ false)

-- An IPv4 address that stands in the same network as an IPv4 address, on the same link.
abbrev pub Secondary :
    {Address : Type 0}
    → Asio Address
    → (ℕ → Address → Address → Bool)
    → Assigned
    → Address
    → Assigned × Address
    → Type 0
Secondary asio same_network a ip (b, x) =
    (asio.is_v4 ip ≡ true)
    × (asio.is_v4 x ≡ true)
    × (b.index ≡ a.index)
    × (b.prefixlen ≡ a.prefixlen)
    × (same_network a.prefixlen ip x ≡ true)
