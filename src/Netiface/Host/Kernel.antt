-- ===== src/Netiface/Host/Kernel.antt =====
-- Kernels, by what they promise of a host, as rtnetlink(7) documents it.
use fnc.Prelude.{
  ℕ, ◌<◌, ◌≤◌, ◌^◌, if◌then◌else◌, ◌≡◌, ◌⊎◌, ◌≢◌, ℤ, pos, is_neg, Bool, true, false, List, ◌∷◌,
  ◌++◌, ◌==◌, ◌||◌, length, map, int_eq,
}
use fnc.Netlink.Kernel.{NlReq, Reply}
use fnc.Netiface.{Env}
use fnc.Netiface.Addresses.{Assigned, ReportsAll}
use fnc.Netiface.Callbacks.{to_u32}
use fnc.Netiface.Host.{
  Link, Host, At, with_mtu, Describes, has, width, Inserted, Answered, Acknowledged, Refused,
  IsChange, HasAttribute, Fewer, OnLink6, Secondary, conflicts,
}

module _ {World Address : Type 0} (env : Env World Address) where
  open env use {sys, headers, asio, inet, rounds, tries}

  -- A kernel that reports its host to everybody: no call on a socket fails, and a dump is answered.
  pub record Reporting : Type 0 where
    pub host : World → Host Address
    pub describe : Link → Reply
    pub describes : (l : Link) → Describes headers l (describe l)
    pub some_rounds : 0 < rounds
    pub some_tries : 0 < tries
    pub error_apart : headers.nlmsg_error ≢ headers.nlmsg_done
    pub family_apart : inet.af_inet ≢ inet.af_inet6
    pub socket_keeps : (w : World) → host (sys.socket w).1 ≡ host w
    pub set_rcvtimeo_works :
        (fd : ℤ) (n : ℕ) (w : World) → is_neg (sys.set_rcvtimeo fd n w).0 ≡ false
    pub set_rcvtimeo_keeps :
        (fd : ℤ) (n : ℕ) (w : World) → host (sys.set_rcvtimeo fd n w).1 ≡ host w
    pub bind_works : (fd : ℤ) (pid : ℕ) (w : World) → (sys.bind fd pid w).0 ≡ pos 0
    pub bind_keeps : (fd : ℤ) (pid : ℕ) (w : World) → host (sys.bind fd pid w).1 ≡ host w
    pub close_keeps : (fd : ℤ) (w : World) → host (sys.close fd w) ≡ host w
    -- RTM_GETLINK and RTM_GETADDR: all links, and all addresses, one in each message.
    pub lists_links :
        (fd : ℤ) (w : World) (req : NlReq) (n : ℕ)
        → req.hdr.nlmsg_type ≡ headers.rtm_getlink
        → req.hdr.nlmsg_flags ≡ headers.request_dump
        → (a : Answered env fd w req n (map describe (host w).links)) × (host a.after ≡ host w)
    pub lists_addresses :
        (fd : ℤ) (w : World) (req : NlReq) (n : ℕ)
        → req.hdr.nlmsg_type ≡ headers.rtm_getaddr
        → req.hdr.nlmsg_flags ≡ headers.request_match
        → (ms : List Reply) × (a : Answered env fd w req n ms) × (host a.after ≡ host w)
          × ((ip_family : ℕ) (include_prefix : Bool)
              → ReportsAll headers asio inet ip_family include_prefix ms (host w).assigned)

  -- One that besides refuses nothing that it is able to do: a request for a change whose length counts
  -- its attribute is acknowledged, and then the host is changed.
  pub record Rtnetlink : Type 0 where
    pub reporting : Reporting
    pub open reporting use *
    -- The MTUs that the device of a link can have.
    pub allows : Link → ℕ → Bool
    -- The addresses that it takes for one of a host, with a prefix length: none for multicast, for example.
    pub takes : Address → ℕ → Bool
    -- The IPv4 addresses that are in one network, for a prefix length.
    pub same_network : ℕ → Address → Address → Bool
    -- The constants for types differ.
    pub newaddr_apart :
        (headers.rtm_newaddr == headers.rtm_newlink
          || (headers.rtm_newaddr == headers.rtm_dellink
              || headers.rtm_newaddr == headers.rtm_getlink))
        ≡ false
    pub deladdr_apart :
        (headers.rtm_deladdr == headers.rtm_newlink
          || (headers.rtm_deladdr == headers.rtm_dellink
              || headers.rtm_deladdr == headers.rtm_getlink))
        ≡ false
    -- RTM_NEWLINK with an index and IFLA_MTU, and with a mask that clears all flags: the link is taken
    -- down, and it depends on the setting keep_addr_on_down which of its IPv6 addresses are kept.
    pub sets_mtu :
        (fd : ℤ) (w : World) (req : NlReq) (n : ℕ) (l : Link) (at : At l (host w).links) (mtu : ℕ)
        → req.hdr.nlmsg_type ≡ headers.rtm_newlink
        → req.hdr.nlmsg_flags ≡ headers.request_ack
        → req.ifinfo.ifi_index ≡ l.index
        → req.ifinfo.ifi_flags ≡ 0
        → req.ifinfo.ifi_change ≡ 0xffffffff
        → mtu < 2 ^ 32
        → allows l mtu ≡ true
        → HasAttribute headers req n headers.sizeof_ifinfomsg headers.ifla_mtu 4
            (headers.store_u32 mtu)
        → (a : Acknowledged env fd w req n) × ((host a.after).links ≡ with_mtu at mtu)
          × Fewer (OnLink6 asio (to_u32 l.index)) (host w).assigned (host a.after).assigned
    -- RTM_NEWADDR with NLM_F_CREATE and NLM_F_EXCL, for an address that is not there: an IPv6 address must
    -- not be there with another prefix length either.
    pub adds_address :
        (fd : ℤ) (w : World) (req : NlReq) (n : ℕ) (a : Assigned) (ip : Address)
        → req.hdr.nlmsg_type ≡ headers.rtm_newaddr
        → req.hdr.nlmsg_flags ≡ headers.request_create_excl_ack
        → req.ifaddr.ifa_index ≡ a.index
        → req.ifaddr.ifa_family ≡ a.family
        → req.ifaddr.ifa_prefixlen ≡ a.prefixlen
        → a.family ≡ (if asio.is_v4 ip then inet.af_inet else inet.af_inet6)
        → a.prefixlen ≤ width asio ip
        → takes ip a.prefixlen ≡ true
        → req.ifaddr.ifa_scope ≡ (if asio.is_loopback ip then 254 else 0)
        → HasAttribute headers req n headers.sizeof_ifaddrmsg headers.ifa_local
            (length (asio.bytes ip))
            (asio.bytes ip)
        → conflicts asio (host w).assigned a.index a.prefixlen ip ≡ false
        → (k : Acknowledged env fd w req n) × ((host k.after).links ≡ (host w).links)
          × Inserted (a, ip) (host w).assigned (host k.after).assigned
    -- RTM_DELADDR for an address that its interface has only once. The prefix length does not matter for
    -- an IPv4 address, and it depends on the setting promote_secondaries whether the addresses in the network
    -- of a deleted one go too.
    pub deletes_address :
        (fd : ℤ) (w : World) (req : NlReq) (n : ℕ) (a : Assigned) (ip : Address)
        (before after : List (Assigned × Address))
        → req.hdr.nlmsg_type ≡ headers.rtm_deladdr
        → req.hdr.nlmsg_flags ≡ headers.request_ack
        → req.ifaddr.ifa_index ≡ a.index
        → req.ifaddr.ifa_family ≡ a.family
        → (asio.is_v4 ip ≡ true) ⊎ (req.ifaddr.ifa_prefixlen ≡ a.prefixlen)
        → HasAttribute headers req n headers.sizeof_ifaddrmsg headers.ifa_local
            (length (asio.bytes ip))
            (asio.bytes ip)
        → (host w).assigned ≡ before ++ ((a, ip) ∷ after)
        → has asio before a.index ip ≡ false
        → has asio after a.index ip ≡ false
        → (k : Acknowledged env fd w req n) × ((host k.after).links ≡ (host w).links)
          × Fewer (Secondary asio same_network a ip) (before ++ after) (host k.after).assigned

  -- One that refuses every change with the same error, such as EACCES to a user without the right to it.
  pub record Refusing (error : ℤ) : Type 0 where
    pub reporting : Reporting
    pub open reporting use *
    pub is_no_ack : int_eq error (pos 0) ≡ false
    pub refuses :
        (fd : ℤ) (w : World) (req : NlReq) (n : ℕ)
        → IsChange headers req.hdr.nlmsg_type
        → (r : Refused env fd w req n error) × (host r.after ≡ host w)
