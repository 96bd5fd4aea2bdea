-- ===== src/Netlink/Datagram/Simulated.antt =====
-- Macros for bytes that begin with their size in 16 bits, at which the loops over bytes are tried.
use fnc.Prelude.{
  ℕ, ◌+◌, ◌-◌, ◌*◌, ◌/◌, ◌≤◌, ◌≡◌, arith, ℤ, pos, negsuc, Bool, true, false, ◌&&◌, List, [], ◌∷◌,
  drop, leb, if◌then◌else◌,
}
use fnc.Netlink.Datagram.{Macros, IsMacros, left}

abbrev pub first_u16 : List ℕ → ℕ
first_u16 (a ∷ b ∷ _) = a + 256 * b
first_u16 _ = 0

abbrev pub aligned : ℕ → ℕ
aligned n = (n + 3) / 4 * 4

-- `header` bytes are left, and so is all that the size says.
abbrev pub framed_ok : ℕ → List ℕ → ℤ → Bool
framed_ok header p (pos n) = leb header n && (leb header (first_u16 p) && leb (first_u16 p) n)
framed_ok header p (negsuc n) = false

abbrev pub framed_next : List ℕ → ℤ → List ℕ × ℤ
framed_next p (pos n) =
    let size = aligned (first_u16 p) in
    (drop size p, if leb size n then pos (n - size) else negsuc (size - n - 1))
framed_next p (negsuc n) = (p, negsuc n)

pub framed_shorter :
    (header : ℕ) (p : List ℕ) (len : ℤ)
    → framed_ok header p len ≡ true
    → left (framed_next p len).1 + header ≤ left len
framed_shorter header p (negsuc n) e = cc
framed_shorter header p (pos n) e = ground arith

-- The type stands in the bytes 4 and 5, an error or an index in the bytes 16 and 17.
abbrev pub macros : Macros
macros = record {
  nlmsg_ok = framed_ok 16;
  nlmsg_next = framed_next;
  message_at = λ p. record {
    nlmsg_type = first_u16 (drop 4 p);
    error = pos (first_u16 (drop 16 p));
    ifi_index = pos (first_u16 (drop 16 p));
    ifa_index = 0;
    ifa_family = 0;
    ifa_prefixlen = 0;
    attributes = [];
  };
}

unfoldable pub macros-IsMacros : IsMacros macros
macros-IsMacros = record { next_shorter = framed_shorter 16 }
