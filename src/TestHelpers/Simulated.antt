-- ===== src/TestHelpers/Simulated.antt =====
-- A pipe that gives its output line by line, and random numbers that count up, at which the helpers of
-- the tests are tried.
use fnc.Prelude.{
  ℕ, ◌+◌, ◌-◌, ◌*◌, ◌/◌, ◌^◌, ◌≡◌, refl, ap, sym, subst, arith, Bool, true, false, ◌&&◌, Option,
  none, some, List, [], ◌∷◌, ◌++◌, ◌==◌, leb, get_elem?, length, Text, if◌then◌else◌,
}
use fnc.IpAddress.{Asio}
use fnc.IpAddress.Simulated.{Ip, ip4, ip6, asio, inet, inet-IsInet, scoped}
use fnc.IpAddress.Sockets.{IsInet}
use fnc.TestHelpers.{Stdio, Random}
use fnc.TestHelpers.Shell.{Line, IsStdio}
use fnc.TestHelpers.Addresses.{IsRandom}

pub record Output : Type 0 where
  pub left : List ℕ
  pub over : Bool

-- A line with its end, and what is behind it.
abbrev first_line : List ℕ → List ℕ
first_line [] = []
first_line (b ∷ bytes) = let rest = first_line bytes in if b == 10 then b ∷ [] else b ∷ rest

abbrev behind : List ℕ → List ℕ
behind [] = []
behind (b ∷ bytes) = let rest = behind bytes in if b == 10 then bytes else rest

lines_split : (bytes : List ℕ) → bytes ≡ first_line bytes ++ behind bytes
lines_split [] = refl
lines_split (b ∷ bytes) = ground (arith, lines_split bytes)

abbrev pub get_line : List ℕ → Option (List ℕ) × Output
get_line [] = (none, record { left = []; over = true })
get_line (b ∷ bytes) =
    (some (first_line (b ∷ bytes) ++ (0 ∷ [])), record { left = behind (b ∷ bytes); over = false })

abbrev pub ended : Output → Bool
ended s = s.over && leb (length s.left) 0

abbrev pub stdio : List ℕ → Stdio Output (Unit {0})
stdio output = record {
  popen = λ cmd s. (some tt, record { left = output; over = false });
  feof = λ p s. ended s;
  fgets = λ p n s. get_line s.left;
  pclose = λ p s. s;
}

pub none_left : (bytes : List ℕ) (over : Bool) → (over && leb (length bytes) 0) ≡ true → bytes ≡ []
none_left [] over e = refl
none_left (b ∷ bytes) over e = absurd (ground arith)

pub get_line-Line :
    (bytes buffer : List ℕ) (s' : Output)
    → get_line bytes ≡ (some buffer, s')
    → Line bytes s'.left buffer
get_line-Line [] buffer s' e = absurd (apart (ap (λ q. q.0) e))
  where
    apart : none ≡ some buffer → ⊥
    apart h = cc
get_line-Line (b ∷ bytes) buffer s' e =
    let same = ap (λ q. q.0) e in
    subst (λ x. Line (b ∷ bytes) x buffer) (ap (λ q. q.1.left) e)
      (record {
        line = first_line (b ∷ bytes);
        junk = [];
        some_bytes = ground arith;
        terminated = cc;
        taken = lines_split (b ∷ bytes);
      })

pub none_read :
    (bytes : List ℕ) (s' : Output) → get_line bytes ≡ (none, s') → (bytes ≡ []) × (ended s' ≡ true)
none_read [] s' e = (refl, ap (λ q. ended q.1) (sym e))
none_read (b ∷ bytes) s' e = absurd (apart (ap (λ q. q.0) e))
  where
    apart : some (first_line (b ∷ bytes) ++ (0 ∷ [])) ≡ none → ⊥
    apart h = cc

unfoldable pub stdio-IsStdio : (output : List ℕ) → IsStdio (stdio output)
stdio-IsStdio output = record {
  to_come = λ p s. s.left;
  at_end = λ p s e. none_left s.left s.over e;
  reads = λ p s s' buffer e. get_line-Line s.left buffer s' e;
  ends = λ p s s' e. none_read s.left s' e;
}

-- The numbers that stand in a text, with whatever else between them.
abbrev numbers : Text → ℕ → List ℕ
numbers [] acc = acc ∷ []
numbers (c ∷ text) acc =
    let more = numbers text (acc * 10 + (c - b'0')) in
    let next = numbers text 0 in if c == b'.' then acc ∷ next else more

abbrev nth : ℕ → List ℕ → ℕ
nth i l = elim (get_elem? l i) [ none ↦ 0 | some n ↦ n ]

abbrev four : List ℕ → Ip
four l = ip4 (nth 0 l) (nth 1 l) (nth 2 l) (nth 3 l)

abbrev pub decimals : Asio Ip
decimals = record asio { from_string = λ text. some (four (numbers text 0)) }

abbrev pub address_v6 : List ℕ → Ip
address_v6 l = ip6 (nth 14 l) (nth 15 l)

abbrev pub random : Random ℕ
random = record {
  uniform_int = λ min max s. (if leb (min + s) max then min + s else min, s + 7);
  word = λ s. (s * 1000003, s + 1);
  shift_right = λ x k. x / 2 ^ k;
}

pub random-IsRandom : IsRandom random decimals scoped address_v6
random-IsRandom = record {
  in_bounds = λ min max s k. (ground arith, ground arith);
  reads_dotted = λ a b c d ka kb kc kd. (_, refl, refl, refl);
  is_six = λ bytes k. refl;
  no_scope = λ bytes k. refl;
}

pub inet-decimals : IsInet decimals inet scoped
inet-decimals = record {
  pton_v4 = inet-IsInet.pton_v4;
  pton_v6 = inet-IsInet.pton_v6;
  bytes_length = inet-IsInet.bytes_length;
}
