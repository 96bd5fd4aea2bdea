-- ===== src/TestHelpers.antt =====
-- util/test.cpp, util/test.hpp: the output of a shell command, and random addresses, for the tests.
pub mod Shell
pub mod Addresses
pub mod Simulated
mod Tests
use fnc.Prelude.{
  ℕ, zero, suc, ◌+◌, ◌-◌, ◌*◌, ◌%◌, ℤ, negsuc, Bool, Option, none, some, List, [], ◌∷◌, ◌++◌, Text,
  ltb, if◌then◌else◌,
}
use fnc.Exceptions.{Exception, Outcome, ok, stuck, runtime_error, M, pure, raise, lift, ◌>>=◌}
use fnc.IpAddress
use fnc.IpAddress.{Asio, IpAddress, decimal, inherited}
use fnc.Netiface.Callbacks.{c_string}

-- What the source uses of <cstdio>, over the state of all that lies outside the program. `fgets` gives
-- the buffer that it has filled, or `none` where it returns nullptr; `popen` gives `none` for nullptr.
pub record Stdio (S Pipe : Type 0) : Type 0 where
  pub popen : Text → S → Option Pipe × S
  pub feof : Pipe → S → Bool
  pub fgets : Pipe → ℕ → S → Option (List ℕ) × S
  pub pclose : Option Pipe → S → S

-- The size of `buffer`.
abbrev pub buffer_size : ℕ
buffer_size = 128

-- result += buffer.data(), where the buffer was filled.
abbrev pub append_buffer : Text → Option (List ℕ) → Text
append_buffer result none = result
append_buffer result (some buffer) = result ++ c_string buffer

module _ {S Pipe : Type 0} (stdio : Stdio S Pipe) where
  -- The loop of shell_exec, with fuel for its rounds.
  pub read_all : ℕ → Pipe → Text → M S Text
  read_all zero pipe result s = (stuck, s)
  read_all (suc fuel) pipe result s =
      let (buffer, s') = stdio.fgets pipe buffer_size s in
      let rest = read_all fuel pipe (append_buffer result buffer) s' in
      if stdio.feof pipe s then (ok result, s) else rest

  -- shell_exec behind popen. The shared_ptr calls pclose when the scope is left, for a null pointer too.
  with_pipe : ℕ → Option Pipe × S → Outcome Text × S
  with_pipe fuel (none, s) =
      raise (record { kind = runtime_error; message = "popen() failed!" }) (stdio.pclose none s)
  with_pipe fuel (some pipe, s) =
      let (r, s') = read_all fuel pipe [] s in (r, stdio.pclose (some pipe) s')

  pub shell_exec : ℕ → Text → M S Text
  unfolding with_pipe
  shell_exec fuel cmd s = with_pipe fuel (stdio.popen cmd s)

-- <random>: a number that is uniformly distributed between two bounds, and a word of a mt19937_64; and
-- the machine's shift of a uint64_t to the right, which C++ leaves undefined for 64 bits and more.
pub record Random (S : Type 0) : Type 0 where
  pub uniform_int : ℕ → ℕ → S → ℕ × S
  pub word : S → ℕ × S
  pub shift_right : ℕ → ℕ → ℕ

module _ {S : Type 0} (random : Random S) where
  abbrev pub random_int : ℕ → ℕ → M S ℕ
  random_int min max s = let (n, s') = random.uniform_int min max s in (ok n, s')

  -- The bytes of random_ipv6 from an index on.
  pub addr_bytes : ℕ → ℕ → ℕ → ℕ → List ℕ
  addr_bytes zero idx upper lower = []
  addr_bytes (suc count) idx upper lower =
      (random.shift_right (if ltb idx 8 then upper else lower) (8 * (16 - idx - 1)) % 256)
      ∷ addr_bytes count (idx + 1) upper lower

  module _ {Address : Type 0} (asio : Asio Address) where
    -- fmt::format("{}.{}.{}.{}", …)
    abbrev pub dotted : ℕ → ℕ → ℕ → ℕ → Text
    dotted a b c d = decimal a ++ (b'.' ∷ (decimal b ++ (b'.' ∷ (decimal c ++ (b'.' ∷ decimal d)))))

    -- The four numbers in the order in which they are written; C++ lets a compiler draw them in any.
    pub random_ipv4 : M S (IpAddress Address)
    random_ipv4 = random_int 1 255 >>= λ a. random_int 1 255 >>= λ b. random_int 1 255 >>= λ c.
        random_int 1 255 >>= λ d. lift (IpAddress.from_string asio (dotted a b c d) (negsuc 0))

    -- `address_v6` is boost's constructor from 16 bytes.
    pub random_ipv6 : (List ℕ → Address) → M S (IpAddress Address)
    unfolding addr_bytes
    random_ipv6 address_v6 s =
        let (upper, s1) = random.word s in
        let (lower, s2) = random.word s1 in
        (ok (inherited asio (address_v6 (addr_bytes 16 0 upper lower))), s2)
