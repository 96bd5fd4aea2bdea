-- ===== src/Exceptions.antt =====
-- exceptions.hpp: the exception classes, the throwing macros and `what`, and a computation that may
-- throw. An exception keeps its class and the format string of its message; the file, function and
-- line that the macros add, and the arguments that `fmt::format` fills in, are left out of it.
pub mod Laws
mod Tests
use fnc.Prelude.{ℕ, String, Bool, true, false, not, List, [], ◌++◌, ltb, ◌&&◌, if◌then◌else◌, Text}

-- The classes of the repository, and two of the standard library that its code throws or lets out.
pub data Kind : Type 0 where
  network_exception timeout_exception illegal_argument permission_denied : Kind
  out_of_range runtime_error : Kind

pub record Exception : Type 0 where
  pub kind : Kind
  pub message : String

-- THROW_NETEX
abbrev pub netex : String → Exception
netex m = record { kind = network_exception; message = m }

-- THROW_TIMEOUT
abbrev pub timeout : String → Exception
timeout m = record { kind = timeout_exception; message = m }

-- THROW_DENIED
abbrev pub denied : String → Exception
denied m = record { kind = permission_denied; message = m }

-- THROWEX(illegal_argument, …)
abbrev pub illegal : String → Exception
illegal m = record { kind = illegal_argument; message = m }

-- THROWEX of a class, and the throwing macros as the code takes them.
abbrev pub throwex : Kind → String → Exception
throwex kind m = record { kind = kind; message = m }

pub record Throws : Type 0 where
  pub throw_ex : Kind → String → Exception
  pub throw_netex : String → Exception
  pub throw_timeout : String → Exception
  pub throw_denied : String → Exception

abbrev pub throws : Throws
throws = record {
  throw_ex = throwex;
  throw_netex = netex;
  throw_timeout = timeout;
  throw_denied = denied;
}

-- The classes that a handler can name.
pub data Handler : Type 0 where
  catch_permission_denied catch_network_exception catch_std_exception : Handler

-- A handler takes an exception of its own class, or of a class with it as an accessible base.
-- `class permission_denied : fnc_exception` inherits privately, so it is no `std::exception` there.
unfoldable pub catches : Handler → Kind → Bool
catches catch_permission_denied permission_denied = true
catches catch_permission_denied _ = false
catches catch_network_exception network_exception = true
catches catch_network_exception _ = false
catches catch_std_exception permission_denied = false
catches catch_std_exception _ = true

-- The fields of `fnc_exception`. `context` is fmt::format("[{}::{}:{}] ", file, function, line).
pub record FncException : Type 0 where
  pub file : Text
  pub function : Text
  pub line : ℕ
  pub message : Text

-- The constructor from a message alone.
pub from_message : Text → FncException
from_message m = record { file = []; function = []; line = 0; message = m }

abbrev pub empty : Text → Bool
empty [] = true
empty _ = false

-- The text in `fullmsg` when `what` returns; the pointer that it returns outlives that local.
unfoldable pub what : (Text → Text → ℕ → Text) → FncException → Text
what context e =
    (if not (empty e.file) && (not (empty e.function) && ltb 0 e.line)
      then context e.file e.function e.line
      else [])
    ++ e.message

-- What a call gives: a value, an exception, or `stuck` where the model has no result: its fuel ran
-- out, or the source reads behind the end of a buffer.
pub data Outcome {ℓ} (A : Type ℓ) : Type ℓ where
  ok : A → Outcome A
  throw : Exception → Outcome A
  stuck : Outcome A

abbrev pub then_do {ℓ κ} : {A : Type ℓ} {B : Type κ} → Outcome A → (A → Outcome B) → Outcome B
then_do (ok a) f = f a
then_do (throw e) f = throw e
then_do stuck f = stuck

-- A computation over a state that a throw leaves as it is.
abbrev pub M : Type 0 → Type 0 → Type 0
M S A = S → Outcome A × S

module _ {S A : Type 0} where
  abbrev pub pure : A → M S A
  pure a s = (ok a, s)

  abbrev pub raise : Exception → M S A
  raise e s = (throw e, s)

  abbrev pub lift : Outcome A → M S A
  lift r s = (r, s)

module _ {S A B : Type 0} where
  abbrev pub continue : Outcome A → (A → M S B) → M S B
  continue (ok a) f s = f a s
  continue (throw e) f s = (throw e, s)
  continue stuck f s = (stuck, s)

  infixl 5 ◌>>=◌ ◌>>◌
  abbrev pub ◌>>=◌ : M S A → (A → M S B) → M S B
  ◌>>=◌ m f s = let (r, s') = m s in continue r f s'

  abbrev pub ◌>>◌ : M S A → M S B → M S B
  m >> k = m >>= λ _. k
