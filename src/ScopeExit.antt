-- ===== src/ScopeExit.antt =====
-- util/scope_exit.hpp and util/util.hpp: code that runs when a scope is left, on every way out of it.
use fnc.Prelude.{ℤ, Text, ◌++◌, codes}
use fnc.Exceptions.{M}

-- STRING_JOIN, and STRINGIZE of what it is given as it is spelled.
abbrev pub string_join : Text → Text → Text
string_join arg1 arg2 = arg1 ++ arg2

abbrev pub stringize : Text → Text
stringize x = x

-- The variable that SCOPE_EXIT declares on a line, given in decimal digits.
abbrev pub guard_name : Text → Text
guard_name line = string_join (codes "_scope_exit_") line

-- `class scope_exit`: the code that it keeps, over the state.
pub record ScopeExit (S : Type 0) : Type 0 where
  pub f : S → S

abbrev pub make_scope_exit : {S : Type 0} → (S → S) → ScopeExit S
make_scope_exit f = record { f = f }

-- A scope after a guard is declared in it: the destructor calls `f` however the rest ends.
unfoldable pub with_guard : {S A : Type 0} → ScopeExit S → M S A → M S A
with_guard guard rest s = let (r, s') = rest s in (r, guard.f s')

-- SCOPE_EXIT(code), and what follows it in its scope.
unfoldable pub scope_exit : {S A : Type 0} → (S → S) → M S A → M S A
unfolding with_guard
scope_exit code rest = with_guard (make_scope_exit code) rest

-- `class scoped_filedescriptor`
pub record ScopedFiledescriptor : Type 0 where
  pub fd : ℤ

abbrev pub raw : ScopedFiledescriptor → ℤ
raw d = d.fd

-- The scope of a local scoped_filedescriptor, for the `close` of the system.
unfoldable pub with_filedescriptor :
    {S A : Type 0} → (ℤ → S → S) → ℤ → (ScopedFiledescriptor → M S A) → M S A
with_filedescriptor close fd rest s =
    let d : ScopedFiledescriptor = record { fd = fd } in
    let (r, s') = rest d s in (r, close d.fd s')
