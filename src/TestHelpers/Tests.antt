-- ===== src/TestHelpers/Tests.antt =====
-- A command with two lines of output, the second one without an end.
use fnc.Prelude.{◌≡◌, refl, arith, true, false, some, ◌++◌, ◌∷◌, Text, codes}
use fnc.Exceptions.{ok}
use fnc.IpAddress.Simulated.{ip4}
use fnc.TestHelpers.{shell_exec, read_all}
use fnc.TestHelpers.Shell.{shell_exec_output}
use fnc.TestHelpers.Simulated.{Output, stdio, stdio-IsStdio, decimals}

abbrev output : Text
output = codes "up" ++ (10 ∷ codes "1500")

abbrev closed : Output
closed = record { left = codes ""; over = true }

read_both : (shell_exec (stdio output) 4 (codes "ip link") closed).0 ≡ ok output
unfolding shell_exec read_all
read_both = refl

read_dotted : decimals.from_string (codes "10.20.30.40") ≡ some (ip4 10 20 30 40)
read_dotted = refl

shell_exec_output_example :
    (s2 : Output) × (shell_exec (stdio output) 9 (codes "ip link") closed
      ≡ (ok output, (stdio output).pclose (some tt) s2))
unfolding stdio-IsStdio
shell_exec_output_example =
    shell_exec_output (stdio output) (stdio-IsStdio output) tt 9 (codes "ip link") closed
      (record { left = output; over = false }) refl
      (refl, (refl, (refl, (refl, (refl, (refl, (refl, tt))))))) (omega arith)
