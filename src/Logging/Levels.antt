-- ===== src/Logging/Levels.antt =====
-- Which messages a logger lets through.
use fnc.Prelude.{ℕ, ◌≡◌, leb, Text, if◌then◌else◌}
use fnc.Logging.{Level, trace, debug, info, warn, err, critical, Logger, Spdlog}

-- The value of an enumerator of spdlog's.
abbrev pub severity : Level → ℕ
severity trace = 0
severity debug = 1
severity info = 2
severity warn = 3
severity err = 4
severity critical = 5

-- What spdlog documents: a message goes out exactly if its level is not below the logger's; `write` is
-- what happens to one that does.
pub record IsSpdlog {Out : Type 0} (lib : Spdlog Out) : Type 0 where
  pub write : Logger → Level → Text → Out → Out
  pub filters :
      (l : Logger) (level : Level) (message : Text) (out : Out)
      → lib.log l level message out
        ≡ (if leb (severity l.level) (severity level) then write l level message out else out)
