-- ===== src/Logging.antt =====
-- logging.cpp, logging.hpp: the loggers and their levels, and what is sent to the log. spdlog's loggers
-- and fmt's formatting are parameters.
pub mod Levels
mod Tests
use fnc.Prelude.{ℕ, Option, none, some, List, Text, codes, Bool}

-- The enumerators of spdlog::level::level_enum that the source names.
pub data Level : Type 0 where
  trace debug info warn err critical : Level

-- fnc_log_name
abbrev pub fnc_log_name : Text
fnc_log_name = codes "fnc"

-- What the source sets of a logger; it writes to one coloured sink on the standard output.
pub record Logger : Type 0 where
  pub name : Text
  pub pattern : Text
  pub level : Level

-- setup_logger
unfoldable pub setup_logger : Logger
setup_logger = record {
  name = fnc_log_name;
  pattern = codes "[%Y-%m-%d %H:%M:%S.%f] [%^%l%$] %v";
  level = info;
}

-- The global `LOGGER`, and the static `logger` of get_log, which is made by the first call.
pub record Loggers : Type 0 where
  pub logger_global : Logger
  pub logger : Option Logger

-- Before `main` starts.
abbrev pub at_start : Loggers
at_start = record { logger_global = setup_logger; logger = none }

or_setup : Option Logger → Logger
or_setup none = setup_logger
or_setup (some l) = l

-- get_log, with the loggers after the call.
unfoldable pub get_log : Loggers → Logger × Loggers
unfolding or_setup
get_log ls = let l = or_setup ls.logger in (l, record ls { logger = some l })

abbrev pub set_level : Level → Loggers → Loggers
set_level level ls =
    let (l, ls') = get_log ls in record ls' { logger = some (record l { level = level }) }

-- enable_debug_logging
unfoldable pub enable_debug_logging : Loggers → Loggers
enable_debug_logging ls = set_level debug ls

-- enable_trace_logging
unfoldable pub enable_trace_logging : Loggers → Loggers
enable_trace_logging ls = set_level trace ls

-- What the source takes from spdlog and fmt: `log` of a logger, over the state of the output, and
-- fmt::format for the format string of a call, with its arguments put in the format.
pub record Spdlog (Out : Type 0) : Type 0 where
  pub log : Logger → Level → Text → Out → Out
  pub format_context : Text → Text → ℕ → Text → Text

module _ {Out : Type 0} (lib : Spdlog Out) where
  -- send_to_log, for a message that is formatted or is an argument alone. The macros pass the level of
  -- their name and the file, function and line in which they stand.
  unfoldable pub send_to_log : Level → Text → Text → ℕ → Text → Loggers → Out → Loggers × Out
  send_to_log level filename function line_number message ls out =
      let (l, ls') = get_log ls in
      (ls', lib.log l level (lib.format_context filename function line_number message) out)

  -- LOG_TRACE, LOG_DEBUG, LOG_INFO, LOG_WARN, LOG_ERROR and LOG_CRITICAL, where they stand in the code.
  pub record Macros (filename function : Text) (line_number : ℕ) : Type 0 where
    pub log_trace : Text → Loggers → Out → Loggers × Out
    pub log_debug : Text → Loggers → Out → Loggers × Out
    pub log_info : Text → Loggers → Out → Loggers × Out
    pub log_warn : Text → Loggers → Out → Loggers × Out
    pub log_error : Text → Loggers → Out → Loggers × Out
    pub log_critical : Text → Loggers → Out → Loggers × Out

  abbrev pub macros :
      (filename function : Text) (line_number : ℕ) → Macros filename function line_number
  macros filename function line_number = record {
    log_trace = send_to_log trace filename function line_number;
    log_debug = send_to_log debug filename function line_number;
    log_info = send_to_log info filename function line_number;
    log_warn = send_to_log warn filename function line_number;
    log_error = send_to_log err filename function line_number;
    log_critical = send_to_log critical filename function line_number;
  }

  -- logging.hpp, as the code that logs takes it.
  pub record Log : Type 0 where
    pub get_log : Loggers → Logger × Loggers
    pub enable_debug_logging : Loggers → Loggers
    pub enable_trace_logging : Loggers → Loggers
    pub at : (filename function : Text) (line_number : ℕ) → Macros filename function line_number

-- logging.cpp
abbrev pub the_log : {Out : Type 0} (lib : Spdlog Out) → Log lib
the_log lib = record {
  get_log = get_log;
  enable_debug_logging = enable_debug_logging;
  enable_trace_logging = enable_trace_logging;
  at = macros lib;
}
