-- ===== src/Main/Options.antt =====
-- What the options of the command line do.
use fnc.Prelude.{
  ℕ, suc, zero, ◌≡◌, refl, ℤ, pos, negsuc, true, leb, Text, ltb, if◌then◌else◌, arith,
}
use fnc.Logging.{
  Level, trace, debug, info, setup_logger, at_start, get_log, Spdlog, send_to_log,
  enable_debug_logging, enable_trace_logging,
}
use fnc.Logging.Levels.{severity, IsSpdlog}
use fnc.Main.{start_logging}

-- The lowest level that is shown with so many flags -d.
abbrev pub shown_from : ℤ → Level
shown_from (negsuc n) = info
shown_from (pos zero) = info
shown_from (pos (suc zero)) = debug
shown_from (pos (suc (suc n))) = trace

-- The global LOGGER is as it was made, and get_log's logger has this level.
started :
    (flags : ℤ)
    → ((start_logging flags at_start).logger_global ≡ setup_logger)
      × (get_log (start_logging flags at_start)).0
        ≡ record setup_logger { level = shown_from flags }
unfolding start_logging enable_debug_logging enable_trace_logging get_log setup_logger
started (negsuc n) = (refl, refl)
started (pos zero) = (refl, refl)
started (pos (suc zero)) = (refl, refl)
started (pos (suc (suc n))) =
    let one : ltb 0 (suc (suc n)) ≡ true = ground arith in
    let two : ltb 1 (suc (suc n)) ≡ true = ground arith in rw (one, two) (refl, refl)

module _ {Out : Type 0} (lib : Spdlog Out) (law : IsSpdlog lib) where
  -- Where spdlog's loggers are as documented, a message that is sent to the log behind the options of
  -- `main` goes out exactly if its level is not below info without -d, debug with one -d and trace with
  -- more; the global LOGGER stays as it was made.
  pub send_to_log-start_logging :
      (flags : ℤ) (level : Level) (filename function : Text) (line_number : ℕ) (message : Text)
      (out : Out)
      → ((send_to_log lib level filename function line_number message
            (start_logging flags at_start)
            out).1
          ≡ (if leb (severity (shown_from flags)) (severity level)
              then law.write
                  (record setup_logger { level = shown_from flags })
                  level
                  (lib.format_context filename function line_number message)
                  out
              else out))
        × ((start_logging flags at_start).logger_global ≡ setup_logger)
  unfolding send_to_log
  send_to_log-start_logging flags level filename function line_number message out =
      let (kept, same) = started flags in (rw same (law.filters _ level _ out), kept)
