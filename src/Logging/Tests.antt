-- ===== src/Logging/Tests.antt =====
-- A log that keeps the lines that it is given.
use fnc.Prelude.{◌≡◌, refl, pos, leb, List, [], ◌∷◌, ◌++◌, Text, codes, if◌then◌else◌}
use fnc.Logging.{debug, setup_logger, at_start, Spdlog, send_to_log}
use fnc.Logging.Levels.{severity, IsSpdlog}
use fnc.Main.{start_logging}
use fnc.Main.Options.{shown_from, send_to_log-start_logging}

abbrev lines : Spdlog (List Text)
lines = record {
  log = λ l level message out.
      if leb (severity l.level) (severity level) then out ++ (message ∷ []) else out;
  format_context = λ filename function line_number message. message;
}

lines-IsSpdlog : IsSpdlog lines
lines-IsSpdlog = record {
  write = λ l level message out. out ++ (message ∷ []);
  filters = λ l level message out. refl;
}

send_to_log-start_logging_example :
    ((send_to_log lines debug
        (codes "netiface.cpp")
        (codes "set_mtu")
        159
        (codes "Setting MTU")
        (start_logging (pos 1) at_start)
        []).1
      ≡ (if leb (severity (shown_from (pos 1))) (severity debug)
          then lines-IsSpdlog.write
              (record setup_logger { level = shown_from (pos 1) })
              debug
              (codes "Setting MTU")
              []
          else []))
    × ((start_logging (pos 1) at_start).logger_global ≡ setup_logger)
send_to_log-start_logging_example =
    send_to_log-start_logging lines lines-IsSpdlog (pos 1) debug (codes "netiface.cpp")
      (codes "set_mtu") 159 (codes "Setting MTU") []
