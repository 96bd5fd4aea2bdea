-- ===== src/Exceptions/Tests.antt =====
-- The handler for std::exception, at the exception that it misses.
use fnc.Prelude.{◌≡◌, ◌↔◌, false}
use fnc.Exceptions.{permission_denied, catches, catch_std_exception}
use fnc.Exceptions.Laws.{catches_std_iff}

catches_std_iff_example :
    (catches catch_std_exception permission_denied ≡ false)
    ↔ (permission_denied ≡ permission_denied)
catches_std_iff_example = catches_std_iff permission_denied
