-- ===== src/Bitmask/Tests.antt =====
-- Two flags of three are cleared.
use fnc.Prelude.{◌≡◌, refl}
use fnc.Bitmask.{mask_and, mask_not}

cleared : mask_and 7 (mask_not 3) ≡ 4
unfolding mask_and mask_not
cleared = refl
