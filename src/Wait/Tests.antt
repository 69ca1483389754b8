-- ===== src/Wait/Tests.antt =====
-- A child that exits with 17, as Linux encodes it.
use systemprogramming.Base.{◌*◌, ◌≡◌, refl}
use systemprogramming.Wait.{parts}

exit_17 : (parts (17 * 256)).high_8 ≡ 17
unfolding parts
exit_17 = refl
