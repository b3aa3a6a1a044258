-- ===== src/Services/Examples.antt =====
-- A service that is set up.
use mchat.Base.{◌≡◌, ◌↔◌, true}
use mchat.Text.Atoi.{ℤ, pos}
use mchat.Services.{times_second}
use mchat.Services.Timeouts.{exactly, is_short, times_second_iff}

abbrev ten_seconds : ℤ
ten_seconds = pos 10000000000

times_second_iff_example :
    (times_second ten_seconds ≡ exactly ten_seconds) ↔ (is_short ten_seconds ≡ true)
times_second_iff_example = times_second_iff ten_seconds
