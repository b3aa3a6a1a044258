-- ===== src/Services/Timeouts.antt =====
-- The timeouts that the service sets.
use mchat.Base.{ℕ, ◌≡◌, ◌↔◌, ◌*◌, ◌+◌, ◌%◌, ◌^◌, ◌-◌, Bool, ltb, true, arith}
use mchat.Text.Atoi.{ℤ, pos, negsuc}
use mchat.Services.{second, times_second, to_int64}

-- so many seconds, without a bound
abbrev pub exactly : ℤ → ℤ
exactly (pos n) = pos (n * second)
exactly (negsuc n) = negsuc ((n + 1) * second - 1)

-- An int64 that is a duration of less than 9.223372037 seconds either way.
abbrev pub is_short : ℤ → Bool
is_short (pos n) = ltb n 9223372037
is_short (negsuc n) = ltb n 9223372036

-- A product that fits is the product of the integers, and no other is.
pos_iff : (w : ℕ) → (to_int64 (w % 2 ^ 64) ≡ pos w) ↔ (ltb w (2 ^ 63) ≡ true)
pos_iff w = ground arith

negsuc_iff :
    (v w : ℕ)
    → v ≡ w + 1
    → (to_int64 ((2 ^ 64 - v % 2 ^ 64) % 2 ^ 64) ≡ negsuc w) ↔ (ltb w (2 ^ 63) ≡ true)
negsuc_iff v w h = ground (arith, h)

-- A timeout of a flag times a second is so many seconds exactly if the product fits into an int64,
-- which it does for durations of less than 9.223372037 seconds.
pub times_second_iff : (d : ℤ) → (times_second d ≡ exactly d) ↔ (is_short d ≡ true)
unfolding times_second
times_second_iff (pos n) = ground (arith, pos_iff (n * second))
times_second_iff (negsuc n) =
    ground (arith, negsuc_iff ((n + 1) * second) ((n + 1) * second - 1) (omega arith))
