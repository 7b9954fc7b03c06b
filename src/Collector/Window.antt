-- ===== src/Collector/Window.antt =====
-- internal/collector/collector.go: where the first scan starts.
use tee_relay_client.Base.{ℕ, ◌-◌, ◌<◌, ltb, ◌≡◌, ◌⊎◌, if◌then◌else◌, arith}
use tee_relay_client.Base.Int.{ℤ, pos, ltb_ℤ, ◌-ℤ◌, ◌≤ℤ◌, sub_ℕ}

-- 2 ^ 63 and 2 ^ 64.
abbrev pub two_63 : ℕ
two_63 = 9223372036854775808

abbrev pub two_64 : ℕ
two_64 = 18446744073709551616

-- `int64(x)` of a uint64.
unfoldable pub to_int64 : ℕ → ℤ
to_int64 x = if ltb x two_63 then pos x else sub_ℕ x two_64

-- `windowStart`. The last difference cannot overflow: it lies between 0 and `i` where
-- `startInterval` is not negative, which `CheckStartInterval` ensures.
unfoldable pub window_start : ℕ → ℤ → ℤ
window_start index start_interval =
    let i = to_int64 index in if ltb_ℤ i start_interval then pos 0 else i -ℤ start_interval

-- For an index that fits int64 and an interval that is not negative, the start is the index less
-- the interval, or 0 where that would be negative.
pub window_start_lem : (index n : ℕ) → index < two_63 → window_start index (pos n) ≡ pos (index - n)
unfolding window_start to_int64
window_start_lem index n h = ground arith

-- Whatever the index, the start is not negative and not above the index read as int64, or it is 0.
pub window_start_bounds :
    (index n : ℕ)
    → (pos 0 ≤ℤ window_start index (pos n))
      × ((window_start index (pos n) ≡ pos 0) ⊎ (window_start index (pos n) ≤ℤ to_int64 index))
unfolding window_start to_int64
window_start_bounds index n = ground arith
