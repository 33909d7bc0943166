-- ===== src/Core/Backpressure/Tests.antt =====
-- The read backpressure's theorems at concrete inputs.
use game_net_core.Prelude.{◌≡◌, ◌≤◌, ◌<◌, ◌⊎◌, refl, true, some, none, arith}
use game_net_core.Core.Backpressure.{
  Controller, IsSettled, Holds, on_buffered_bytes_changed, configure,
  on_buffered_bytes_changed-IsSettled, configure-IsSettled,
}

-- Reading, with 3 bytes buffered, and marks at 2 and 8.
abbrev reading : Controller
reading = record {
  high_water_mark = 8;
  low_water_mark = 2;
  active = true;
  reading_enabled = true;
  channel_reading = true;
}

reading-IsSettled : IsSettled 3 reading
reading-IsSettled = record {
  ordered = omega arith;
  up = refl;
  agrees = refl;
  off_above = λ above. absurd (omega (arith, above));
  on_below = λ below. refl;
}

on_buffered_bytes_changed-IsSettled_example :
    IsSettled 9 (on_buffered_bytes_changed 9 reading)
    × Holds 9 reading (on_buffered_bytes_changed 9 reading)
on_buffered_bytes_changed-IsSettled_example =
    on_buffered_bytes_changed-IsSettled 3 9 reading reading-IsSettled

configure-IsSettled_example :
    ((configure 6 6 3 reading ≡ none) × (6 ≤ 6))
    ⊎ ((d : Controller) × (configure 6 6 3 reading ≡ some d)
        × (6 < 6)
        × (d.high_water_mark ≡ 6)
        × (d.low_water_mark ≡ 6)
        × IsSettled 3 d)
configure-IsSettled_example = configure-IsSettled 6 6 3 3 reading reading-IsSettled
