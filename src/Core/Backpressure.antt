-- ===== src/Core/Backpressure.antt =====
-- `ConnectionBackpressureController` of src/core/net/detail/ConnectionBackpressureController.h and
-- .cc: read interest with hysteresis. `channel_reading` is the channel's own read interest.
mod Tests
use game_net_core.Prelude.{
  ℕ, ◌≤◌, ◌<◌, ◌≡◌, ◌⊎◌, inl, inr, Bool-cases, refl, Bool, true, false, not, ◌&&◌, ◌||◌, Option,
  none, some, List, [], ◌∷◌, ltb, leb, ◌==◌, if◌then◌else◌, arith,
}

pub record Controller : Type 0 where
  pub high_water_mark : ℕ
  pub low_water_mark : ℕ
  pub active : Bool
  pub reading_enabled : Bool
  pub channel_reading : Bool

unfoldable pub initial : Bool → Controller
initial channel_reading = record {
  high_water_mark = 0;
  low_water_mark = 0;
  active = false;
  reading_enabled = true;
  channel_reading = channel_reading;
}

-- `validateThresholds`, which throws where this is false.
unfoldable pub valid_thresholds : ℕ → ℕ → Bool
valid_thresholds high low = not (high == 0) && not (leb high low)

unfoldable pub apply : ℕ → Controller → Controller
apply buffered c =
    if c.active
    then (if c.reading_enabled && leb c.high_water_mark buffered
        then record c { reading_enabled = false; channel_reading = false }
        else if not c.reading_enabled && leb buffered c.low_water_mark
        then record c { reading_enabled = true; channel_reading = true }
        else c)
    else c

-- `none` is the exception of `validateThresholds`, which comes before any change.
unfoldable pub configure : ℕ → ℕ → ℕ → Controller → Option Controller
unfolding valid_thresholds apply
configure high low buffered c =
    if valid_thresholds high low
    then some (apply buffered (record c { high_water_mark = high; low_water_mark = low }))
    else none

unfoldable pub on_connection_established : ℕ → Controller → Controller
unfolding apply
on_connection_established buffered c =
    apply buffered (record c { active = true; reading_enabled = true })

unfoldable pub on_buffered_bytes_changed : ℕ → Controller → Controller
unfolding apply
on_buffered_bytes_changed buffered c = apply buffered c

unfoldable pub on_closed : Controller → Controller
on_closed c = record c { active = false; reading_enabled = false }

-- While the connection is up, the marks are in order, the channel reads exactly if the controller
-- lets it, and reading is off above the high mark and on below the low one.
pub record IsSettled (buffered : ℕ) (c : Controller) : Type 0 where
  pub ordered : c.low_water_mark < c.high_water_mark
  pub up : c.active ≡ true
  pub agrees : c.channel_reading ≡ c.reading_enabled
  pub off_above : c.high_water_mark ≤ buffered → c.reading_enabled ≡ false
  pub on_below : buffered ≤ c.low_water_mark → c.reading_enabled ≡ true

-- Between the marks nothing changes: reading stays as the last crossing left it.
abbrev pub Holds : ℕ → Controller → Controller → Type 0
Holds buffered c d =
    c.low_water_mark < buffered
    → buffered < c.high_water_mark
    → d.reading_enabled ≡ c.reading_enabled

-- From a controller of an established connection with its marks in order, whatever number of
-- buffered bytes is reported next, the controller is settled for that number, and if the number
-- lies strictly between the marks then reading stays as it was.
pub on_buffered_bytes_changed-IsSettled :
    (before buffered : ℕ) (c : Controller)
    → IsSettled before c
    → IsSettled buffered (on_buffered_bytes_changed buffered c)
      × Holds buffered c (on_buffered_bytes_changed buffered c)
unfolding on_buffered_bytes_changed
on_buffered_bytes_changed-IsSettled before buffered c v = ground arith

-- On a settled controller new marks are refused, if the high one is not above the low one, or they
-- are the controller's marks from then on and it is settled by them for the bytes that are buffered.
pub configure-IsSettled :
    (high low before buffered : ℕ) (c : Controller)
    → IsSettled before c
    → ((configure high low buffered c ≡ none) × (high ≤ low))
      ⊎ ((d : Controller) × (configure high low buffered c ≡ some d)
          × (low < high)
          × (d.high_water_mark ≡ high)
          × (d.low_water_mark ≡ low)
          × IsSettled buffered d)
unfolding configure valid_thresholds apply
configure-IsSettled high low before buffered c v = elim (Bool-cases (valid_thresholds high low)) [
  | inr e ↦ inl (ground arith, ground arith)
  | inl e ↦ inr (
    apply buffered (record c { high_water_mark = high; low_water_mark = low }),
    ground arith,
    ground arith,
    ground arith,
    ground arith,
    ground arith,
  )
]
