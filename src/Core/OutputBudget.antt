-- ===== src/Core/OutputBudget.antt =====
-- `TcpOutputMemoryBudget` of include/gamenet/core/net/TcpOutputMemoryBudget.h and
-- src/core/net/TcpOutputMemoryBudget.cc. Connections on several threads share a budget; each atomic
-- access is a step of its own, and a thread's call is a state that goes from access to access; only
-- the loop of `updatePeak`, whose exchange succeeds once or is not needed, is one step.
pub mod Concurrent
mod Tests
use game_net_core.Prelude.{
  ℕ, zero, suc, Bool, true, false, ◌||◌, Option, none, some, ltb, leb, ◌==◌, if◌then◌else◌, add64,
  sub64, max,
}

pub record OutputBudgetOptions : Type 0 where
  pub hard_limit_bytes : ℕ
  pub recovery_threshold_bytes : ℕ

pub record OutputBudget : Type 0 where
  pub options : OutputBudgetOptions
  pub pending_bytes : ℕ
  pub peak_pending_bytes : ℕ
  pub rejected_reservations : ℕ
  pub overloaded : Bool

pub record OutputBudgetSnapshot : Type 0 where
  pub pending_bytes : ℕ
  pub peak_pending_bytes : ℕ
  pub rejected_reservations : ℕ
  pub overloaded : Bool

-- `validate` and the constructor; `none` is the exception.
unfoldable pub create : OutputBudgetOptions → Option OutputBudget
create o =
    if o.hard_limit_bytes == 0 || leb o.hard_limit_bytes o.recovery_threshold_bytes
    then none
    else some (record {
      options = o;
      pending_bytes = 0;
      peak_pending_bytes = 0;
      rejected_reservations = 0;
      overloaded = false;
    })

unfoldable pub snapshot : OutputBudget → OutputBudgetSnapshot
snapshot b = record {
  pending_bytes = b.pending_bytes;
  peak_pending_bytes = b.peak_pending_bytes;
  rejected_reservations = b.rejected_reservations;
  overloaded = b.overloaded;
}

-- Where a call of `tryReserve` stands between two atomic accesses; the numbers are the bytes that
-- it asks for and its local `current`.
pub data Reserving : Type 0 where
  load_pending : ℕ → Reserving
  check_overloaded : ℕ → ℕ → Reserving
  clear_overloaded : ℕ → ℕ → Reserving
  reload_pending : ℕ → Reserving
  exchange : ℕ → ℕ → Reserving
  mark_overloaded : ℕ → Reserving
  count_rejection : Reserving
  update_peak : ℕ → Reserving
  done : Bool → Reserving

-- The tests between the loads and the exchange.
unfoldable pub admission : OutputBudgetOptions → ℕ → ℕ → Reserving
admission o bytes current =
    if ltb o.hard_limit_bytes current || ltb (sub64 o.hard_limit_bytes current) bytes
    then (if ltb o.recovery_threshold_bytes current then mark_overloaded bytes else count_rejection)
    else exchange bytes current

unfoldable pub enter : ℕ → Reserving
enter bytes = if bytes == 0 then done true else load_pending bytes

-- One atomic access of `tryReserve`. A weak exchange may fail although the value is the expected
-- one: `spurious` says so.
unfoldable pub reserve_step : Bool → OutputBudget → Reserving → OutputBudget × Reserving
unfolding admission
reserve_step spurious b (load_pending bytes) = (b, check_overloaded bytes b.pending_bytes)
reserve_step spurious b (check_overloaded bytes current) =
    if b.overloaded
    then (
      b,
      if ltb b.options.recovery_threshold_bytes current
          then count_rejection
          else clear_overloaded bytes current,
    )
    else (b, admission b.options bytes current)
reserve_step spurious b (clear_overloaded bytes current) =
    (record b { overloaded = false }, reload_pending bytes)
reserve_step spurious b (reload_pending bytes) = (b, check_overloaded bytes b.pending_bytes)
reserve_step spurious b (exchange bytes current) =
    if b.pending_bytes == current
    then (if spurious
        then (b, check_overloaded bytes b.pending_bytes)
        else (record b { pending_bytes = add64 current bytes }, update_peak (add64 current bytes)))
    else (b, check_overloaded bytes b.pending_bytes)
reserve_step spurious b (mark_overloaded bytes) = (record b { overloaded = true }, count_rejection)
reserve_step spurious b count_rejection =
    (record b { rejected_reservations = add64 b.rejected_reservations 1 }, done false)
reserve_step spurious b (update_peak candidate) =
    (record b { peak_pending_bytes = max b.peak_pending_bytes candidate }, done true)
reserve_step spurious b (done r) = (b, done r)

-- Where a call of `release` stands; `underflow` is LOG_FATAL.
pub data Releasing : Type 0 where
  subtract : ℕ → Releasing
  recover : ℕ → Releasing
  released : Releasing
  underflow : Releasing

unfoldable pub enter_release : ℕ → Releasing
enter_release bytes = if bytes == 0 then released else subtract bytes

unfoldable pub release_step : OutputBudget → Releasing → OutputBudget × Releasing
release_step b (subtract bytes) = (
  record b { pending_bytes = sub64 b.pending_bytes bytes },
  if ltb b.pending_bytes bytes then underflow else recover (sub64 b.pending_bytes bytes),
)
release_step b (recover remaining) = (
  if leb remaining b.options.recovery_threshold_bytes then record b { overloaded = false } else b,
  released,
)
release_step b released = (b, released)
release_step b underflow = (b, underflow)
