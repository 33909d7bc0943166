-- ===== src/Core/TimerQueue/Tests.antt =====
-- Runs of the timer queue, and its theorems at concrete inputs.
use game_net_core.Prelude.{
  ℕ, ◌≡◌, ◌≤◌, ◌<◌, refl, Bool, true, false, List, [], ◌∷◌, ◌++◌, ◌==◌, if◌then◌else◌, arith, find,
  assign, length,
}
use game_net_core.Core.TimerQueue.{
  TimerQueue, RepeatingTimerOptions, fixed_delay, fixed_rate, Action, cancels, try_add_timer,
  try_cancel, get_expired, run_callbacks, reset, handle_expired, next_fixed_rate_expiration,
}
use game_net_core.Core.TimerQueue.Indexed.{
  AreIndexed, unknown, times, count, try_add_timer-AreIndexed,
}
use game_net_core.Core.TimerQueue.Expired.{get_expired-AreIndexed}
use game_net_core.Core.TimerQueue.Requests.{posts, inserts, request, ArePosted}
use game_net_core.Core.TimerQueue.Runs.{Step, acts, expires, asks, step, run, try_cancel-run}
use game_net_core.Core.TimerQueue.Fired.{handle_expired_lem, handle_expired-first}
use game_net_core.Core.TimerQueue.OneShot.{run-one_shot}
use game_net_core.Core.TimerQueue.Rate.{OnCadence, next_fixed_rate_expiration_lem}

abbrev once : RepeatingTimerOptions
once = record { mode = fixed_delay; max_catch_up_callbacks = 0 }

abbrev every : RepeatingTimerOptions
every = record { mode = fixed_rate; max_catch_up_callbacks = 1 }

abbrev start : TimerQueue
start = record {
  next_sequence = 1;
  timers = [];
  by_id = [];
  heap = λ s. record {
    expiration = 0;
    interval = 0;
    options = once;
    consecutive_catch_up_callbacks = 0;
    canceled = false;
    in_queue = true;
  };
  admitting = true;
}

start-AreIndexed : AreIndexed [] start
unfolding find
start-AreIndexed s = unknown refl refl refl

-- The first timer repeats, the second does not.
abbrev two : TimerQueue
unfolding try_add_timer
two = (try_add_timer 7 0 once (try_add_timer 5 10 every start).1).1

two-AreIndexed : AreIndexed [] two
unfolding two
two-AreIndexed =
    try_add_timer-AreIndexed 7 0 once [] (try_add_timer 5 10 every start).1
      (try_add_timer-AreIndexed 5 10 every [] start start-AreIndexed)

two_keys : two.timers ≡ (1, 5) ∷ (2, 7) ∷ []
unfolding two
two_keys = refl

-- The first timer's callback cancels the second timer, where the state says so.
abbrev callback : Bool → ℕ → List Action × Bool × Bool
callback s e = if e == 1 then ((if s then cancels 2 ∷ [] else []), false, s) else ([], false, s)

both_run : (handle_expired callback 8 5 9 10 two false).2 ≡ 1 ∷ 2 ∷ []
unfolding handle_expired two
both_run = refl

one_cancels_two : (handle_expired callback 8 5 9 10 two true).2 ≡ 1 ∷ []
unfolding handle_expired two find assign
one_cancels_two = refl

-- A timer that another thread adds, and that is canceled on the loop before its posted insert has
-- run, still runs.
posted_runs :
    run callback [] start false
      (asks (posts true 5 0 once) ∷ acts (cancels 1 ∷ []) ∷ asks inserts ∷ expires 8 5 9 10 ∷ [])
    ≡ 1 ∷ []
unfolding run step request handle_expired find
posted_runs = refl

abbrev taken : TimerQueue
unfolding get_expired two
taken = (get_expired 8 5 two).1

taken-AreIndexed : AreIndexed (1 ∷ 2 ∷ []) taken
unfolding get_expired two taken
taken-AreIndexed = get_expired-AreIndexed 8 5 two two-AreIndexed

abbrev steps : List Step
steps = asks (posts true 30 0 once) ∷ expires 20 5 21 22 ∷ asks inserts ∷ expires 40 1 41 42 ∷ []

try_cancel-run_example :
    let (accepted, q₁) = try_cancel 2 taken in
    let (q₂, s', fired) = run_callbacks callback q₁ false (2 ∷ []) in
    (accepted ≡ true) × (count 2 (fired ++ run callback [] (reset 9 (1 ∷ 2 ∷ []) q₂) s' steps) ≡ 0)
unfolding taken ArePosted
try_cancel-run_example =
    try_cancel-run callback 2 (1 ∷ 2 ∷ []) (2 ∷ []) 9 steps [] taken false taken-AreIndexed tt
      (λ e. ground arith) (omega arith) (omega arith) refl refl

run-one_shot_example : count 2 (run callback [] two false steps) ≤ 1
unfolding two ArePosted
run-one_shot_example =
    run-one_shot callback 2 steps [] two false two-AreIndexed tt (omega arith, refl)

handle_expired_lem_example :
    let (q', s', fired, drained, remaining) = handle_expired callback 8 5 9 10 two false in
    AreIndexed [] q'
    × (length fired ≤ drained)
    × (drained ≤ 5)
    × ((id : ℕ) → count id fired ≤ 1)
    × ((id t : ℕ) → times id two.timers ≡ t ∷ [] → 8 < t → count id fired ≡ 0)
    × ((id : ℕ) → times id two.timers ≡ [] → count id fired ≡ 0)
handle_expired_lem_example = handle_expired_lem callback 8 5 9 10 two false two-AreIndexed

handle_expired-first_example :
    (rest : List ℕ) × ((handle_expired callback 8 5 9 10 two false).2 ≡ 1 ∷ rest)
handle_expired-first_example =
    handle_expired-first callback 8 5 9 10 1 5 ((2, 7) ∷ []) two false two-AreIndexed two_keys
      (omega arith) (omega arith)

next_fixed_rate_expiration_lem_example :
    let (next, caught_up) = next_fixed_rate_expiration 5 10 40 1 1 in
    OnCadence 5 10 40 1 1 next caught_up
next_fixed_rate_expiration_lem_example =
    next_fixed_rate_expiration_lem 5 10 40 1 1 (omega arith) (omega arith) (omega arith)
      (omega arith)
