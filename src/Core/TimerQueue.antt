-- ===== src/Core/TimerQueue.antt =====
-- `TimerQueue` of include/gamenet/core/net/TimerQueue.h and src/core/net/TimerQueue.cc. What another
-- thread calls is posted, and runs on the loop's thread later. A timer's `shared_ptr` is its
-- sequence number, and the heap maps these to timers. `std::map<TimerKey, TimerPtr>` is the list of
-- its keys in their order, each as the sequence number and the expiration. Time points and durations
-- are numbers of clock ticks.
pub mod Rate
pub mod Indexed
pub mod Expired
pub mod Canceled
pub mod Requests
pub mod Runs
pub mod Fired
pub mod OneShot
mod Tests
use game_net_core.Prelude.{
  ℕ, zero, suc, ◌+◌, ◌-◌, ◌*◌, ◌/◌, ◌%◌, ◌^◌, Bool, true, false, not, ◌&&◌, ◌||◌, Option, none,
  some, List, [], ◌∷◌, ◌++◌, ltb, leb, ◌==◌, if◌then◌else◌, length, min, max, find, erase, assign,
}

pub data RepeatingTimerMode : Type 0 where
  fixed_delay fixed_rate : RepeatingTimerMode

pub record RepeatingTimerOptions : Type 0 where
  pub mode : RepeatingTimerMode
  pub max_catch_up_callbacks : ℕ

pub record Timer : Type 0 where
  pub expiration : ℕ
  pub interval : ℕ
  pub options : RepeatingTimerOptions
  pub consecutive_catch_up_callbacks : ℕ
  pub canceled : Bool
  pub in_queue : Bool

abbrev pub Keys : Type 0
Keys = List (ℕ × ℕ)

abbrev pub Timers : Type 0
Timers = ℕ → Timer

-- `admitting` is `loop_->phase() == EventLoopPhase::Running`.
pub record TimerQueue : Type 0 where
  pub next_sequence : ℕ
  pub timers : Keys
  pub by_id : List (ℕ × ℕ)
  pub heap : Timers
  pub admitting : Bool

abbrev pub update_timer : Timers → ℕ → Timer → Timers
update_timer heap s t k = if s == k then t else heap k

abbrev pub max_time : ℕ
max_time = 2 ^ 63 - 1

abbrev pub is_fixed_rate : RepeatingTimerMode → Bool
is_fixed_rate fixed_delay = false
is_fixed_rate fixed_rate = true

-- `ceilMilliseconds(expiration - now)`, for a clock with so many ticks in a millisecond.
unfoldable pub ceil_milliseconds : ℕ → ℕ → ℕ → ℕ
ceil_milliseconds ticks expiration now =
    let delay = expiration - now in
    let ms = if ltb (delay / ticks * ticks) delay then delay / ticks + 1 else delay / ticks in
    if leb expiration now then 0 else max 1 (min ms (2 ^ 31 - 1))

-- `nextFixedRateExpiration`: the next expiration, and the new count of callbacks that catch up. A
-- sum of the clock's 64-bit ticks that is beyond the largest time point overflows in the source;
-- here it is the natural number.
unfoldable pub next_fixed_rate_expiration : ℕ → ℕ → ℕ → ℕ → ℕ → ℕ × ℕ
next_fixed_rate_expiration previous interval now max_catch_up consecutive =
    let next = previous + interval in
    let skipped = next + interval * ((now - next) / interval) in
    if ltb now next
    then (next, 0)
    else if ltb consecutive max_catch_up
    then (next, consecutive + 1)
    else if leb skipped now
    then (if ltb (max_time - skipped) interval then (max_time, 0) else (skipped + interval, 0))
    else (skipped, 0)

-- `RepeatingTimerOptions::validate` and the further tests of `tryAddTimer`, which throws where this
-- is false; an interval is never negative here.
unfoldable pub valid_options : ℕ → RepeatingTimerOptions → Bool
valid_options interval o =
    (is_fixed_rate o.mode || o.max_catch_up_callbacks == 0)
    && not (interval == 0 && (is_fixed_rate o.mode || not (o.max_catch_up_callbacks == 0)))

-- `TimerKey::operator<`.
abbrev pub key_lt : ℕ × ℕ → ℕ × ℕ → Bool
key_lt (s, t) (s', t') = ltb t t' || t == t' && ltb s s'

-- `timers_.emplace`.
unfoldable pub insert_key : ℕ × ℕ → Keys → Keys
insert_key k [] = k ∷ []
insert_key k (k' ∷ ks) =
    if key_lt k k' then k ∷ k' ∷ ks else if key_lt k' k then k' ∷ insert_key k ks else k' ∷ ks

-- `timers_.erase`.
unfoldable pub erase_key : ℕ × ℕ → Keys → Keys
erase_key (s, t) [] = []
erase_key (s, t) ((s', t') ∷ ks) = if s == s' && t == t' then ks else (s', t') ∷ erase_key (s, t) ks

-- `insert`; its answer is that of `earliest_changed`.
unfoldable pub insert : ℕ → TimerQueue → TimerQueue
unfolding insert_key
insert s q = record q {
  heap = update_timer q.heap s (record (q.heap s) { in_queue = true; canceled = false });
  by_id = assign s s q.by_id;
  timers = insert_key (s, (q.heap s).expiration) q.timers;
}

unfoldable pub earliest_changed : ℕ → TimerQueue → Bool
earliest_changed s q = elim q.timers [ [] ↦ true | k ∷ ks ↦ key_lt (s, (q.heap s).expiration) k ]

-- The new timer under its sequence number, not yet in the queue.
abbrev pub with_timer : ℕ → ℕ → RepeatingTimerOptions → TimerQueue → TimerQueue
with_timer when interval o q = record q {
  next_sequence = q.next_sequence + 1;
  heap = update_timer q.heap q.next_sequence (record {
    expiration = when;
    interval = interval;
    options = o;
    consecutive_catch_up_callbacks = 0;
    canceled = false;
    in_queue = true;
  });
}

-- `tryAddTimer` on the loop's thread, once the arguments are valid: the sequence number if the timer
-- is accepted.
unfoldable pub try_add_timer : ℕ → ℕ → RepeatingTimerOptions → TimerQueue → Option ℕ × TimerQueue
unfolding insert
try_add_timer when interval o q =
    let made = with_timer when interval o q in
    if q.admitting then (some q.next_sequence, insert q.next_sequence made) else (none, made)

-- `tryAddTimer` on another thread: the number is drawn at once; `accepted` says whether the executor
-- takes the post that is to insert the timer.
unfoldable pub post_timer :
    Bool → ℕ → ℕ → RepeatingTimerOptions → TimerQueue → Option ℕ × TimerQueue
post_timer accepted when interval o q =
    (if accepted then some q.next_sequence else none, with_timer when interval o q)

-- `addTimerInLoop`.
unfoldable pub add_timer_in_loop : ℕ → TimerQueue → TimerQueue
unfolding insert
add_timer_in_loop s q = insert s q

unfoldable pub cancel_in_loop : ℕ → TimerQueue → TimerQueue
unfolding erase_key
cancel_in_loop id q = elim (find id q.by_id) [
  | none ↦ q
  | some s ↦
      let t = q.heap s in
      if t.in_queue
      then record q {
        heap = update_timer q.heap s (record t { canceled = true; in_queue = false });
        timers = erase_key (s, t.expiration) q.timers;
        by_id = erase id q.by_id;
      }
      else record q {
        heap = update_timer q.heap s (record t { canceled = true });
        by_id = erase id q.by_id;
      }
]

-- `tryCancel` on the loop's thread; zero is the invalid id. The test says `Accepted`.
unfoldable pub try_cancel : ℕ → TimerQueue → Bool × TimerQueue
unfolding cancel_in_loop
try_cancel id q =
    if id == 0 then (true, q) else if q.admitting then (true, cancel_in_loop id q) else (false, q)

unfoldable pub poll_timeout_ms : ℕ → ℕ → ℕ → TimerQueue → ℕ
unfolding ceil_milliseconds
poll_timeout_ms ticks default_timeout now q = elim q.timers [
  | [] ↦ default_timeout
  | (s, t) ∷ ks ↦ min default_timeout (ceil_milliseconds ticks (q.heap s).expiration now)
]

-- The keys up to the sentry, as many as are allowed, and the others.
unfoldable pub take_due : ℕ → ℕ → Keys → Keys × Keys
take_due now zero ks = ([], ks)
take_due now (suc n) [] = ([], [])
take_due now (suc n) ((s, t) ∷ ks) =
    let (due, later) = take_due now n ks in
    if leb t now then ((s, t) ∷ due, later) else ([], (s, t) ∷ ks)

abbrev pub sequences : Keys → List ℕ
sequences [] = []
sequences ((s, t) ∷ ks) = s ∷ sequences ks

unfoldable pub take_out : List ℕ → Timers → Timers
take_out [] heap = heap
take_out (s ∷ ss) heap = take_out ss (update_timer heap s (record (heap s) { in_queue = false }))

-- `getExpired`.
unfoldable pub get_expired : ℕ → ℕ → TimerQueue → List ℕ × TimerQueue
unfolding take_due take_out
get_expired now max_count q =
    let (due, later) = take_due now max_count q.timers in
    (sequences due, record q { heap = take_out (sequences due) q.heap; timers = later })

-- The timer with its next expiration.
unfoldable pub rescheduled : ℕ → Timer → Timer
unfolding next_fixed_rate_expiration
rescheduled now t =
    if is_fixed_rate t.options.mode
    then (let (next, count) =
          next_fixed_rate_expiration t.expiration t.interval now t.options.max_catch_up_callbacks
            t.consecutive_catch_up_callbacks in
        record t { expiration = next; consecutive_catch_up_callbacks = count })
    else record t { expiration = now + t.interval; consecutive_catch_up_callbacks = 0 }

abbrev pub is_known : ℕ → List (ℕ × ℕ) → Bool
is_known s ids = elim (find s ids) [ none ↦ false | some h ↦ true ]

unfoldable pub reset_timer : ℕ → ℕ → TimerQueue → TimerQueue
unfolding rescheduled insert
reset_timer now s q =
    let t = q.heap s in
    if ltb 0 t.interval && not t.canceled && is_known s q.by_id
    then insert s (record q { heap = update_timer q.heap s (rescheduled now t) })
    else record q { by_id = erase s q.by_id }

-- The loop of `reset`.
unfoldable pub reset : ℕ → List ℕ → TimerQueue → TimerQueue
unfolding reset_timer
reset now [] q = q
reset now (s ∷ ss) q = reset now ss (reset_timer now s q)

-- What a callback may do on the loop's thread.
pub data Action : Type 0 where
  adds : ℕ → ℕ → RepeatingTimerOptions → Action
  cancels : ℕ → Action
  closes : Action

unfoldable pub perform : TimerQueue → Action → TimerQueue
unfolding valid_options try_add_timer try_cancel
perform q (adds when interval o) =
    if valid_options interval o then (try_add_timer when interval o q).1 else q
perform q (cancels id) = (try_cancel id q).1
perform q closes = record q { admitting = false }

unfoldable pub perform_all : TimerQueue → List Action → TimerQueue
unfolding perform
perform_all q [] = q
perform_all q (a ∷ actions) = perform_all (perform q a) actions

-- A callback that has thrown cancels its timer.
abbrev pub after_callback : Bool → ℕ → TimerQueue → TimerQueue
after_callback threw s q =
    if threw
    then record q { heap = update_timer q.heap s (record (q.heap s) { canceled = true }) }
    else q

-- The keys up to the sentry.
abbrev pub count_due : ℕ → Keys → ℕ
count_due now [] = 0
count_due now ((s, t) ∷ ks) = if leb t now then suc (count_due now ks) else 0

unfoldable pub first_ready : ℕ → TimerQueue → Bool
first_ready now q = elim q.timers [ [] ↦ false | (s, t) ∷ ks ↦ leb (q.heap s).expiration now ]

module _ {S : Type 0} (callback : S → ℕ → List Action × Bool × S) where
  -- One expired timer of `handleExpired`; the list is that of the callbacks run.
  unfoldable pub fire : TimerQueue → S → ℕ → TimerQueue × S × List ℕ
  unfolding perform_all
  fire q s e =
      let (actions, threw, s') = callback s e in
      if (q.heap e).canceled
      then (q, s, [])
      else (after_callback threw e (perform_all q actions), s', e ∷ [])

  -- The loop over the expired timers.
  unfoldable pub run_callbacks : TimerQueue → S → List ℕ → TimerQueue × S × List ℕ
  unfolding fire
  run_callbacks q s [] = (q, s, [])
  run_callbacks q s (e ∷ es) =
      let (q', s', fired) = fire q s e in
      let (q'', s'', later) = run_callbacks q' s' es in (q'', s'', fired ++ later)

  -- `handleExpired now maxCount`; `reset_at` and `counted_at` are the later readings of the clock.
  -- The answer is the callbacks run, and the numbers drained and remaining.
  unfoldable pub handle_expired : ℕ → ℕ → ℕ → ℕ → TimerQueue → S → TimerQueue × S × List ℕ × ℕ × ℕ
  unfolding get_expired run_callbacks reset first_ready
  handle_expired now max_count reset_at counted_at q s =
      let (expired, q₁) = get_expired now max_count q in
      let (q₂, s', fired) = run_callbacks q₁ s expired in
      let q₃ = reset reset_at expired q₂ in
      if first_ready now q
      then (q₃, s', fired, length expired, count_due counted_at q₃.timers)
      else (q, s, [], 0, 0)
