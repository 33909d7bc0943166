-- ===== src/Core/TimerQueue/Rate.antt =====
-- When a repeating timer is due next, and how long the loop waits for a timer.
use native.Mathlib.Nat.{div-add-mod, mod-lt, mul-suc, mul-zero, mul_comm}
use game_net_core.Prelude.{
  ℕ, suc, subst, zero_or_positive, ◌+◌, ◌-◌, ◌*◌, ◌/◌, ◌^◌, ◌≤◌, ◌<◌, ◌≡◌, ◌⊎◌, inl, inr, refl,
  true, arith, ltb, leb, min, max, Bool-cases, ◌∷◌,
}
use game_net_core.Core.TimerQueue.{
  TimerQueue, next_fixed_rate_expiration, ceil_milliseconds, poll_timeout_ms, max_time, Keys,
}

-- The outcome of rescheduling at a fixed rate: on time, or as long as it may catch up, the timer is
-- due at the next point of its cadence; later, at the first point in the future.
pub record OnCadence (previous interval now max_catch_up consecutive next count : ℕ) : Type 0 where
  pub rounds : ℕ
  pub cadence :
      (next ≡ previous + interval * suc rounds)
      ⊎ ((next ≡ max_time) × (max_time < previous + interval * suc rounds))
  pub bounded : count ≤ max_catch_up
  pub on_time : now < previous + interval → (next ≡ previous + interval) × (count ≡ 0)
  pub catches_up :
      previous + interval ≤ now
      → consecutive < max_catch_up
      → (next ≡ previous + interval) × (count ≡ consecutive + 1)
  pub skips :
      previous + interval ≤ now
      → max_catch_up ≤ consecutive
      → (now < next) × (previous + interval * rounds ≤ now) × (count ≡ 0)

-- A timer that repeats at a fixed rate is due next at a later point of its cadence, or at the
-- largest time point where that point would pass it. If it is on time, that is the next point. If
-- it is late, it catches up, with the next point, at most as many callbacks in a row as its options
-- allow; then it is due at a point in the future, the first of its cadence, as the point before is
-- not. The times are nonnegative, and the next point is no later than the largest time point.
pub next_fixed_rate_expiration_lem :
    (previous interval now max_catch_up consecutive : ℕ)
    → 0 < interval
    → now < max_time
    → previous + interval ≤ max_time
    → consecutive ≤ max_catch_up
    → let (next, count) =
        next_fixed_rate_expiration previous interval now max_catch_up consecutive in
      OnCadence previous interval now max_catch_up consecutive next count
unfolding next_fixed_rate_expiration
next_fixed_rate_expiration_lem previous interval now max_catch_up consecutive p small held c =
    let next : ℕ = previous + interval in
    let missed : ℕ = (now - next) / interval in
    let first = mul-suc interval 0 in
    let none_yet = mul-zero interval in
    let split = div-add-mod (now - next) interval in
    let below = mod-lt (now - next) p in
    let step = mul-suc interval (suc missed) in
    let step' = mul-suc interval missed in
    elim (Bool-cases (ltb now next)) [
      | inl early ↦ rw early (record {
        rounds = 0;
        cadence = inl (omega (arith, first, none_yet));
        bounded = omega arith;
        on_time = λ e. (refl, refl);
        catches_up = λ e. absurd (ground (arith, early, e));
        skips = λ e. absurd (ground (arith, early, e));
      })
      | inr late ↦ elim (Bool-cases (ltb consecutive max_catch_up)) [
        | inl more ↦
            rw (late, more)
              (record {
                rounds = 0;
                cadence = inl (omega (arith, first, none_yet));
                bounded = ground (arith, more);
                on_time = λ e. absurd (ground (arith, late, e));
                catches_up = λ e f. (refl, refl);
                skips = λ e f. absurd (ground (arith, more, f));
              })
        | inr spent ↦
            let passed : leb (next + interval * missed) now ≡ true = ground (arith, late, split) in
            elim (Bool-cases (ltb (max_time - (next + interval * missed)) interval)) [
              | inl too_far ↦
                  rw (late, spent, passed, too_far)
                    (record {
                      rounds = suc missed;
                      cadence = inr (refl, ground (arith, step, step', too_far, passed, small));
                      bounded = omega arith;
                      on_time = λ e. absurd (ground (arith, late, e));
                      catches_up = λ e f. absurd (ground (arith, spent, f));
                      skips = λ e f. (small, ground (arith, step', passed), refl);
                    })
              | inr near ↦
                  rw (late, spent, passed, near)
                    (record {
                      rounds = suc missed;
                      cadence = inl (omega (arith, step, step'));
                      bounded = omega arith;
                      on_time = λ e. absurd (ground (arith, late, e));
                      catches_up = λ e f. absurd (ground (arith, spent, f));
                      skips = λ e f.
                          (ground (arith, split, below, late), ground (arith, step', passed), refl);
                    })
            ]
      ]
    ]

whole_positive : (ticks delay : ℕ) → 0 < delay → delay ≤ delay / ticks * ticks → 0 < delay / ticks
whole_positive ticks delay p e = elim (zero_or_positive (delay / ticks)) [
  | inl none_whole ↦ absurd (omega (arith, p, subst (λ k. delay ≤ k * ticks) none_whole e))
  | inr r ↦ r
]

-- The loop waits for no longer than it would by default, and if it is woken then a timer that is not
-- due is not waited for beyond: the wait covers the time up to the first expiration in whole
-- milliseconds, unless it was cut short by the default or the largest wait.
pub poll_timeout_ms_lem :
    (ticks default_timeout now s t : ℕ) (ks : Keys) (q : TimerQueue)
    → 0 < ticks
    → q.timers ≡ (s, t) ∷ ks
    → let wait = poll_timeout_ms ticks default_timeout now q in
      (wait ≤ default_timeout)
      × ((q.heap s).expiration ≤ now → wait ≡ 0)
      × (wait < default_timeout → wait < 2 ^ 31 - 1 → (q.heap s).expiration ≤ now + wait * ticks)
unfolding poll_timeout_ms ceil_milliseconds
poll_timeout_ms_lem ticks default_timeout now s t ks q p first =
    let due = (q.heap s).expiration in
    let delay : ℕ = due - now in
    let split = div-add-mod delay ticks in
    let below = mod-lt delay p in
    let exactly = mul_comm ticks (delay / ticks) in
    let more_exactly = mul_comm ticks (delay / ticks + 1) in
    let step = mul-suc ticks (delay / ticks) in
    elim (Bool-cases (leb due now)) [
      | inl is_due ↦
          rw (first, is_due) (ground arith, λ e. ground arith, λ e f. ground (arith, is_due))
      | inr waits ↦ elim (Bool-cases (ltb (delay / ticks * ticks) delay)) [
        | inl more ↦
            rw (first, waits, more)
              (
                omega arith,
                λ e. absurd (ground (arith, waits, e)),
                λ e f.
                    let w : min default_timeout (max 1 (min (delay / ticks + 1) 2147483647))
                        ≡ delay / ticks + 1 =
                      omega (arith, e, f) in
                    rw w (omega (arith, more_exactly, step, split, below)),
              )
        | inr whole ↦
            rw (first, waits, whole)
              (
                omega arith,
                λ e. absurd (ground (arith, waits, e)),
                λ e f.
                    let some_time : 0 < delay / ticks =
                      whole_positive ticks delay (ground (arith, waits)) (ground (arith, whole)) in
                    let w : min default_timeout (max 1 (min (delay / ticks) 2147483647))
                        ≡ delay / ticks =
                      omega (arith, e, f, some_time) in
                    rw w (ground (arith, whole)),
              )
      ]
    ]
