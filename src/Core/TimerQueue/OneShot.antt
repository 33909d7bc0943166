-- ===== src/Core/TimerQueue/OneShot.antt =====
-- A timer that does not repeat runs at most once.
use game_net_core.Prelude.{
  ℕ, ◌≤◌, ◌<◌, ◌≡◌, inl, inr, refl, sym, ap, subst, ◌∙◌, Bool, true, false, not, ◌&&◌, List, [],
  ◌∷◌, ltb, ◌==◌, arith, Bool-cases, Option-cases, zero_or_positive, find, find-erase,
}
use game_net_core.Core.TimerQueue.{
  TimerQueue, Timers, Timer, Action, adds, cancels, closes, RepeatingTimerOptions, with_timer,
  update_timer, insert, valid_options, try_add_timer, try_cancel, cancel_in_loop, is_known,
  is_fixed_rate, take_out, post_timer, add_timer_in_loop, get_expired, rescheduled, reset_timer,
  reset, perform, perform_all, after_callback, fire, run_callbacks, first_ready, handle_expired,
}
use game_net_core.Core.TimerQueue.Indexed.{AreIndexed, count, count-append}
use game_net_core.Core.TimerQueue.Expired.{perform_all-AreIndexed, handle_expired-AreIndexed}
use game_net_core.Core.TimerQueue.Canceled.{IsGone, reset-IsGone, handle_expired-IsGone}
use game_net_core.Core.TimerQueue.Requests.{
  Request, posts, inserts, withdraws, request, ArePosted, posted-IsGone, request-AreIndexed,
  request-ArePosted,
}
use game_net_core.Core.TimerQueue.Runs.{
  Step, acts, expires, asks, step, run, run-gone, acts-ArePosted, expires-ArePosted,
}
use game_net_core.Core.TimerQueue.Fired.{count-run_callbacks, handle_expired_lem}

-- The id was given to a timer that does not repeat.
abbrev pub IsOneShot : ℕ → TimerQueue → Type 0
IsOneShot id q = (id < q.next_sequence) × ((q.heap id).interval ≡ 0)

-- Writing a timer with the same interval.
update-interval :
    (heap : Timers) (k id : ℕ) (t : Timer)
    → t.interval ≡ (heap k).interval
    → (update_timer heap k t id).interval ≡ (heap id).interval
update-interval heap k id t e = elim (Bool-cases (k == id)) [
  | inr n ↦ rw n refl
  | inl y ↦ let same : k ≡ id = ground (arith, y) in rw y (e ∙ ap (λ j. (heap j).interval) same)
]

insert-IsOneShot : (id e : ℕ) (q : TimerQueue) → IsOneShot id q → IsOneShot id (insert e q)
unfolding insert
insert-IsOneShot id e q o = (
  o.0,
  update-interval q.heap e id (record (q.heap e) { in_queue = true; canceled = false }) refl ∙ o.1,
)

with_timer-IsOneShot :
    (when interval : ℕ) (options : RepeatingTimerOptions) (id : ℕ) (q : TimerQueue)
    → IsOneShot id q
    → IsOneShot id (with_timer when interval options q)
with_timer-IsOneShot when interval options id q o =
    let other : (q.next_sequence == id) ≡ false = ground (arith, o.0) in
    (omega (arith, o.0), rw other o.1)

cancel_in_loop-IsOneShot :
    (id e : ℕ) (q : TimerQueue) → IsOneShot id q → IsOneShot id (cancel_in_loop e q)
unfolding cancel_in_loop
cancel_in_loop-IsOneShot id e q o = elim (Option-cases (find e q.by_id)) [
  | inl n ↦ simp (cancel_in_loop, n) o
  | inr (s, f) ↦ elim (Bool-cases (q.heap s).in_queue) [
    | inl y ↦
        simp (cancel_in_loop, f, y)
          ((
            o.0,
            update-interval q.heap s id (record (q.heap s) { canceled = true; in_queue = false })
                  refl
                ∙ o.1,
          ))
    | inr n ↦
        simp (cancel_in_loop, f, n)
          ((
            o.0,
            update-interval q.heap s id (record (q.heap s) { canceled = true; in_queue = false })
                  refl
                ∙ o.1,
          ))
  ]
]

perform-IsOneShot :
    (a : Action) (id : ℕ) (q : TimerQueue) → IsOneShot id q → IsOneShot id (perform q a)
unfolding perform try_add_timer try_cancel
perform-IsOneShot (adds when interval options) id q o =
    let made = with_timer-IsOneShot when interval options id q o in
    elim (Bool-cases (valid_options interval options)) [
      | inr bad ↦ simp (perform, bad) o
      | inl fine ↦ elim (Bool-cases q.admitting) [
        | inl in_time ↦
            simp (perform, try_add_timer, fine, in_time)
              (insert-IsOneShot id q.next_sequence (with_timer when interval options q) made)
        | inr late ↦ simp (perform, try_add_timer, fine, late) made
      ]
    ]
perform-IsOneShot (cancels e) id q o = elim (Bool-cases (e == 0)) [
  | inl invalid ↦ simp (perform, try_cancel, invalid) o
  | inr valid ↦ elim (Bool-cases q.admitting) [
    | inl in_time ↦ simp (perform, try_cancel, valid, in_time) (cancel_in_loop-IsOneShot id e q o)
    | inr late ↦ simp (perform, try_cancel, valid, late) o
  ]
]
perform-IsOneShot closes id q o = (o.0, o.1)

perform_all-IsOneShot :
    (actions : List Action) (id : ℕ) (q : TimerQueue)
    → IsOneShot id q
    → IsOneShot id (perform_all q actions)
unfolding perform_all
perform_all-IsOneShot [] id q o = o
perform_all-IsOneShot (a ∷ actions) id q o =
    perform_all-IsOneShot actions id (perform q a) (perform-IsOneShot a id q o)

after_callback-IsOneShot :
    (threw : Bool) (e id : ℕ) (q : TimerQueue)
    → IsOneShot id q
    → IsOneShot id (after_callback threw e q)
after_callback-IsOneShot false e id q o = (o.0, o.1)
after_callback-IsOneShot true e id q o =
    (o.0, update-interval q.heap e id (record (q.heap e) { canceled = true }) refl ∙ o.1)

take_out-interval :
    (ss : List ℕ) (heap : Timers) (s : ℕ) → (take_out ss heap s).interval ≡ (heap s).interval
unfolding take_out
take_out-interval [] heap s = refl
take_out-interval (k ∷ ss) heap s =
    take_out-interval ss (update_timer heap k (record (heap k) { in_queue = false })) s
    ∙ update-interval heap k s (record (heap k) { in_queue = false }) refl

get_expired-IsOneShot :
    (now n id : ℕ) (q : TimerQueue) → IsOneShot id q → IsOneShot id (get_expired now n q).1
unfolding get_expired
get_expired-IsOneShot now n id q o =
    (o.0, take_out-interval (get_expired now n q).0 q.heap id ∙ o.1)

rescheduled-interval : (now : ℕ) (t : Timer) → (rescheduled now t).interval ≡ t.interval
unfolding rescheduled
rescheduled-interval now t = elim (Bool-cases (is_fixed_rate t.options.mode)) [
  | inl y ↦ simp (rescheduled, y) refl
  | inr n ↦ simp (rescheduled, n) refl
]

reset_timer-IsOneShot :
    (now e id : ℕ) (q : TimerQueue) → IsOneShot id q → IsOneShot id (reset_timer now e q)
unfolding reset_timer
reset_timer-IsOneShot now e id q o =
    elim (Bool-cases (ltb 0 (q.heap e).interval && not (q.heap e).canceled && is_known e q.by_id)) [
      | inr ends ↦ simp (reset_timer, ends) ((o.0, o.1))
      | inl repeats ↦
          simp (reset_timer, repeats)
            (insert-IsOneShot id e
              (record q { heap = update_timer q.heap e (rescheduled now (q.heap e)) })
              ((
                o.0,
                update-interval q.heap e id (rescheduled now (q.heap e))
                      (rescheduled-interval now (q.heap e))
                    ∙ o.1,
              )))
    ]

reset_timer-once : (now id : ℕ) (q : TimerQueue) → IsOneShot id q → IsGone id (reset_timer now id q)
unfolding IsGone reset_timer
reset_timer-once now id q o =
    let ends : (ltb 0 (q.heap id).interval && not (q.heap id).canceled && is_known id q.by_id)
        ≡ false =
      rw o.1 refl in
    let me : (id == id) ≡ true = ground arith in
    simp (reset_timer, ends) (find-erase id id q.by_id ∙ rw me refl, o.0)

-- A timer that does not repeat is forgotten when it is reset.
reset-once :
    (now : ℕ) (es : List ℕ) (id : ℕ) (q : TimerQueue)
    → IsOneShot id q
    → 0 < count id es
    → IsGone id (reset now es q)
unfolding reset
reset-once now [] id q o p = absurd (omega (arith, p))
reset-once now (e ∷ es) id q o p = elim (Bool-cases (e == id)) [
  | inr n ↦
      reset-once now es id (reset_timer now e q) (reset_timer-IsOneShot now e id q o)
        (ground (arith, n, p))
  | inl y ↦
      let same : e ≡ id = ground (arith, y) in
      reset-IsGone now es id (reset_timer now e q)
        (subst (λ k. IsGone id (reset_timer now k q)) (sym same) (reset_timer-once now id q o))
]

request-IsOneShot :
    (posted : List ℕ) (id : ℕ) (q : TimerQueue) (r : Request)
    → IsOneShot id q
    → IsOneShot id (request posted q r).1
unfolding request post_timer add_timer_in_loop
request-IsOneShot posted id q (posts accepted when interval options) o =
    elim (Bool-cases (valid_options interval options)) [
      | inr bad ↦ simp (request, bad) o
      | inl fine ↦ simp (request, fine) (with_timer-IsOneShot when interval options id q o)
    ]
request-IsOneShot [] id q inserts o = o
request-IsOneShot (e ∷ posted) id q inserts o = insert-IsOneShot id e q o
request-IsOneShot posted id q (withdraws e) o = elim (Bool-cases (e == 0)) [
  | inl invalid ↦ simp (request, invalid) o
  | inr valid ↦ simp (request, valid) (cancel_in_loop-IsOneShot id e q o)
]

module _ {S : Type 0} (callback : S → ℕ → List Action × Bool × S) where
  fire-IsOneShot :
      (e id : ℕ) (q : TimerQueue) (s : S) → IsOneShot id q → IsOneShot id (fire callback q s e).0
  unfolding fire
  fire-IsOneShot e id q s o =
      let (actions, threw, s') = callback s e in
      elim (Bool-cases (q.heap e).canceled) [
        | inl gone ↦ simp (fire, gone) o
        | inr live ↦
            simp (fire, live)
              (after_callback-IsOneShot threw e id (perform_all q actions)
                (perform_all-IsOneShot actions id q o))
      ]

  run_callbacks-IsOneShot :
      (es : List ℕ) (id : ℕ) (q : TimerQueue) (s : S)
      → IsOneShot id q
      → IsOneShot id (run_callbacks callback q s es).0
  unfolding run_callbacks
  run_callbacks-IsOneShot [] id q s o = o
  run_callbacks-IsOneShot (e ∷ es) id q s o =
      run_callbacks-IsOneShot es id (fire callback q s e).0 (fire callback q s e).1
        (fire-IsOneShot e id q s o)

  reset-IsOneShot :
      (now : ℕ) (es : List ℕ) (id : ℕ) (q : TimerQueue)
      → IsOneShot id q
      → IsOneShot id (reset now es q)
  unfolding reset
  reset-IsOneShot now [] id q o = o
  reset-IsOneShot now (e ∷ es) id q o =
      reset-IsOneShot now es id (reset_timer now e q) (reset_timer-IsOneShot now e id q o)

  handle_expired-once :
      (now max_count reset_at counted_at id : ℕ) (q : TimerQueue) (s : S)
      → IsOneShot id q
      → let (q', s', fired, drained, remaining) =
          handle_expired callback now max_count reset_at counted_at q s in
        IsOneShot id q' × (0 < count id fired → IsGone id q')
  unfolding handle_expired
  handle_expired-once now max_count reset_at counted_at id q s o =
      let (taken, q₁) = get_expired now max_count q in
      let q₂ : TimerQueue = (run_callbacks callback q₁ s taken).0 in
      let (fewer, shorter) = count-run_callbacks callback id q₁ s taken in
      let o₂ : IsOneShot id q₂ =
        run_callbacks-IsOneShot taken id q₁ s (get_expired-IsOneShot now max_count id q o) in
      elim (Bool-cases (first_ready now q)) [
        | inr idle ↦ simp (handle_expired, idle) (o, λ p. absurd (omega (arith, p)))
        | inl ready ↦
            simp (handle_expired, ready)
              (
                reset-IsOneShot reset_at taken id q₂ o₂,
                λ p. reset-once reset_at taken id q₂ o₂ (omega (arith, p, fewer)),
              )
      ]

  -- A timer that was given out and does not repeat runs at most once, whatever happens on the loop:
  -- callbacks that add and cancel timers or throw, calls from elsewhere and from other threads, and
  -- any number of times that timers expire.
  pub run-one_shot :
      (id : ℕ) (steps : List Step) (posted : List ℕ) (q : TimerQueue) (s : S)
      → AreIndexed [] q
      → ArePosted posted q
      → IsOneShot id q
      → count id (run callback posted q s steps) ≤ 1
  unfolding run step
  run-one_shot id [] posted q s v p o = omega arith
  run-one_shot id (acts actions ∷ steps) posted q s v p o =
      run-one_shot id steps posted (perform_all q actions) s (perform_all-AreIndexed actions [] q v)
        (acts-ArePosted callback actions posted q p) (perform_all-IsOneShot actions id q o)
  run-one_shot id (expires now max_count reset_at counted_at ∷ steps) posted q s v p o =
      let after = handle_expired callback now max_count reset_at counted_at q s in
      let v' = handle_expired-AreIndexed callback now max_count reset_at counted_at q s v in
      let p' = expires-ArePosted callback now max_count reset_at counted_at posted q s v p in
      let (o', over) = handle_expired-once now max_count reset_at counted_at id q s o in
      let at_most : count id after.2 ≤ 1 =
        (handle_expired_lem callback now max_count reset_at counted_at q s v).3 id in
      let both = count-append id after.2 (run callback posted after.0 after.1 steps) in
      elim (zero_or_positive (count id after.2)) [
        | inl not_yet ↦
            omega (arith, both, not_yet, run-one_shot id steps posted after.0 after.1 v' p' o')
        | inr ran ↦ elim (zero_or_positive (count id posted)) [
          | inl out ↦ omega (
            arith,
            both,
            at_most,
            run-gone callback id steps posted after.0 after.1 v' p' (over ran) out,
          )
          | inr in_post ↦
              let none_now =
                (handle_expired-IsGone callback id now max_count reset_at counted_at q s v
                  (posted-IsGone posted id q p in_post)).0 in
              absurd (omega (arith, none_now, ran))
        ]
      ]
  run-one_shot id (asks r ∷ steps) posted q s v p o =
      run-one_shot id steps (request posted q r).0 (request posted q r).1 s
        (request-AreIndexed posted q r v p) (request-ArePosted posted q r v p)
        (request-IsOneShot posted id q r o)
