-- ===== src/Core/TimerQueue/Canceled.antt =====
-- A timer that the queue no longer knows does not run, and nothing but an insert makes it known.
use game_net_core.Prelude.{
  ℕ, ◌≤◌, ◌<◌, ◌≡◌, inl, inr, refl, subst, ◌∙◌, Bool, true, false, not, ◌&&◌, none, List, [], ◌∷◌,
  ltb, ◌==◌, arith, Bool-cases, Option-cases, find, erase, find-erase, find-assign,
}
use game_net_core.Core.TimerQueue.{
  TimerQueue, Action, adds, cancels, closes, RepeatingTimerOptions, with_timer, update_timer,
  insert, valid_options, try_add_timer, try_cancel, cancel_in_loop, is_known, get_expired,
  rescheduled, reset_timer, reset, perform, perform_all, after_callback, fire, run_callbacks,
  first_ready, handle_expired,
}
use game_net_core.Core.TimerQueue.Indexed.{
  unknown, waiting, running, stopped, AreIndexed, count, count-append,
}
use game_net_core.Core.TimerQueue.Expired.{get_expired-AreIndexed, fire-AreIndexed}

-- The id was given out, and the queue does not know it.
unfoldable pub IsGone : ℕ → TimerQueue → Type 0
IsGone id q = (find id q.by_id ≡ none) × (id < q.next_sequence)

pub insert-IsGone :
    (id e : ℕ) (q : TimerQueue) → (e == id) ≡ false → IsGone id q → IsGone id (insert e q)
unfolding IsGone insert
insert-IsGone id e q n (k, b) = (find-assign e id e q.by_id ∙ rw n k, b)

erase-gone : (id e : ℕ) (q : TimerQueue) → find id q.by_id ≡ none → find id (erase e q.by_id) ≡ none
erase-gone id e q k =
    find-erase e id q.by_id ∙ elim (Bool-cases (e == id)) [ inl y ↦ rw y refl | inr n ↦ rw n k ]

try_add_timer-IsGone :
    (when interval : ℕ) (o : RepeatingTimerOptions) (id : ℕ) (q : TimerQueue)
    → IsGone id q
    → IsGone id (try_add_timer when interval o q).1
unfolding IsGone try_add_timer
try_add_timer-IsGone when interval o id q (k, b) = elim (Bool-cases q.admitting) [
  | inl open_loop ↦
      simp (try_add_timer, open_loop)
        (insert-IsGone id q.next_sequence (with_timer when interval o q) (ground (arith, b))
          (k, omega (arith, b)))
  | inr closed ↦ simp (try_add_timer, closed) (k, omega (arith, b))
]

pub cancel_in_loop-IsGone :
    (id e : ℕ) (q : TimerQueue) → IsGone id q → IsGone id (cancel_in_loop e q)
unfolding IsGone cancel_in_loop
cancel_in_loop-IsGone id e q (k, b) = elim (Option-cases (find e q.by_id)) [
  | inl n ↦ simp (cancel_in_loop, n) (k, b)
  | inr (s, f) ↦ elim (Bool-cases (q.heap s).in_queue) [
    | inl y ↦ simp (cancel_in_loop, f, y) (erase-gone id e q k, b)
    | inr n ↦ simp (cancel_in_loop, f, n) (erase-gone id e q k, b)
  ]
]

perform-IsGone : (a : Action) (id : ℕ) (q : TimerQueue) → IsGone id q → IsGone id (perform q a)
unfolding perform try_cancel IsGone
perform-IsGone (adds when interval o) id q g = elim (Bool-cases (valid_options interval o)) [
  | inl fine ↦ simp (perform, fine) (try_add_timer-IsGone when interval o id q g)
  | inr bad ↦ simp (perform, bad) g
]
perform-IsGone (cancels e) id q g = elim (Bool-cases (e == 0)) [
  | inl invalid ↦ simp (perform, try_cancel, invalid) g
  | inr valid ↦ elim (Bool-cases q.admitting) [
    | inl in_time ↦ simp (perform, try_cancel, valid, in_time) (cancel_in_loop-IsGone id e q g)
    | inr late ↦ simp (perform, try_cancel, valid, late) g
  ]
]
perform-IsGone closes id q g = g

pub perform_all-IsGone :
    (actions : List Action) (id : ℕ) (q : TimerQueue)
    → IsGone id q
    → IsGone id (perform_all q actions)
unfolding perform_all
perform_all-IsGone [] id q g = g
perform_all-IsGone (a ∷ actions) id q g =
    perform_all-IsGone actions id (perform q a) (perform-IsGone a id q g)

after_callback-IsGone :
    (threw : Bool) (e id : ℕ) (q : TimerQueue) → IsGone id q → IsGone id (after_callback threw e q)
unfolding IsGone
after_callback-IsGone true e id q g = g
after_callback-IsGone false e id q g = g

pub reset_timer-IsGone :
    (now e id : ℕ) (q : TimerQueue) → IsGone id q → IsGone id (reset_timer now e q)
unfolding IsGone reset_timer
reset_timer-IsGone now e id q (k, b) =
    elim (Bool-cases (ltb 0 (q.heap e).interval && not (q.heap e).canceled && is_known e q.by_id)) [
      | inr ends ↦ simp (reset_timer, ends) (erase-gone id e q k, b)
      | inl repeats ↦
          let other : (e == id) ≡ false = elim (Bool-cases (e == id)) [
            | inr n ↦ n
            | inl y ↦
                let unknown_here : find e q.by_id ≡ none =
                  subst (λ j. find j q.by_id ≡ none) (ground (arith, y)) k in
                absurd (ground (arith, repeats, unknown_here))
          ] in
          simp (reset_timer, repeats)
            (insert-IsGone id e
              (record q { heap = update_timer q.heap e (rescheduled now (q.heap e)) }) other (k, b))
    ]

pub reset-IsGone :
    (now : ℕ) (es : List ℕ) (id : ℕ) (q : TimerQueue) → IsGone id q → IsGone id (reset now es q)
unfolding reset
reset-IsGone now [] id q g = g
reset-IsGone now (e ∷ es) id q g =
    reset-IsGone now es id (reset_timer now e q) (reset_timer-IsGone now e id q g)

get_expired-IsGone :
    (now max_count id : ℕ) (q : TimerQueue)
    → IsGone id q
    → IsGone id (get_expired now max_count q).1
unfolding IsGone get_expired
get_expired-IsGone now max_count id q g = g

-- Canceling a known id makes it gone, whether it waits or runs.
pub cancel_in_loop-unknown :
    (id : ℕ) (q : TimerQueue) → id < q.next_sequence → IsGone id (cancel_in_loop id q)
unfolding IsGone cancel_in_loop
cancel_in_loop-unknown id q b =
    let me : (id == id) ≡ true = ground arith in
    let erased : find id (erase id q.by_id) ≡ none = find-erase id id q.by_id ∙ rw me refl in
    elim (Option-cases (find id q.by_id)) [
      | inl n ↦ simp (cancel_in_loop, n) (refl, b)
      | inr (s, f) ↦ elim (Bool-cases (q.heap s).in_queue) [
        | inl y ↦ simp (cancel_in_loop, f, y) (erased, b)
        | inr n ↦ simp (cancel_in_loop, f, n) (erased, b)
      ]
    ]

-- A timer of the batch whose callback runs is not one that is gone.
runs_other :
    (id : ℕ) (es : List ℕ) (e : ℕ) (q : TimerQueue)
    → 0 < count e es
    → (q.heap e).canceled ≡ false
    → AreIndexed es q
    → IsGone id q
    → count id (e ∷ []) ≡ 0
unfolding IsGone
runs_other id es e q p live v (k, b) = elim (Bool-cases (e == id)) [
  | inr n ↦ rw n refl
  | inl y ↦
      let k' : find e q.by_id ≡ none = subst (λ j. find j q.by_id ≡ none) (ground (arith, y)) k in
      elim (v e) [
        | unknown f h z ↦ absurd (omega (arith, p, z))
        | waiting f h z i c l ↦ absurd (omega (arith, p, z))
        | running f h z i l ↦ absurd (ground (arith, f, k'))
        | stopped f h z c l ↦ absurd (ground (arith, c, live))
      ]
]

module _ {S : Type 0} (callback : S → ℕ → List Action × Bool × S) where
  fire-IsGone :
      (id : ℕ) (es : List ℕ) (q : TimerQueue) (s : S) (e : ℕ)
      → 0 < count e es
      → AreIndexed es q
      → IsGone id q
      → let (q', s', fired) = fire callback q s e in (count id fired ≡ 0) × IsGone id q'
  unfolding fire
  fire-IsGone id es q s e p v g =
      let (actions, threw, s') = callback s e in
      elim (Bool-cases (q.heap e).canceled) [
        | inl stop ↦ simp (fire, stop) (refl, g)
        | inr live ↦
            simp (fire, live)
              (
                runs_other id es e q p live v g,
                after_callback-IsGone threw e id (perform_all q actions)
                    (perform_all-IsGone actions id q g),
              )
      ]

  pub run_callbacks-IsGone :
      (id : ℕ) (es : List ℕ) (q : TimerQueue) (s : S) (left : List ℕ)
      → ((e : ℕ) → count e left ≤ count e es)
      → AreIndexed es q
      → IsGone id q
      → let (q', s', fired) = run_callbacks callback q s left in (count id fired ≡ 0) × IsGone id q'
  unfolding run_callbacks
  run_callbacks-IsGone id es q s [] within v g = (refl, g)
  run_callbacks-IsGone id es q s (e ∷ left) within v g =
      let p : 0 < count e es = ground (arith, within e) in
      let (none_now, g') = fire-IsGone id es q s e p v g in
      let (none_later, g'') =
        run_callbacks-IsGone id es (fire callback q s e).0 (fire callback q s e).1 left
          (λ k. ground (arith, within k)) (fire-AreIndexed callback es q s e p v) g' in
      (
        count-append id (fire callback q s e).2
              (run_callbacks callback (fire callback q s e).0 (fire callback q s e).1 left).2
            ∙ omega (arith, none_now, none_later),
        g'',
      )

  pub handle_expired-IsGone :
      (id now max_count reset_at counted_at : ℕ) (q : TimerQueue) (s : S)
      → AreIndexed [] q
      → IsGone id q
      → let (q', s', fired, drained, remaining) =
          handle_expired callback now max_count reset_at counted_at q s in
        (count id fired ≡ 0) × IsGone id q'
  unfolding handle_expired
  handle_expired-IsGone id now max_count reset_at counted_at q s v g =
      let (due, q₁) = get_expired now max_count q in
      let (none_now, g') =
        run_callbacks-IsGone id due q₁ s due (λ e. omega arith)
          (get_expired-AreIndexed now max_count q v) (get_expired-IsGone now max_count id q g) in
      elim (Bool-cases (first_ready now q)) [
        | inr idle ↦ rw (handle_expired, idle) (refl, g)
        | inl ready ↦
            rw (handle_expired, ready)
              (none_now, reset-IsGone reset_at due id (run_callbacks callback q₁ s due).0 g')
      ]
