-- ===== src/Core/TimerQueue/Expired.antt =====
-- `handleExpired` and the calls of its callbacks keep every timer in one status.
use game_net_core.Prelude.{
  ℕ, zero, suc, ◌≤◌, ◌<◌, ◌≡◌, ◌⊎◌, inl, inr, refl, sym, ap, subst, ◌∙◌, Bool, true, false, not,
  ◌&&◌, List, [], ◌∷◌, ◌++◌, ltb, leb, ◌==◌, arith, Bool-cases, zero_or_positive, length, erase,
  find-erase,
}
use game_net_core.Core.TimerQueue.{
  Timers, Keys, TimerQueue, Action, adds, cancels, closes, update_timer, valid_options, try_cancel,
  is_known, take_due, sequences, take_out, get_expired, rescheduled, reset_timer, reset, perform,
  perform_all, after_callback, fire, run_callbacks, first_ready, handle_expired,
}
use game_net_core.Core.TimerQueue.Indexed.{
  unknown, waiting, running, stopped, AreIndexed, times, count, moved, insert-AreIndexed,
  try_add_timer-AreIndexed, cancel_in_loop-AreIndexed,
}

pub perform-AreIndexed :
    (a : Action) (es : List ℕ) (q : TimerQueue) → AreIndexed es q → AreIndexed es (perform q a)
unfolding perform try_cancel
perform-AreIndexed (adds when interval o) es q v = elim (Bool-cases (valid_options interval o)) [
  | inl fine ↦ rw (perform, fine) (try_add_timer-AreIndexed when interval o es q v)
  | inr bad ↦ rw (perform, bad) v
]
perform-AreIndexed (cancels id) es q v = elim (Bool-cases (id == 0)) [
  | inl invalid ↦ rw (perform, try_cancel, invalid) v
  | inr valid ↦ elim (Bool-cases q.admitting) [
    | inl in_time ↦ simp (perform, try_cancel, valid, in_time) (cancel_in_loop-AreIndexed id es q v)
    | inr late ↦ simp (perform, try_cancel, valid, late) v
  ]
]
perform-AreIndexed closes es q v = v

pub perform_all-AreIndexed :
    (actions : List Action) (es : List ℕ) (q : TimerQueue)
    → AreIndexed es q
    → AreIndexed es (perform_all q actions)
unfolding perform_all
perform_all-AreIndexed [] es q v = v
perform_all-AreIndexed (a ∷ actions) es q v =
    perform_all-AreIndexed actions es (perform q a) (perform-AreIndexed a es q v)

pub after_callback-AreIndexed :
    (threw : Bool) (e : ℕ) (es : List ℕ) (q : TimerQueue)
    → 0 < count e es
    → AreIndexed es q
    → AreIndexed es (after_callback threw e q)
after_callback-AreIndexed false e es q p v s = v s
after_callback-AreIndexed true e es q p v s = elim (Bool-cases (e == s)) [
  | inr n ↦ moved (omega arith) refl refl refl (rw n refl) (v s)
  | inl y ↦
      let p' : 0 < count s es = subst (λ j. 0 < count j es) (ground (arith, y)) p in
      let same : e ≡ s = ground (arith, y) in
      elim (v s) [
        | unknown k h z ↦ unknown k h z
        | waiting k h z i c b ↦ absurd (omega (arith, p', z))
        | running k h z i b ↦ running k h z (rw (y, same) i) b
        | stopped k h z c b ↦ stopped k h z (rw y refl) b
      ]
]

-- What is taken and what is left.
pub take_due-times :
    (now n s : ℕ) (ks : Keys)
    → let (due, later) = take_due now n ks in
      (times s due ++ times s later ≡ times s ks) × (count s (sequences due) ≡ length (times s due))
unfolding take_due
take_due-times now zero s ks = (refl, refl)
take_due-times now (suc n) s [] = (refl, refl)
take_due-times now (suc n) s ((k, t) ∷ ks) =
    let (both, counted) = take_due-times now n s ks in
    elim (Bool-cases (leb t now)) [
      | inr late ↦ rw (take_due, late) (refl, refl)
      | inl due ↦ elim (Bool-cases (k == s)) [
        | inl y ↦ rw (take_due, due, y) (ap (◌∷◌ t) both, ap suc counted)
        | inr n ↦ rw (take_due, due, n) (both, counted)
      ]
    ]

append-empty : (xs ys : List ℕ) → xs ++ ys ≡ [] → (xs ≡ []) × (ys ≡ [])
append-empty [] ys e = (refl, e)
append-empty (x ∷ xs) ys e = absurd (cc)

append-one :
    {t : ℕ} (xs ys : List ℕ)
    → xs ++ ys ≡ t ∷ []
    → ((xs ≡ []) × (ys ≡ t ∷ [])) ⊎ ((xs ≡ t ∷ []) × (ys ≡ []))
append-one [] ys e = inl (refl, e)
append-one {t} (x ∷ xs) ys e =
    let head : x ≡ t = ground (arith, e) in
    let rest : xs ++ ys ≡ [] = ground (arith, e) in
    let (no_more, none_left) = append-empty xs ys rest in inr (rw (head, no_more) refl, none_left)

take_out-heap :
    (ss : List ℕ) (heap : Timers) (s : ℕ)
    → (count s ss ≡ 0 → take_out ss heap s ≡ heap s)
      × (0 < count s ss → (take_out ss heap s).in_queue ≡ false)
unfolding take_out
take_out-heap [] heap s = (λ e. refl, λ p. absurd (omega (arith, p)))
take_out-heap (k ∷ ss) heap s =
    let (kept, out) =
      take_out-heap ss (update_timer heap k (record (heap k) { in_queue = false })) s in
    elim (Bool-cases (k == s)) [
      | inr n ↦ rw n (λ e. kept e ∙ rw n refl, out)
      | inl y ↦ rw y (
        λ e. absurd (omega (arith, e)),
        λ p. elim (zero_or_positive (count s ss)) [
          | inl z ↦ ap (λ t. t.in_queue) (kept z) ∙ rw y refl
          | inr more ↦ out more
        ],
      )
    ]

-- Taking out the due timers makes them run.
pub get_expired-AreIndexed :
    (now max_count : ℕ) (q : TimerQueue)
    → AreIndexed [] q
    → let (due, q') = get_expired now max_count q in AreIndexed due q'
unfolding get_expired
get_expired-AreIndexed now max_count q v s =
    let (due, later) = take_due now max_count q.timers in
    let (both, counted) = take_due-times now max_count s q.timers in
    let (kept, out) = take_out-heap (sequences due) q.heap s in
    elim (v s) [
      | unknown k h z ↦
          let (none_due, none_left) = append-empty (times s due) (times s later) (both ∙ h) in
          unknown k none_left (counted ∙ ap length none_due)
      | waiting k h z i c b ↦ elim (append-one (times s due) (times s later) (both ∙ h)) [
        | inl (none_due, left) ↦
            let unmoved = kept (counted ∙ ap length none_due) in
            moved (omega arith) (z ∙ sym (counted ∙ ap length none_due)) refl (sym left)
              (sym unmoved) (waiting k refl refl i c b)
        | inr (taken, none_left) ↦
            let one = counted ∙ ap length taken in
            running k none_left one (out (omega (arith, one))) b
      ]
      | running k h z i b ↦ absurd (omega (arith, z))
      | stopped k h z c b ↦ absurd (omega (arith, z))
    ]

-- Resetting the first timer of the batch makes it wait again, or forgets it.
reset_timer-AreIndexed :
    (now e : ℕ) (es : List ℕ) (q : TimerQueue)
    → AreIndexed (e ∷ es) q
    → AreIndexed es (reset_timer now e q)
unfolding reset_timer
reset_timer-AreIndexed now e es q v =
    let me : (e == e) ≡ true = ground arith in
    let forgets : times e q.timers ≡ []
        → count e (e ∷ es) ≡ 1
        → AreIndexed es (record q { by_id = erase e q.by_id }) =
      λ h z s.
        let found = find-erase e s q.by_id in
        elim (Bool-cases (e == s)) [
          | inr n ↦ moved (omega arith) (rw n refl) (sym (found ∙ rw n refl)) refl refl (v s)
          | inl y ↦
              let same : e ≡ s = ground (arith, y) in
              unknown (found ∙ rw y refl) (subst (λ j. times j q.timers ≡ []) same h)
                (subst (λ j. count j es ≡ 0) same (ground (arith, z, me)))
        ] in
    elim (v e) [
      | unknown k h z ↦ absurd (ground (arith, z, me))
      | waiting k h z i c b ↦ absurd (ground (arith, z, me))
      | stopped k h z c b ↦
          let ends : (ltb 0 (q.heap e).interval && not (q.heap e).canceled && is_known e q.by_id)
              ≡ false =
            elim (Bool-cases (ltb 0 (q.heap e).interval)) [
              | inl y ↦ rw (y, c) refl
              | inr n ↦ rw n refl
            ] in
          simp (reset_timer, ends) (forgets h z)
      | running k h z i b ↦
          elim (Bool-cases
            (ltb 0 (q.heap e).interval && not (q.heap e).canceled && is_known e q.by_id)) [
              | inr ends ↦ simp (reset_timer, ends) (forgets h z)
              | inl repeats ↦
                  simp (reset_timer, repeats)
                    (insert-AreIndexed e es
                      (record q { heap = update_timer q.heap e (rescheduled now (q.heap e)) })
                      (λ s n. moved (omega arith) (rw n refl) refl refl (rw n refl) (v s)) h
                      (ground (arith, z, me)) b)
            ]
    ]

pub reset-AreIndexed :
    (now : ℕ) (es : List ℕ) (q : TimerQueue) → AreIndexed es q → AreIndexed [] (reset now es q)
unfolding reset
reset-AreIndexed now [] q v = v
reset-AreIndexed now (e ∷ es) q v =
    reset-AreIndexed now es (reset_timer now e q) (reset_timer-AreIndexed now e es q v)

module _ {S : Type 0} (callback : S → ℕ → List Action × Bool × S) where
  pub fire-AreIndexed :
      (es : List ℕ) (q : TimerQueue) (s : S) (e : ℕ)
      → 0 < count e es
      → AreIndexed es q
      → AreIndexed es (fire callback q s e).0
  unfolding fire
  fire-AreIndexed es q s e p v =
      let (actions, threw, s') = callback s e in
      elim (Bool-cases (q.heap e).canceled) [
        | inl gone ↦ simp (fire, gone) v
        | inr live ↦
            simp (fire, live)
              (after_callback-AreIndexed threw e es (perform_all q actions) p
                (perform_all-AreIndexed actions es q v))
      ]

  pub run_callbacks-AreIndexed :
      (es : List ℕ) (q : TimerQueue) (s : S) (left : List ℕ)
      → ((e : ℕ) → count e left ≤ count e es)
      → AreIndexed es q
      → AreIndexed es (run_callbacks callback q s left).0
  unfolding run_callbacks
  run_callbacks-AreIndexed es q s [] within v = v
  run_callbacks-AreIndexed es q s (e ∷ left) within v =
      run_callbacks-AreIndexed es (fire callback q s e).0 (fire callback q s e).1 left
        (λ k. ground (arith, within k)) (fire-AreIndexed es q s e (ground (arith, within e)) v)

  pub handle_expired-AreIndexed :
      (now max_count reset_at counted_at : ℕ) (q : TimerQueue) (s : S)
      → AreIndexed [] q
      → AreIndexed [] (handle_expired callback now max_count reset_at counted_at q s).0
  unfolding handle_expired
  handle_expired-AreIndexed now max_count reset_at counted_at q s v =
      elim (Bool-cases (first_ready now q)) [
        | inr idle ↦ rw (handle_expired, idle) v
        | inl ready ↦
            let (due, q₁) = get_expired now max_count q in
            rw (handle_expired, ready)
              (reset-AreIndexed reset_at due (run_callbacks callback q₁ s due).0 (
                run_callbacks-AreIndexed due q₁ s due (λ e. omega arith)
                  (get_expired-AreIndexed now max_count q v)))
      ]
